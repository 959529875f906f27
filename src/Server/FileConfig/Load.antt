-- ===== src/Server/FileConfig/Load.antt =====
-- `loadConfig` of Server/FileConfig/Config.cpp, over the settings that libconfig has read.
use mathlib.Core.Option
use ip_cam_box.Prelude.{
  ℕ, zero, suc, ◌+◌, String, string_eq, Bool, Option, none, some, [], is_empty, if◌then◌else◌,
  when_some, return_if,
}
use ip_cam_box.Prelude.Assoc.{modify}
use ip_cam_box.Server.FileConfig.{
  DeviceEntry, UserEntry, Store, add_source, add_play_source, add_device, add_user,
}

-- What libconfig answers of a setting: a group, a list, a text of a group, a setting of a group, an
-- element of a list. A null pointer is `none`.
pub record Libconfig : Type 1 where
  pub Setting : Type 0
  pub is_group : Setting → Bool
  pub is_list : Setting → Bool
  pub lookup_string : Setting → String → Option String
  pub lookup : Setting → String → Option Setting
  pub count : Setting → ℕ
  pub get_elem : Setting → ℕ → Option Setting

abbrev pub default_control_server_port : ℕ
default_control_server_port = 8000

abbrev pub default_static_server_port : ℕ
default_static_server_port = 8090

abbrev pub default_restream_server_port : ℕ
default_restream_server_port = 8100

-- A member before any assignment; the ports are then indeterminate, 0 here.
unfoldable pub empty : Store
empty = record {
  server = record {
    server_host = "";
    control_server_port = 0;
    static_server_port = 0;
    restream_server_port = 0;
    no_signal_splash_source = "";
  };
  certificate_path = "";
  private_key_path = "";
  devices = [];
  users = [];
}

module _ (lib : Libconfig) where
  open lib use {Setting, is_group, is_list, lookup_string, lookup, count, get_elem}

  -- `setting && CONFIG_TRUE == is_group(setting)`, and the setting.
  abbrev group : Option Setting → Option Setting
  group none = none
  group (some s) = if is_group s then some s else none

  abbrev list : Option Setting → Option Setting
  list none = none
  list (some s) = if is_list s then some s else none

  -- The loop over the elements of a list, `n` of them left from `i` on.
  unfoldable pub for_elements {ℓ} :
      {S : Type ℓ} → (Option Setting → S → S) → Setting → ℕ → ℕ → S → S
  for_elements body l i zero s = s
  for_elements body l i (suc n) s = for_elements body l (i + 1) n (body (get_elem l i) s)

  unfoldable pub for_list {ℓ} : {S : Type ℓ} → (Option Setting → S → S) → Option Setting → S → S
  unfolding for_elements
  for_list body setting s = when_some (list setting) s λ l. for_elements body l 0 (count l) s

  unfoldable pub load_device_source_config : Option Setting → DeviceEntry → DeviceEntry
  load_device_source_config setting d = when_some (group setting) d λ s.
      when_some (lookup_string s "id") d λ id. when_some (lookup_string s "uri") d λ uri.
        let d' = add_source id d in
        record d' { sources = modify id (λ source. record source { uri = uri }) d'.sources }

  -- The assignment to `certificate` and the loop over the sources.
  unfoldable pub load_device : Setting → String → DeviceEntry → DeviceEntry
  load_device s certificate d =
      for_list load_device_source_config (lookup s "sources")
        (record d { device = record d.device { certificate = certificate } })

  unfoldable pub load_device_config : Option Setting → Store → Store
  load_device_config setting c = when_some (group setting) c λ s.
      when_some (lookup_string s "id") c λ id.
        when_some (lookup_string s "certificate") c λ certificate.
          let c' = add_device id c in
          record c' { devices = modify id (load_device s certificate) c'.devices }

  unfoldable pub load_user_source_config : Option Setting → UserEntry → UserEntry
  load_user_source_config setting u = when_some (group setting) u λ s.
      when_some (lookup_string s "device") u
        λ device. when_some (lookup_string s "source") u λ source. add_play_source device source u

  unfoldable pub load_user_config : Option Setting → Store → Store
  load_user_config setting c = when_some (group setting) c λ s.
      when_some (lookup_string s "login") c λ login.
        let c' = add_user login c in
        record c' {
          users = modify login (for_list load_user_source_config (lookup s "sources")) c'.users;
        }

  unfoldable pub load_server_config : Option Setting → Store → Store
  load_server_config setting c = when_some (group setting) c λ s. record c {
    server = record c.server {
      server_host = Option.get_or (lookup_string s "host") c.server.server_host;
    };
    certificate_path = Option.get_or (lookup_string s "certificate") c.certificate_path;
    private_key_path = Option.get_or (lookup_string s "key") c.private_key_path;
  }

  -- The ports are set before anything else is read.
  unfoldable pub set_default_ports : Store → Store
  set_default_ports c = record c {
    server = record c.server {
      control_server_port = default_control_server_port;
      static_server_port = default_static_server_port;
      restream_server_port = default_restream_server_port;
    };
  }

  unfoldable pub load_root : Setting → Store → Store
  load_root r c =
      let c' = load_server_config (lookup r "server") (set_default_ports c) in
      return_if (is_empty c'.server.server_host) c' (
        return_if (is_empty c'.certificate_path) c' (
          return_if (is_empty c'.private_key_path) c' (
            for_list load_user_config (lookup r "users")
              (for_list load_device_config (lookup r "devices") c'))))

  -- `config_dir` is what `configDir()` returns; `root` the root setting, missing if
  -- `config_read_file` fails.
  unfoldable pub load_config : String → Option Setting → Store → Store
  load_config config_dir root c =
      return_if (is_empty config_dir) c (when_some root c λ r. load_root r c)
