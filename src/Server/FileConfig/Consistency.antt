-- ===== src/Server/FileConfig/Consistency.antt =====
-- Whatever the file holds, the loaded configuration answers consistently.
use ip_cam_box.Prelude.{
  ℕ, zero, suc, ◌+◌, ◌≡◌, refl, String, string_eq, Option, when_some_keeps, return_if_keeps,
}
use ip_cam_box.Prelude.Assoc.{
  find, emplace, Holds, emplace-Holds, modify-Holds, IsMap, emplace-IsMap, modify-IsMap,
}
use ip_cam_box.Server.Config.{DeviceId, UserName, Source, PlaySource}
use ip_cam_box.Server.FileConfig.{
  DeviceEntry, UserEntry, Store, new_source, new_device, new_user, add_source, add_play_source,
  add_device, add_user,
}
use ip_cam_box.Server.FileConfig.Load.{
  Libconfig, empty, for_elements, for_list, load_device_source_config, load_device_config,
  load_user_source_config, load_user_config, load_server_config, load_config, load_device,
  set_default_ports, load_root,
}

-- Each entry stands under its own identifier.
pub record IsDevice (id : DeviceId) (d : DeviceEntry) : Type 0 where
  pub same_id : d.device.id ≡ id
  pub source_ids : Holds (λ s (x : Source). x.id ≡ s) d.sources
  pub distinct : IsMap d.sources

pub record IsUser (name : UserName) (u : UserEntry) : Type 0 where
  pub same_name : u.user.name ≡ name
  pub source_ids : Holds (λ s (x : PlaySource). x.source_id ≡ s) u.play_sources

pub record IsStore (c : Store) : Type 0 where
  pub devices : Holds IsDevice c.devices
  pub users : Holds IsUser c.users

pub new_device-IsDevice : (id : DeviceId) → IsDevice id (new_device id)
unfolding find
new_device-IsDevice id = record { same_id = refl; source_ids = λ s x e. cc; distinct = tt }

pub new_user-IsUser : (name : UserName) → IsUser name (new_user name)
unfolding find
new_user-IsUser name = record { same_name = refl; source_ids = λ s x e. cc }

module _ (lib : Libconfig) where
  open lib use {Setting, is_group, is_list, lookup_string, lookup, count, get_elem}

  for_elements_keeps {ℓ} :
      {S : Type 0} (P : S → Type ℓ) (body : Option Setting → S → S) (l : Setting)
      → ((o : Option Setting) (s : S) → P s → P (body o s))
      → (i n : ℕ) (s : S) → P s
      → P (for_elements lib body l i n s)
  unfolding for_elements
  for_elements_keeps P body l keep i zero s h = h
  for_elements_keeps P body l keep i (suc n) s h =
      for_elements_keeps P body l keep (i + 1) n (body (get_elem l i) s) (keep (get_elem l i) s h)

  for_list_keeps {ℓ} :
      {S : Type 0} (P : S → Type ℓ) (body : Option Setting → S → S)
      → ((o : Option Setting) (s : S) → P s → P (body o s))
      → (o : Option Setting) (s : S) → P s
      → P (for_list lib body o s)
  unfolding for_list
  for_list_keeps P body keep o s h =
      when_some_keeps P _ s _ h λ l _. for_elements_keeps P body l keep 0 (count l) s h

  load_device_source_config-IsDevice :
      (id : DeviceId) (o : Option Setting) (d : DeviceEntry)
      → IsDevice id d
      → IsDevice id (load_device_source_config lib o d)
  unfolding load_device_source_config add_source
  load_device_source_config-IsDevice id o d h = when_some_keeps (IsDevice id) _ d _ h λ s _.
      when_some_keeps (IsDevice id) _ d _ h λ k _. when_some_keeps (IsDevice id) _ d _ h λ uri _.
        record {
          same_id = h.same_id;
          source_ids =
              modify-Holds _ k (λ source. record source { uri = uri })
                (emplace k (new_source k) d.sources) (λ v _ p. p)
                (emplace-Holds _ k (new_source k) d.sources refl h.source_ids);
          distinct =
              modify-IsMap k (λ source. record source { uri = uri })
                (emplace k (new_source k) d.sources)
                (emplace-IsMap k (new_source k) d.sources h.distinct);
        }

  load_device-IsDevice :
      (id : DeviceId) (s : Setting) (certificate : String) (d : DeviceEntry)
      → IsDevice id d
      → IsDevice id (load_device lib s certificate d)
  unfolding load_device
  load_device-IsDevice id s certificate d h =
      for_list_keeps (IsDevice id) _ (load_device_source_config-IsDevice id) _ _
        (record { same_id = h.same_id; source_ids = h.source_ids; distinct = h.distinct })

  load_device_config-IsStore :
      (o : Option Setting) (c : Store) → IsStore c → IsStore (load_device_config lib o c)
  unfolding load_device_config add_device
  load_device_config-IsStore o c h = when_some_keeps IsStore _ c _ h λ s _.
      when_some_keeps IsStore _ c _ h λ id _. when_some_keeps IsStore _ c _ h λ certificate _.
        record {
          devices =
              modify-Holds IsDevice id (load_device lib s certificate)
                (emplace id (new_device id) c.devices)
                (λ d _ v. load_device-IsDevice id s certificate d v)
                (emplace-Holds IsDevice id (new_device id) c.devices (new_device-IsDevice id)
                  h.devices);
          users = h.users;
        }

  load_user_source_config-IsUser :
      (name : UserName) (o : Option Setting) (u : UserEntry)
      → IsUser name u
      → IsUser name (load_user_source_config lib o u)
  unfolding load_user_source_config add_play_source
  load_user_source_config-IsUser name o u h = when_some_keeps (IsUser name) _ u _ h λ s _.
      when_some_keeps (IsUser name) _ u _ h λ device _.
        when_some_keeps (IsUser name) _ u _ h λ source _. record {
          same_name = h.same_name;
          source_ids = emplace-Holds _ source _ u.play_sources refl h.source_ids;
        }

  load_user_config-IsStore :
      (o : Option Setting) (c : Store) → IsStore c → IsStore (load_user_config lib o c)
  unfolding load_user_config add_user
  load_user_config-IsStore o c h = when_some_keeps IsStore _ c _ h λ s _.
      when_some_keeps IsStore _ c _ h λ login _. record {
        devices = h.devices;
        users =
            modify-Holds IsUser login _ (emplace login (new_user login) c.users)
              (λ u _ v.
                for_list_keeps (IsUser login) _ (load_user_source_config-IsUser login) _ u v)
              (emplace-Holds IsUser login (new_user login) c.users (new_user-IsUser login) h.users);
      }

  load_server_config-IsStore :
      (o : Option Setting) (c : Store) → IsStore c → IsStore (load_server_config lib o c)
  unfolding load_server_config
  load_server_config-IsStore o c h =
      when_some_keeps IsStore _ c _ h λ s _. record { devices = h.devices; users = h.users }

  load_root-IsStore : (r : Setting) (c : Store) → IsStore c → IsStore (load_root lib r c)
  unfolding load_root set_default_ports
  load_root-IsStore r c h =
      let h' =
        load_server_config-IsStore (lookup r "server") (set_default_ports lib c)
          (record { devices = h.devices; users = h.users }) in
      return_if_keeps IsStore _ _ _ h' λ _. return_if_keeps IsStore _ _ _ h' λ _.
        return_if_keeps IsStore _ _ _ h' λ _.
          for_list_keeps IsStore _ load_user_config-IsStore _ _
            (for_list_keeps IsStore _ load_device_config-IsStore _ _ h')

  pub load_config-IsStore :
      (config_dir : String) (root : Option Setting) (c : Store)
      → IsStore c
      → IsStore (load_config lib config_dir root c)
  unfolding load_config
  load_config-IsStore config_dir root c h =
      return_if_keeps IsStore _ c _ h
        λ _. when_some_keeps IsStore root c _ h λ r _. load_root-IsStore r c h

pub empty-IsStore : IsStore empty
unfolding empty find
empty-IsStore = record { devices = λ id d e. cc; users = λ name u e. cc }
