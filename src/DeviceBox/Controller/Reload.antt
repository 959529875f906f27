-- ===== src/DeviceBox/Controller/Reload.antt =====
-- DeviceBox/Controller.cpp: what the first configuration of a controller leaves.
use ip_cam_box.Prelude.{nat_eq, ◌==◌}
use ip_cam_box.Prelude.{
  if_keeps, ℕ, String, string_eq, ◌==◌, true, Option, List, [], ◌∷◌, ◌++◌, ◌≡◌, refl, sym, ap,
  subst,
}
use ip_cam_box.Prelude.Assoc.{Assoc, emplace}
use ip_cam_box.DeviceBox.Controller.{Controller, SourceHandlers, Post}
use ip_cam_box.DeviceBox.Controller.Shutdowns.{AllIdle}
use ip_cam_box.DeviceBox.DeviceConfig.{
  SourceConfig, DeviceConfig, load_config as load_device_config, clear, enum_sources,
}
use ip_cam_box.DeviceBox.Controller.{
  ClientConfig, callback, load, clear_config, finished, load_first, dropbox_reset, dropbox_token,
  start_handle_source, schedule_shrink_storage,
}

-- Starting the sources leaves the configuration and the posted tasks, and no source stops.
IsStarted : DeviceConfig → List Post → Controller → Type 0
IsStarted config posted c = (c.config ≡ config) × (c.posted ≡ posted) × AllIdle c.handlers

emplace-AllIdle :
    (source : String) (h : SourceHandlers) (handlers : Assoc String SourceHandlers)
    → h.pending ≡ []
    → AllIdle handlers
    → AllIdle (emplace source h handlers)
unfolding emplace
emplace-AllIdle source h [] idle all = (idle, tt)
emplace-AllIdle source h ((j, k) ∷ rest) idle all =
    if_keeps AllIdle (j == source) _ _ (λ same. all)
      (λ other. (all.0, emplace-AllIdle source h rest idle all.1))

start-IsStarted :
    (config : DeviceConfig) (posted : List Post) (source : SourceConfig) (c : Controller)
    → IsStarted config posted c
    → IsStarted config posted (start_handle_source source c)
unfolding start_handle_source schedule_shrink_storage IsStarted
start-IsStarted config posted source c h =
    let all =
      emplace-AllIdle source.id (record { config = source; pending = [] }) c.handlers refl h.2 in
    if_keeps (IsStarted config posted) (source.dropbox_max_storage == 0) _ _
      (λ none. (h.0, h.1, all)) (λ some_storage. (h.0, h.1, all))

enum-IsStarted :
    (config : DeviceConfig) (posted : List Post) (sources : Assoc String SourceConfig)
    (c : Controller)
    → IsStarted config posted c
    → IsStarted config posted
        (enum_sources (λ source d. (true, start_handle_source source d)) sources c)
unfolding enum_sources
enum-IsStarted config posted [] c h = h
enum-IsStarted config posted ((id, source) ∷ rest) c h =
    enum-IsStarted config posted rest (start_handle_source source c)
      (start-IsStarted config posted source c h)

-- The controller that loads the configuration in the end.
abbrev pub emptied : ClientConfig → ℕ → Controller → Controller
emptied new f d = record d {
  handlers = [];
  posted = [];
  config = clear d.config;
  asked = d.asked ++ (dropbox_reset (clear_config (load new f)) ∷ []);
}

pub load_first-IsStarted :
    (dir_make_tmp : ℕ → Option String) (new : ClientConfig) (f : ℕ) (d : Controller)
    → d.handlers ≡ []
    → d.posted ≡ []
    → ((load_first dir_make_tmp new f d).config
        ≡ load_device_config dir_make_tmp new.sources new.dropbox d.config)
      × ((load_first dir_make_tmp new f d).posted ≡ finished (callback f) ∷ [])
      × AllIdle (load_first dir_make_tmp new f d).handlers
unfolding load_first IsStarted
load_first-IsStarted dir_make_tmp new f d gone unposted =
    let config : DeviceConfig = load_device_config dir_make_tmp new.sources new.dropbox d.config in
    let told : Controller = record d {
      config = config;
      asked = d.asked ++ (dropbox_token config.dropbox_token ∷ []);
    } in
    let started =
      enum-IsStarted config [] config.sources told (refl, unposted, subst AllIdle (sym gone) tt) in
    (started.0, ap (λ ps. ps ++ (finished (callback f) ∷ [])) started.1, started.2)
