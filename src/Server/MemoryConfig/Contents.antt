-- ===== src/Server/MemoryConfig/Contents.antt =====
-- Server/Config/MemoryConfig.cpp: what the built-in configuration answers.
use ip_cam_box.Prelude.{
  ℕ, String, string_eq, ◌||◌, ◌&&◌, [], ◌≡◌, refl, is_some, ◌==◌, arith, Bool-cases, inl, inr,
}
use ip_cam_box.Prelude.Assoc.{
  find, emplace, modify, emplace-Holds, modify-Holds, emplace-IsMap, modify-IsMap,
}
use ip_cam_box.Server.Config.{DeviceId, SourceId, UserName, IsConsistent}
use ip_cam_box.Server.FileConfig.{DeviceEntry, UserEntry, new_device, new_user, new_source}
use ip_cam_box.Server.FileConfig.Consistency.{
  IsDevice, IsUser, IsStore, empty-IsStore, new_device-IsDevice, new_user-IsUser,
}
use ip_cam_box.Server.FileConfig.Lookup.{config-IsConsistent}
use ip_cam_box.Server.FileConfig
use ip_cam_box.Server.FileConfig.Load.{empty}
use ip_cam_box.Server.MemoryConfig.{
  Keys, construct, config, find_device, find_device_source, device_sources, find_user,
  find_user_source, set_source, add_source, add_play_source, first_device, anonymous, add_device,
  add_user,
}

set_source-IsDevice :
    (d : DeviceId) (id uri : String) (e : DeviceEntry)
    → IsDevice d e
    → IsDevice d (set_source id uri (add_source id e))
unfolding add_source FileConfig.add_source
set_source-IsDevice d id uri e h = record {
  same_id = h.same_id;
  source_ids =
      modify-Holds _ id (λ source. record source { uri = uri; dropbox_max_storage = 0 })
        (emplace id (new_source id) e.sources) (λ v _ p. p)
        (emplace-Holds _ id (new_source id) e.sources refl h.source_ids);
  distinct =
      modify-IsMap id (λ source. record source { uri = uri; dropbox_max_storage = 0 })
        (emplace id (new_source id) e.sources)
        (emplace-IsMap id (new_source id) e.sources h.distinct);
}

first_device-IsDevice :
    (keys : Keys) (uri : String) (e : DeviceEntry)
    → IsDevice "device1" e
    → IsDevice "device1" (first_device keys uri e)
unfolding first_device
first_device-IsDevice keys uri e h =
    let certified : DeviceEntry = record e {
      device = record e.device { certificate = keys.test_client_certificate };
    } in
    set_source-IsDevice "device1" "dlink931" "http://172.27.39.11/h264.flv"
      (set_source "bars" uri (add_source "bars" certified))
      (set_source-IsDevice "device1" "bars" uri certified
        (record { same_id = h.same_id; source_ids = h.source_ids; distinct = h.distinct }))

anonymous-IsUser : (u : UserEntry) → IsUser "" u → IsUser "" (anonymous u)
unfolding anonymous add_play_source FileConfig.add_play_source
anonymous-IsUser u h = record {
  same_name = h.same_name;
  source_ids =
      emplace-Holds _ "dlink931" _ (emplace "bars" _ u.play_sources) refl
        (emplace-Holds _ "bars" _ u.play_sources refl h.source_ids);
}

construct-IsStore : (keys : Keys) (to_text : ℕ → String) → IsStore (construct keys to_text)
unfolding construct empty add_device add_user FileConfig.add_device FileConfig.add_user
construct-IsStore keys to_text = record {
  devices =
      modify-Holds IsDevice "device1" (first_device keys _)
        (emplace "device1" (new_device "device1") []) (λ d _ v. first_device-IsDevice keys _ d v)
        (emplace-Holds IsDevice "device1" (new_device "device1") [] (new_device-IsDevice "device1")
          empty-IsStore.devices);
  users =
      modify-Holds IsUser "" anonymous (emplace "" (new_user "") []) (λ u _ v. anonymous-IsUser u v)
        (emplace-Holds IsUser "" (new_user "") [] (new_user-IsUser "") empty-IsStore.users);
}

device_answers :
    (keys : Keys) (to_text : ℕ → String) (device : DeviceId) (source : SourceId)
    → is_some (find_device_source (construct keys to_text) device source)
      ≡ (("device1" == device) && (("bars" == source) || ("dlink931" == source)))
unfolding find_device_source FileConfig.find_device_source FileConfig.find_source find emplace
    modify construct empty add_device add_user FileConfig.add_device FileConfig.add_user
    first_device add_source FileConfig.add_source
device_answers keys to_text device source = elim (Bool-cases ("device1" == device)) [
  | inl same ↦ ground (arith, same)
  | inr other ↦ ground (arith, other)
]

user_answers :
    (keys : Keys) (to_text : ℕ → String) (user : UserName) (source : SourceId)
    → is_some (find_user_source (construct keys to_text) user source)
      ≡ (("" == user) && (("bars" == source) || ("dlink931" == source)))
unfolding find_user_source FileConfig.find_user_source FileConfig.find_play_source find emplace
    modify construct empty add_device add_user FileConfig.add_device FileConfig.add_user anonymous
    add_play_source FileConfig.add_play_source
user_answers keys to_text user source = elim (Bool-cases ("" == user)) [
  | inl same ↦ ground (arith, same)
  | inr other ↦ ground (arith, other)
]

-- The built-in configuration answers every lookup consistently; it has the sources "bars" and "dlink931"
-- of "device1", which the anonymous user may play, and no other source and no other right.
pub construct-answers :
    (keys : Keys) (to_text : ℕ → String)
    → IsConsistent (config (construct keys to_text))
      × ((device : DeviceId) (source : SourceId)
          → (config (construct keys to_text)).has_device_source device source
            ≡ (("device1" == device) && (("bars" == source) || ("dlink931" == source))))
      × ((user : UserName) (source : SourceId)
          → (config (construct keys to_text)).has_user_source user source
            ≡ (("" == user) && (("bars" == source) || ("dlink931" == source))))
unfolding find_device find_device_source device_sources find_user find_user_source
construct-answers keys to_text = (
  config-IsConsistent (construct keys to_text) (construct-IsStore keys to_text),
  device_answers keys to_text,
  user_answers keys to_text,
)
