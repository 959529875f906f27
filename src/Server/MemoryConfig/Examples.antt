-- ===== src/Server/MemoryConfig/Examples.antt =====
-- Server/Config/MemoryConfig.cpp: the configuration with some keys.
use ip_cam_box.Prelude.{string_eq, ◌||◌, ◌&&◌, ◌≡◌, ◌==◌}
use ip_cam_box.Server.Config.{DeviceId, SourceId, UserName, IsConsistent}
use ip_cam_box.Server.MemoryConfig.{Keys, construct, config}
use ip_cam_box.Server.MemoryConfig.Contents.{construct-answers}

abbrev keys : Keys
keys = record {
  test_client_certificate = "client";
  server_certificate = "server";
  server_key = "key";
  server_full_chain = "chain";
}

construct-answers_example :
    IsConsistent (config (construct keys (λ n. "8090")))
    × ((device : DeviceId) (source : SourceId)
        → (config (construct keys (λ n. "8090"))).has_device_source device source
          ≡ (("device1" == device) && (("bars" == source) || ("dlink931" == source))))
    × ((user : UserName) (source : SourceId)
        → (config (construct keys (λ n. "8090"))).has_user_source user source
          ≡ (("" == user) && (("bars" == source) || ("dlink931" == source))))
construct-answers_example = construct-answers keys (λ n. "8090")
