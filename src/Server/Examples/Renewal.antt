-- ===== src/Server/Examples/Renewal.antt =====
-- Server/ControlServer/Server.cpp and Server/RestreamServer/Server.cpp: renewals of the certificate of
-- which one fails.
use ip_cam_box.Prelude.{
  String, string_eq, Bool, true, false, ◌&&◌, some, [], ◌∷◌, ◌≡◌, refl, ◌==◌, ok, ◌>>=◌,
  if◌then◌else◌,
}
use ip_cam_box.Server.ControlServer.ServerSession.{State, create}
use ip_cam_box.Server.ControlServer.SecureContext.{
  Asio, construct_server, schedule_update_certificate, on_new_connection,
}
use ip_cam_box.Server.RestreamServer.Serving.{
  Serving, construct, run_server, renew as renew_tls, run_server-settles,
}
use ip_cam_box.Server.ControlServer.Renewal.{renew, renew-on_new_connection}

abbrev asio : Asio
asio = record {
  call_error = λ call. false;
  key_error = λ text. text == "";
  chain_error = λ text. false;
}

abbrev nobody : State
nobody = record { contexts = []; live = []; written = []; posted = [] }

renew-on_new_connection_example :
    (on_new_connection (renew asio ("b" ∷ "" ∷ "c" ∷ []) (construct_server asio true "a")) 1 nobody
      ≡ (if (construct_server asio true "a").valid && false then create 1 nobody else nobody))
    × ((renew asio ("b" ∷ "" ∷ "c" ∷ []) (construct_server asio true "a")).waiting ≡ true)
unfolding construct_server schedule_update_certificate
renew-on_new_connection_example =
    renew-on_new_connection asio ("b" ∷ "" ∷ "c" ∷ []) (construct_server asio true "a") 1 nobody
      refl

-- The restream server starts with a certificate that cannot be read.
run_server-settles_example :
    (s : Serving) × ((run_server (λ text. text == "good") true "bad" construct
        >>= renew_tls (λ text. text == "good") ("good" ∷ "bad" ∷ []))
      ≡ ok s)
    × (s.restream_server ≡ some (some "good"))
    × (s.serves ≡ false)
    × ((again : Bool) (certificate : String)
        → run_server (λ text. text == "good") again certificate s ≡ ok s)
run_server-settles_example =
    run_server-settles (λ text. text == "good") true "bad" ("good" ∷ "bad" ∷ [])
