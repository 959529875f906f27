-- ===== src/Server/ControlServer/Renewal.antt =====
-- Server/ControlServer/Server.cpp: what the renewals of the certificate do to the connections.
use ip_cam_box.Prelude.{
  ℕ, String, Bool, true, false, not, ◌&&◌, List, [], ◌∷◌, ◌≡◌, refl, arith, return_if,
  if◌then◌else◌,
}
use ip_cam_box.Server.ControlServer.ServerSession.{State, create}
use ip_cam_box.Server.ControlServer.SecureContext.{
  Context, Asio, update_certificate, on_update_timer, on_new_connection,
  schedule_update_certificate,
}

module _ (asio : Asio) where
  -- The context can use both parts of the text.
  abbrev pub loads : String → Bool
  loads certificate = not (asio.key_error certificate) && not (asio.chain_error certificate)

  abbrev pub all_load : List String → Bool
  all_load [] = true
  all_load (certificate ∷ certificates) = loads certificate && all_load certificates

  -- One renewal after the other, with the certificate at each.
  abbrev pub renew : List String → Context → Context
  renew [] c = c
  renew (certificate ∷ certificates) c =
      renew certificates (on_update_timer asio false certificate c)

  on_update_timer-valid :
      (certificate : String) (c : Context)
      → ((on_update_timer asio false certificate c).valid ≡ (c.valid && loads certificate))
        × ((on_update_timer asio false certificate c).waiting ≡ true)
  unfolding on_update_timer update_certificate schedule_update_certificate return_if
  on_update_timer-valid certificate c = (ground arith, refl)

  renew-valid :
      (certificates : List String) (c : Context)
      → (renew certificates c).valid ≡ (c.valid && all_load certificates)
  renew-valid [] c = ground arith
  renew-valid (certificate ∷ certificates) c = ground (
    arith,
    renew-valid certificates (on_update_timer asio false certificate c),
    (on_update_timer-valid certificate c).0,
  )

  renew-waiting :
      (certificates : List String) (c : Context)
      → c.waiting ≡ true
      → (renew certificates c).waiting ≡ true
  renew-waiting [] c h = h
  renew-waiting (certificate ∷ certificates) c h =
      renew-waiting certificates (on_update_timer asio false certificate c)
        (on_update_timer-valid certificate c).1

  -- After any renewals of the certificate a connection makes a session exactly if the context was valid
  -- and every certificate since could be loaded: after one that could not, no connection does, whatever
  -- the later ones are, and the renewals go on.
  pub renew-on_new_connection :
      (certificates : List String) (c : Context) (id : ℕ) (st : State)
      → c.waiting ≡ true
      → (on_new_connection (renew certificates c) id st
          ≡ (if c.valid && all_load certificates then create id st else st))
        × ((renew certificates c).waiting ≡ true)
  unfolding on_new_connection return_if
  renew-on_new_connection certificates c id st waits =
      (ground (arith, renew-valid certificates c), renew-waiting certificates c waits)
