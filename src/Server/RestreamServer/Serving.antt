-- ===== src/Server/RestreamServer/Serving.antt =====
-- Server/RestreamServer/Server.cpp: the thread of the restream server and its certificate. The library's
-- server is a parameter: whether it was made, which certificate it was given and whether it serves.
use ip_cam_box.Prelude.{
  String, string_eq, Bool, true, false, not, Option, none, some, List, [], ◌∷◌, ◌≡◌, refl, sym, ap,
  ◌∙◌, ◌||◌, ◌&&◌, Outcome, ok, fault, null_pointer, ◌>>=◌, is_empty, return_if, when_some,
  if◌then◌else◌, arith,
}

-- `thread` says whether `serverThread` was started, `certificate` is what the library's server, if it was
-- made, was given last.
pub record Serving : Type 0 where
  pub thread : Bool
  pub restream_server : Option (Option String)
  pub serves : Bool
  pub waiting : Bool

unfoldable pub construct : Serving
construct = record { thread = false; restream_server = none; serves = false; waiting = true }

-- `from_pem` says whether `g_tls_certificate_new_from_pem` makes a certificate of the text.
module _ (from_pem : String → Bool) where
  unfoldable pub update_certificate : String → Serving → Outcome (Bool × Serving)
  update_certificate certificate s = return_if (is_empty certificate) (ok (false, s)) (
      return_if (not (from_pem certificate)) (ok (false, s)) (
        when_some s.restream_server (fault null_pointer)
          (λ last. ok (true, record s { restream_server = some (some certificate) }))))

  -- The start of the thread's function, up to the loop of the library, with RESTREAMER_USE_TLS.
  unfoldable pub server_main : Bool → String → Serving → Outcome Serving
  server_main use_tls certificate s = do
    let made : Serving = record s { restream_server = some none }
    (updated, s') ← if use_tls then update_certificate certificate made else ok (true, made)
    ok (return_if (not updated) s' (record s' { serves = true }))

  -- A second call has no effect.
  unfoldable pub run_server : Bool → String → Serving → Outcome Serving
  run_server use_tls certificate s =
      return_if s.thread (ok s) (server_main use_tls certificate (record s { thread = true }))

  unfoldable pub on_update_timer : Bool → String → Serving → Outcome Serving
  on_update_timer error certificate s =
      return_if error (ok (record s { waiting = false }))
        (do (updated, s') ← update_certificate certificate s; ok (record s' { waiting = true }))

  abbrev pub renew : List String → Serving → Outcome Serving
  renew [] s = ok s
  renew (certificate ∷ certificates) s = on_update_timer false certificate s >>= renew certificates

  -- The certificate that the server has after these, if it had one of before.
  abbrev pub last_good : List String → Option String → Option String
  last_good [] kept = kept
  last_good (certificate ∷ certificates) kept = last_good certificates (
      if is_empty certificate
      then kept
      else if from_pem certificate
      then some certificate
      else kept)

  update-restream_server :
      (certificate : String) (s : Serving) (kept : Option String)
      → s.restream_server ≡ some kept
      → on_update_timer false certificate s
        ≡ ok (record s {
          waiting = true;
          restream_server = some (
              if is_empty certificate
              then kept
              else if from_pem certificate
              then some certificate
              else kept);
        })
  unfolding on_update_timer update_certificate return_if when_some
  update-restream_server certificate s kept made = ground (arith, made)

  renew-last_good :
      (certificates : List String) (s : Serving) (kept : Option String)
      → s.restream_server ≡ some kept
      → s.waiting ≡ true
      → renew certificates s
        ≡ ok (record s { restream_server = some (last_good certificates kept) })
  renew-last_good [] s kept made waits = ground (arith, made)
  renew-last_good (certificate ∷ certificates) s kept made waits =
      let now : Option String =
        if is_empty certificate
        then kept
        else if from_pem certificate
        then some certificate
        else kept in
      ap (λ o. o >>= renew certificates) (update-restream_server certificate s kept made)
      ∙ renew-last_good certificates (record s { waiting = true; restream_server = some now }) now
          refl refl
      ∙ ap (λ w. ok (record s { waiting = w; restream_server = some (last_good certificates now) }))
          (sym waits)

  -- The server after its start.
  abbrev started : Bool → String → Serving
  started use_tls first = record {
    thread = true;
    restream_server = some (if use_tls then last_good (first ∷ []) none else none);
    serves = not use_tls || (not (is_empty first) && from_pem first);
    waiting = true;
  }

  run_server-started :
      (use_tls : Bool) (first : String)
      → run_server use_tls first construct ≡ ok (started use_tls first)
  unfolding run_server server_main update_certificate construct return_if when_some
  run_server-started false first = refl
  run_server-started true first = ground arith

  -- The server is started and its certificate renewed any number of times: there is no fault, it has
  -- the last certificate that could be read, through all that could not, whether it serves was settled
  -- at the start, by the first certificate if TLS is used, whatever the later ones are, and another call
  -- of `runServer` has no effect.
  pub run_server-settles :
      (use_tls : Bool) (first : String) (certificates : List String)
      → (s : Serving) × ((run_server use_tls first construct >>= renew certificates) ≡ ok s)
        × (s.restream_server
            ≡ some (last_good certificates (if use_tls then last_good (first ∷ []) none else none)))
        × (s.serves ≡ (not use_tls || (not (is_empty first) && from_pem first)))
        × ((again : Bool) (certificate : String) → run_server again certificate s ≡ ok s)
  unfolding run_server return_if
  run_server-settles use_tls first certificates =
      let kept : Option String = if use_tls then last_good (first ∷ []) none else none in
      (
        record (started use_tls first) { restream_server = some (last_good certificates kept) },
        ap (λ o. o >>= renew certificates) (run_server-started use_tls first)
            ∙ renew-last_good certificates (started use_tls first) kept refl refl,
        refl,
        refl,
        λ again certificate. refl,
      )
