-- ===== src/Server/ControlServer/Safety/Attachment.antt =====
-- Server/ControlServer/ServerSession.cpp: a session takes a device and leaves it.
use text.Mathlib.TextEquality.{eq_iff}
use ip_cam_box.Prelude.{
  ℕ, ◌≡◌, refl, string_eq, Bool, true, false, ◌||◌, none, some, fault, null_pointer, assertion,
  List, [], ◌∷◌, arith, is_some, is_empty, nat_eq, nat_beq_iff, ◌==◌, if◌then◌else◌, Option-cases,
  inl, inr, All,
}
use ip_cam_box.Prelude.Assoc.{find, erase, modify, find-erase, find-modify}
use ip_cam_box.Server.Config.{DeviceId, SourceId, Config}
use ip_cam_box.Server.ControlServer.Sessions.{
  SessionContext, Contexts, authenticated, destroyed, get,
}
use ip_cam_box.Server.ControlServer.ServerSession.{
  Session, State, update_session, set_context, destroy, on_connected,
}
use ip_cam_box.Server.ControlServer.Links.{
  context_of, name_of, erase-IsLinked, Detaches-IsLinked, Attaches-IsLinked, IsLinked,
}
use ip_cam_box.Server.ControlServer.Safety.{IsSafe, Safe, Safe-ok, IsTask, tasks-keep}
use ip_cam_box.Server.ControlServer.Safety.Devices.{get-IsSafe, get-kept}

tasks-erase :
    (id : ℕ) (st : State) (cs : Contexts) (xs : List (ℕ × SourceId))
    → All (λ p. (id == p.0) ≡ false) xs
    → All (IsTask st) xs
    → All (IsTask (record st { contexts = cs; live = erase id st.live })) xs
tasks-erase id st cs [] done h = tt
tasks-erase id st cs ((j, source) ∷ xs) (other, done) (has, h) =
    (ground (arith, find-erase id j st.live, other, has), tasks-erase id st cs xs done h)

-- A session is gone whose tasks are done.
erased-IsSafe :
    (id : ℕ) (st : State) (cs : Contexts)
    → All (λ p. (id == p.0) ≡ false) st.posted
    → IsLinked (record st { contexts = cs; live = erase id st.live })
    → IsSafe st
    → IsSafe (record st { contexts = cs; live = erase id st.live })
erased-IsSafe id st cs done linked h = record {
  links = linked;
  retries = λ j r. ground (arith, find-erase id j st.live, nat_beq_iff id j, h.retries j);
  tasks = tasks-erase id st cs st.posted done h.tasks;
}

-- A session without a context takes a device that has no session.
pub attach-IsSafe :
    (id : ℕ) (f : Session → Session) (d : DeviceId) (c c' : SessionContext) (st : State)
    → is_some (find id st.live) ≡ true
    → context_of st id ≡ none
    → is_empty (name_of st id) ≡ false
    → find d st.contexts ≡ some c
    → c.active_session ≡ none
    → c'.active_session ≡ some id
    → ((s : Session) → (f s).session_context ≡ some d)
    → ((s : Session) → (f s).device_id ≡ s.device_id)
    → ((s : Session) → (f s).retry ≡ s.retry)
    → IsSafe st
    → IsSafe (update_session id f (set_context d c' st))
attach-IsSafe id f d c c' st exists loose verified kept free owns points names retries h =
    let st' = update_session id f (set_context d c' st) in
    let pointers : (j : ℕ) → context_of st' j ≡ (if id == j then some d else context_of st j) = λ j.
      elim (Option-cases (find j st.live)) [
        | inl missing ↦ ground (arith, find-modify id j f st.live, nat_beq_iff id j, exists)
        | inr (s, present) ↦ ground (arith, find-modify id j f st.live, points s)
      ] in
    record {
      links =
          Attaches-IsLinked
            (record {
              holders = λ e.
                  ground (arith, find-modify d e (λ _. c') st.contexts, eq_iff d e, kept, owns);
              contexts = pointers;
              names = λ j. elim (Option-cases (find j st.live)) [
                | inl missing ↦ ground (arith, find-modify id j f st.live)
                | inr (s, present) ↦ ground (arith, find-modify id j f st.live, names s)
              ];
            })
            loose (ground (arith, kept, free)) verified h.links;
      retries = λ j r. elim (Option-cases (find j st.live)) [
        | inl missing ↦ ground (arith, find-modify id j f st.live)
        | inr (s, present) ↦
            ground (arith, find-modify id j f st.live, pointers j, retries s, h.retries j)
      ];
      tasks = tasks-keep st st' st.posted (λ j has. ground (arith, pointers j, has)) h.tasks;
    }

module _ (ndebug : Bool) where
  -- A session may go if it has no name or has taken a device, and none of its tasks waits.
  pub destroy-Safe :
      (id : ℕ) (st : State)
      → is_some (find id st.live) ≡ true
      → (is_empty (name_of st id) || is_some (context_of st id)) ≡ true
      → All (λ p. (id == p.0) ≡ false) st.posted
      → IsSafe st
      → Safe (destroy ndebug id st)
  unfolding destroy destroyed
  destroy-Safe id st exists honest done h = elim (Option-cases (find id st.live)) [
    | inl gone ↦ ground (arith, gone)
    | inr (s, live) ↦ elim (Option-cases s.session_context) [
      | inl loose ↦
          let own : context_of st id ≡ none = ground (arith, live, loose) in
          Safe-ok (record st { live = erase id st.live }) (ground (arith, live, loose, honest))
            (erased-IsSafe id st st.contexts done (erase-IsLinked id st own h.links) h)
      | inr (d, points) ↦ elim (Option-cases (find d st.contexts)) [
        | inl lost ↦ ground (arith, live, points, h.links.held id d)
        | inr (c, kept) ↦
            let own : context_of st id ≡ some d = ground (arith, live, points) in
            let held : c.active_session ≡ some id = ground (arith, kept, h.links.held id d own) in
            let c' = record c { active_session = none } in
            let cs = modify d (λ _. c') st.contexts in
            Safe-ok (record st { contexts = cs; live = erase id st.live })
              (ground (arith, live, points, kept, held, h.links.named id d own))
              (erased-IsSafe id st cs done
                (Detaches-IsLinked
                  (record {
                    holders =
                        λ e. ground (arith, find-modify d e (λ _. c') st.contexts, eq_iff d e);
                    contexts = λ j. ground (arith, find-erase id j st.live);
                    names = λ j. ground (arith, find-erase id j st.live);
                  })
                  own h.links)
                h)
      ]
    ]
  ]

  -- A session that has a name and no context fails when it goes.
  pub destroy_fails :
      (id : ℕ) (st : State)
      → is_some (find id st.live) ≡ true
      → (is_empty (name_of st id) || is_some (context_of st id)) ≡ false
      → destroy ndebug id st ≡ fault (if ndebug then null_pointer else assertion)
  unfolding destroy
  destroy_fails id st exists caught = elim (Option-cases (find id st.live)) [
    | inl gone ↦ ground (arith, gone)
    | inr (s, live) ↦ elim (Option-cases s.session_context) [
      | inl loose ↦ ground (arith, live, loose, caught)
      | inr (d, points) ↦ ground (arith, live, points, caught)
    ]
  ]

  pub on_connected-Safe :
      (config : Config) (id : ℕ) (failed : Bool) (st : State)
      → is_some (find id st.live) ≡ true
      → context_of st id ≡ none
      → is_empty (name_of st id) ≡ false
      → IsSafe st
      → Safe (on_connected config ndebug id failed st)
  unfolding on_connected authenticated
  on_connected-Safe config id true st exists loose verified h = h
  on_connected-Safe config id false st exists loose verified h =
      elim (Option-cases (find id st.live)) [
        | inl gone ↦ ground (arith, gone)
        | inr (s, live) ↦ elim (Option-cases (config.find_device s.device_id)) [
          | inl unknown ↦ Safe-ok st (ground (arith, live, unknown)) h
          | inr (device, known) ↦
              let d = s.device_id in
              let st1 = record st { contexts = get d st.contexts } in
              let safe = get-IsSafe d st h in
              elim (Option-cases (find d st1.contexts)) [
                | inl lost ↦ ground (arith, lost, get-kept d st.contexts)
                | inr (c, kept) ↦ elim (Option-cases c.active_session) [
                  | inr (other, busy) ↦ Safe-ok st1 (ground (arith, live, known, kept, busy)) safe
                  | inl free ↦
                      let f = λ (s' : Session). record s' {
                        device = device;
                        session_context = some d;
                        reading = true;
                      } in
                      let c' = record c { active_session = some id } in
                      Safe-ok (update_session id f (set_context d c' st1))
                        (ground (arith, live, known, kept, free))
                        (attach-IsSafe id f d c c' st1 exists loose verified kept free refl
                          (λ s. refl) (λ s. refl) (λ s. refl) safe)
                ]
              ]
        ]
      ]
