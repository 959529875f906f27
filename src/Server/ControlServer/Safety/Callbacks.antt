-- ===== src/Server/ControlServer/Safety/Callbacks.antt =====
-- Server/ControlServer/ServerSession.cpp: the callbacks that leave the active sessions as they are.
use ip_cam_box.Prelude.{
  ℕ, ◌≡◌, refl, subst, ◌⊎◌, String, string_eq, Bool, true, false, Option, none, some, [], ◌∷◌,
  arith, is_some, is_empty, nat_eq, nat_beq_iff, Option-cases, Bool-cases, inl, inr, All,
  List-cases,
}
use ip_cam_box.Prelude.Assoc.{Assoc, find, find-emplace, find-modify}
use ip_cam_box.Server.Config.{SourceId}
use ip_cam_box.Server.ControlServer.Sessions.{StreamDst, enum_active_streams}
use ip_cam_box.Server.ControlServer.ServerSession.{
  Session, State, new_session, update_session, create, post, verify_client, on_timer, run_posted,
}
use ip_cam_box.Server.ControlServer.Links.{context_of, create-SameLinks, update_session-SameLinks}
use ip_cam_box.Server.ControlServer.Safety.{
  IsSafe, Safe, Safe-ok, HasContext, IsTask, Continues-IsSafe, All-append, tasks-keep,
  session_request_stream-Safe, retry_of,
}

-- A write to a session that keeps its links, and starts the timer only where there is a context.
pub update_session-IsSafe :
    (id : ℕ) (f : Session → Session) (st : State)
    → ((s : Session) → (f s).session_context ≡ s.session_context)
    → ((s : Session) → (f s).device_id ≡ s.device_id)
    → ((s : Session) → is_some (f s).retry ≡ true → (is_some s.retry ≡ true) ⊎ HasContext st id)
    → IsSafe st
    → IsSafe (update_session id f st)
update_session-IsSafe id f st keeps names retries h =
    Continues-IsSafe
      (record {
        same = update_session-SameLinks id f st keeps names;
        retried = λ j r. elim (Option-cases (find j st.live)) [
          | inl missing ↦ ground (arith, find-modify id j f st.live)
          | inr (s, present) ↦
              ground (arith, find-modify id j f st.live, nat_beq_iff id j, retries s)
        ];
        queued = h.tasks;
      })
      h

pub create-IsSafe :
    (id : ℕ) (st : State) → find id st.live ≡ none → IsSafe st → IsSafe (create id st)
unfolding create
create-IsSafe id st fresh h =
    Continues-IsSafe
      (record {
        same = create-SameLinks id st fresh;
        retried = λ j r. ground (arith, find-emplace id j new_session st.live, nat_beq_iff id j);
        queued = h.tasks;
      })
      h

-- A name is given to a session that has no context yet.
pub verify_client-IsSafe :
    (id : ℕ) (name : Option String) (st : State)
    → context_of st id ≡ none
    → IsSafe st
    → IsSafe (verify_client id name st).0
unfolding verify_client
verify_client-IsSafe id none st loose h = h
verify_client-IsSafe id (some name) st loose h = elim (Bool-cases (is_empty name)) [
  | inl empty ↦ rw empty h
  | inr full ↦
      let f = λ (s : Session). record s { device_id = name } in
      let same : (j : ℕ) → context_of (update_session id f st) j ≡ context_of st j = λ j.
        elim (Option-cases (find j st.live)) [
          | inl missing ↦ ground (arith, find-modify id j f st.live)
          | inr (s, present) ↦ ground (arith, find-modify id j f st.live)
        ] in
      rw full (record {
        links = record {
          held = λ j d p. ground (arith, same j, h.links.held j d);
          pointed = λ j d p. ground (arith, same j, h.links.pointed j d);
          named = λ j d p. ground (
            arith,
            same j,
            h.links.named j d,
            find-modify id j f st.live,
            nat_beq_iff id j,
            loose,
            full,
          );
        };
        retries = λ j r. elim (Option-cases (find j st.live)) [
          | inl missing ↦ ground (arith, find-modify id j f st.live)
          | inr (s, present) ↦
              ground (arith, same j, find-modify id j f st.live, nat_beq_iff id j, h.retries j)
        ];
        tasks =
            tasks-keep st (update_session id f st) st.posted (λ j has. ground (arith, same j, has))
              h.tasks;
      })
]

-- `onMessage` for a client that is ready posts a task for each of the active sources.
pub post_all-IsSafe :
    (id : ℕ) (active : Assoc SourceId StreamDst) (st : State)
    → HasContext st id
    → IsSafe st
    → IsSafe (enum_active_streams (λ source dst. post id source) active st)
unfolding enum_active_streams
post_all-IsSafe id [] st has h = h
post_all-IsSafe id ((source, dst) ∷ rest) st has h =
    post_all-IsSafe id rest (post id source st) has (record {
      links = record { held = h.links.held; pointed = h.links.pointed; named = h.links.named };
      retries = h.retries;
      tasks = All-append (IsTask st) st.posted (id, source) h.tasks has;
    })

-- The timer gives up its source and, unless it was cancelled, asks for the stream again.
pub on_timer-Safe :
    (id : ℕ) (cancelled : Bool) (st : State)
    → is_some (retry_of st id) ≡ true
    → IsSafe st
    → Safe (on_timer id cancelled st)
unfolding on_timer
on_timer-Safe id true st waits h = h
on_timer-Safe id false st waits h = elim (Option-cases (find id st.live)) [
  | inl gone ↦ ground (arith, gone)
  | inr (s, live) ↦ elim (Option-cases s.retry) [
    | inl idle ↦ ground (arith, live)
    | inr (source, retry) ↦
        let f = λ (s : Session). record s { retry = none } in
        let st' = update_session id f st in
        let safe : IsSafe st' =
          update_session-IsSafe id f st (λ s. refl) (λ s. refl) (λ s r. ground arith) h in
        let has : HasContext st' id = ground (
          arith,
          h.retries id waits,
          (update_session-SameLinks id f st (λ s. refl) (λ s. refl)).same_context id,
        ) in
        subst Safe (ground (arith, live, retry))
          (session_request_stream-Safe id source st' safe has)
  ]
]

pub run_posted-Safe : (st : State) → IsSafe st → Safe (run_posted st)
unfolding run_posted
run_posted-Safe st h = elim (List-cases st.posted) [
  | inl idle ↦ Safe-ok st (ground (arith, idle)) h
  | inr ((id, source), rest, next) ↦
      let st' = record st { posted = rest } in
      let tasks = subst (All (IsTask st)) next h.tasks in
      let safe : IsSafe st' = record {
        links = record { held = h.links.held; pointed = h.links.pointed; named = h.links.named };
        retries = h.retries;
        tasks = tasks.1;
      } in
      subst Safe (ground (arith, next)) (session_request_stream-Safe id source st' safe tasks.0)
]
