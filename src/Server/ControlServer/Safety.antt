-- ===== src/Server/ControlServer/Safety.antt =====
-- Server/ControlServer: what holds of the control server between two callbacks.
pub mod Callbacks
pub mod Messages
pub mod Devices
pub mod Attachment
use mathlib.Core.Option
use text.Mathlib.TextEquality.{eq_iff}
use ip_cam_box.Prelude.{
  ℕ, ◌≡◌, refl, sym, subst, ◌∙◌, ◌⊎◌, String, string_eq, Bool, true, false, Option, none, some,
  List, [], ◌∷◌, ◌++◌, Outcome, ok, fault, ◌>>=◌, ◌>>◌, arith, is_some, is_empty, nat_eq,
  nat_beq_iff, ◌==◌, if◌then◌else◌, Option-cases, Bool-cases, inl, inr, All,
}
use ip_cam_box.Prelude.Assoc.{
  Assoc, find, emplace, erase, modify, find-emplace, find-erase, find-modify,
}
use ip_cam_box.Server.Config.{DeviceId, SourceId}
use ip_cam_box.Server.ControlServer.Sessions.{SessionContext, get, should_stream}
use ip_cam_box.Server.ControlServer.Protocol.{ServerMessage, request_stream, stop_stream}
use ip_cam_box.Server.ControlServer.ServerSession.{
  Session, State, new_session, update_session, set_context, create, write, post, deref,
  session_request_stream, session_stop_stream,
}
use ip_cam_box.Server.ControlServer.Links.{
  holder, context_of, name_of, IsLinked, SameLinks, SameLinks-IsLinked, SameLinks-refl,
  get-SameLinks, set_context-SameLinks, create-SameLinks, update_session-SameLinks,
}

abbrev pub retry_pointer : Option Session → Option SourceId
retry_pointer none = none
retry_pointer (some s) = s.retry

-- The source for which the timer of a session runs.
abbrev pub retry_of : State → ℕ → Option SourceId
retry_of st id = retry_pointer (find id st.live)

abbrev pub HasContext : State → ℕ → Type 0
HasContext st id = is_some (context_of st id) ≡ true

-- A posted task calls a session that has a context.
abbrev pub IsTask : State → ℕ × SourceId → Type 0
IsTask st (id, source) = HasContext st id

pub record IsSafe (st : State) : Type 0 where
  pub links : IsLinked st
  pub retries : (id : ℕ) → is_some (retry_of st id) ≡ true → HasContext st id
  pub tasks : All (IsTask st) st.posted

-- No session gains or loses a context, a timer is started by one that has one, and the tasks that
-- wait do.
pub record Continues (st st' : State) : Type 0 where
  pub same : SameLinks st st'
  pub retried :
      (id : ℕ)
      → is_some (retry_of st' id) ≡ true
      → (is_some (retry_of st id) ≡ true) ⊎ HasContext st id
  pub queued : All (IsTask st) st'.posted

All-map :
    {A : Type 0} (P Q : A → Type 0) (f : (a : A) → P a → Q a) (xs : List A) → All P xs → All Q xs
All-map P Q f [] h = h
All-map P Q f (x ∷ xs) (h, k) = (f x h, All-map P Q f xs k)

pub All-append :
    {A : Type 0} (P : A → Type 0) (xs : List A) (y : A) → All P xs → P y → All P (xs ++ y ∷ [])
All-append P [] y h k = (k, tt)
All-append P (x ∷ xs) y (h, hs) k = (h, All-append P xs y hs k)

-- Tasks stay tasks where no session loses its context.
pub tasks-keep :
    (st st' : State) (xs : List (ℕ × SourceId))
    → ((id : ℕ) → HasContext st id → HasContext st' id)
    → All (IsTask st) xs
    → All (IsTask st') xs
tasks-keep st st' xs f h = All-map (IsTask st) (IsTask st') (λ p. f p.0) xs h

pub Continues-IsSafe : {st st' : State} → Continues st st' → IsSafe st → IsSafe st'
Continues-IsSafe {st} {st'} c h = record {
  links = SameLinks-IsLinked c.same h.links;
  retries = λ id r. elim (c.retried id r) [
    | inl before ↦ ground (arith, c.same.same_context id, h.retries id before)
    | inr has ↦ ground (arith, c.same.same_context id, has)
  ];
  tasks =
      tasks-keep st st' st'.posted (λ id has. ground (arith, c.same.same_context id, has)) c.queued;
}

pub IsSafe-Continues : {st : State} → IsSafe st → Continues st st
IsSafe-Continues {st} h = record {
  same = SameLinks-refl st;
  retried = λ id r. inl r;
  queued = h.tasks;
}

-- A callback that runs to its end, without a fault, and leaves the server safe.
abbrev pub Safe : Outcome State → Type 0
Safe (ok st) = IsSafe st
Safe (fault e) = ⊥

pub write-IsSafe : (id : ℕ) (m : ServerMessage) (st : State) → IsSafe st → IsSafe (write id m st)
write-IsSafe id m st h =
    Continues-IsSafe
      (record {
        same = record { same_holder = λ d. refl; same_context = λ j. refl; same_name = λ j. refl };
        retried = λ j r. inl r;
        queued = h.tasks;
      })
      h

pub Safe-ok : {m : Outcome State} (st : State) → m ≡ ok st → IsSafe st → Safe m
Safe-ok st e h = subst Safe (sym e) h

pub session_request_stream-Safe :
    (id : ℕ) (source : SourceId) (st : State)
    → IsSafe st
    → HasContext st id
    → Safe (session_request_stream id source st)
unfolding session_request_stream
session_request_stream-Safe id source st h has = elim (Option-cases (find id st.live)) [
  | inl gone ↦ ground (arith, gone)
  | inr (s, live) ↦ elim (Option-cases s.session_context) [
    | inl loose ↦ ground (arith, live)
    | inr (d, points) ↦ elim (Option-cases (find d st.contexts)) [
      | inl lost ↦ ground (arith, live, h.links.held id d)
      | inr (c, kept) ↦ elim (Option-cases (should_stream source c)) [
        | inl idle ↦ Safe-ok st (ground (arith, live, points, kept, idle)) h
        | inr (dst, active) ↦
            Safe-ok (write id (request_stream source dst) st)
              (ground (arith, live, points, kept, active)) (write-IsSafe id _ st h)
      ]
    ]
  ]
]

pub session_stop_stream-Safe :
    (id : ℕ) (source : SourceId) (st : State)
    → IsSafe st
    → HasContext st id
    → Safe (session_stop_stream id source st)
unfolding session_stop_stream
session_stop_stream-Safe id source st h has = elim (Option-cases (find id st.live)) [
  | inl gone ↦ ground (arith, gone)
  | inr (s, live) ↦
      Safe-ok (write id (stop_stream source) st) (ground (arith, live)) (write-IsSafe id _ st h)
]
