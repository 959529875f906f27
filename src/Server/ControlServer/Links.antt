-- ===== src/Server/ControlServer/Links.antt =====
-- The links between the sessions and the contexts of the devices, and what each operation does to
-- them.
use text.Mathlib.TextEquality.{eq_iff}
use ip_cam_box.Prelude.{
  ℕ, ◌≡◌, refl, sym, ◌∙◌, string_eq, false, Option, none, some, arith, is_empty, nat_eq,
  nat_beq_iff, ◌==◌, if◌then◌else◌, Option-cases, inl, inr,
}
use ip_cam_box.Prelude.Assoc.{find, erase, find-emplace, find-erase, find-modify}
use ip_cam_box.Server.Config.{DeviceId}
use ip_cam_box.Server.ControlServer.Sessions.{SessionContext, new_context, get}
use ip_cam_box.Server.ControlServer.ServerSession.{
  Session, State, new_session, update_session, set_context, create,
}

abbrev pub active : Option SessionContext → Option ℕ
active none = none
active (some c) = c.active_session

abbrev pub context_pointer : Option Session → Option DeviceId
context_pointer none = none
context_pointer (some s) = s.session_context

abbrev pub device_name : Option Session → DeviceId
device_name none = ""
device_name (some s) = s.device_id

-- The session that holds a device, and the device whose context a session points to.
abbrev pub holder : State → DeviceId → Option ℕ
holder st d = active (find d st.contexts)

abbrev pub context_of : State → ℕ → Option DeviceId
context_of st id = context_pointer (find id st.live)

abbrev pub name_of : State → ℕ → DeviceId
name_of st id = device_name (find id st.live)

-- A session points to the context of a device exactly if that context has it as the active session;
-- it then has a device identifier.
pub record IsLinked (st : State) : Type 0 where
  pub held : (id : ℕ) (d : DeviceId) → context_of st id ≡ some d → holder st d ≡ some id
  pub pointed : (id : ℕ) (d : DeviceId) → holder st d ≡ some id → context_of st id ≡ some d
  pub named : (id : ℕ) (d : DeviceId) → context_of st id ≡ some d → is_empty (name_of st id) ≡ false

-- Nothing that `IsLinked` speaks of differs.
pub record SameLinks (st st' : State) : Type 0 where
  pub same_holder : (d : DeviceId) → holder st' d ≡ holder st d
  pub same_context : (id : ℕ) → context_of st' id ≡ context_of st id
  pub same_name : (id : ℕ) → name_of st' id ≡ name_of st id

pub SameLinks-IsLinked : {st st' : State} → SameLinks st st' → IsLinked st → IsLinked st'
SameLinks-IsLinked s h = record {
  held = λ id d e. s.same_holder d ∙ h.held id d (sym (s.same_context id) ∙ e);
  pointed = λ id d e. s.same_context id ∙ h.pointed id d (sym (s.same_holder d) ∙ e);
  named = λ id d e. ground (arith, s.same_name id, h.named id d (sym (s.same_context id) ∙ e));
}

pub SameLinks-refl : (st : State) → SameLinks st st
SameLinks-refl st = record {
  same_holder = λ d. refl;
  same_context = λ id. refl;
  same_name = λ id. refl;
}

pub SameLinks-trans : {a b c : State} → SameLinks a b → SameLinks b c → SameLinks a c
SameLinks-trans s t = record {
  same_holder = λ d. t.same_holder d ∙ s.same_holder d;
  same_context = λ id. t.same_context id ∙ s.same_context id;
  same_name = λ id. t.same_name id ∙ s.same_name id;
}

-- A write to a session that keeps its pointer and its name.
pub update_session-SameLinks :
    (id : ℕ) (f : Session → Session) (st : State)
    → ((s : Session) → (f s).session_context ≡ s.session_context)
    → ((s : Session) → (f s).device_id ≡ s.device_id)
    → SameLinks st (update_session id f st)
update_session-SameLinks id f st keeps names = record {
  same_holder = λ d. refl;
  same_context = λ j. elim (Option-cases (find j st.live)) [
    | inl missing ↦ ground (arith, find-modify id j f st.live)
    | inr (s, present) ↦ ground (arith, find-modify id j f st.live, keeps s)
  ];
  same_name = λ j. elim (Option-cases (find j st.live)) [
    | inl missing ↦ ground (arith, find-modify id j f st.live)
    | inr (s, present) ↦ ground (arith, find-modify id j f st.live, names s)
  ];
}

pub get-SameLinks :
    (d : DeviceId) (st : State) → SameLinks st (record st { contexts = get d st.contexts })
unfolding get
get-SameLinks d st = record {
  same_holder = λ e. ground (arith, find-emplace d e new_context st.contexts, eq_iff d e);
  same_context = λ id. refl;
  same_name = λ id. refl;
}

-- A write to a context that keeps its active session.
pub set_context-SameLinks :
    (d : DeviceId) (c : SessionContext) (st : State)
    → holder st d ≡ c.active_session
    → SameLinks st (set_context d c st)
set_context-SameLinks d c st same = record {
  same_holder = λ e. ground (arith, find-modify d e (λ _. c) st.contexts, eq_iff d e);
  same_context = λ id. refl;
  same_name = λ id. refl;
}

pub create-SameLinks : (id : ℕ) (st : State) → find id st.live ≡ none → SameLinks st (create id st)
unfolding create
create-SameLinks id st fresh = record {
  same_holder = λ d. refl;
  same_context = λ j. ground (arith, find-emplace id j new_session st.live, nat_beq_iff id j);
  same_name = λ j. ground (arith, find-emplace id j new_session st.live, nat_beq_iff id j);
}

-- A session takes a free device.
pub record Attaches (id : ℕ) (d : DeviceId) (st st' : State) : Type 0 where
  pub holders : (e : DeviceId) → holder st' e ≡ (if d == e then some id else holder st e)
  pub contexts : (j : ℕ) → context_of st' j ≡ (if id == j then some d else context_of st j)
  pub names : (j : ℕ) → name_of st' j ≡ name_of st j

pub Attaches-IsLinked :
    {id : ℕ} {d : DeviceId} {st st' : State}
    → Attaches id d st st'
    → context_of st id ≡ none
    → holder st d ≡ none
    → is_empty (name_of st id) ≡ false
    → IsLinked st
    → IsLinked st'
Attaches-IsLinked {id} {d} {st} a loose free named h = record {
  held = λ j e p.
      ground
        (arith, a.holders e, a.contexts j, eq_iff d e, nat_beq_iff id j, h.held j e, loose, free);
  pointed = λ j e p.
      ground (
        arith,
        a.holders e,
        a.contexts j,
        eq_iff d e,
        nat_beq_iff id j,
        h.pointed j e,
        loose,
        free,
      );
  named = λ j e p. ground (arith, a.contexts j, a.names j, nat_beq_iff id j, h.named j e, named);
}

-- A session is gone, and its device free.
pub record Detaches (id : ℕ) (d : DeviceId) (st st' : State) : Type 0 where
  pub holders : (e : DeviceId) → holder st' e ≡ (if d == e then none else holder st e)
  pub contexts : (j : ℕ) → context_of st' j ≡ (if id == j then none else context_of st j)
  pub names : (j : ℕ) → name_of st' j ≡ (if id == j then "" else name_of st j)

pub Detaches-IsLinked :
    {id : ℕ} {d : DeviceId} {st st' : State}
    → Detaches id d st st'
    → context_of st id ≡ some d
    → IsLinked st
    → IsLinked st'
Detaches-IsLinked {id} {d} {st} a owner h = record {
  held = λ j e p. ground (
    arith,
    a.holders e,
    a.contexts j,
    eq_iff d e,
    nat_beq_iff id j,
    h.held j e,
    h.held id d owner,
  );
  pointed = λ j e p.
      ground (arith, a.holders e, a.contexts j, eq_iff d e, nat_beq_iff id j, h.pointed j e, owner);
  named = λ j e p. ground (arith, a.contexts j, a.names j, nat_beq_iff id j, h.named j e);
}

-- A session without a context is gone.
pub erase-IsLinked :
    (id : ℕ) (st : State)
    → context_of st id ≡ none
    → IsLinked st
    → IsLinked (record st { live = erase id st.live })
erase-IsLinked id st loose h = record {
  held = λ j e p. ground (arith, find-erase id j st.live, nat_beq_iff id j, h.held j e);
  pointed = λ j e p. ground (arith, find-erase id j st.live, nat_beq_iff id j, h.pointed j e);
  named = λ j e p. ground (arith, find-erase id j st.live, nat_beq_iff id j, h.named j e);
}
