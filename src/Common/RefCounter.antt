-- ===== src/Common/RefCounter.antt =====
-- Common/RefCounter.h: the counters that keep a shutdown waiting for the callbacks of an object.
pub mod Counting
pub mod Examples
use ip_cam_box.Prelude.{
  ℕ, nat_eq, ◌+◌, ◌-◌, ◌%◌, ◌^◌, Bool, true, false, ◌&&◌, Option, none, some, List, [], ◌∷◌,
  Outcome, ok, fault, null_pointer, ◌>>=◌, ltb, ◌==◌, if◌then◌else◌,
}
use ip_cam_box.Prelude.Assoc.{Assoc, find, emplace, erase, modify}

-- The `RefCounter` objects that were made of one pointer, by number, each with whether its `_counter`
-- still points to the common counter; the counter, `none` once it is deleted; and how often
-- `NoMoreRefs` was called.
pub record Counters : Type 0 where
  pub handles : Assoc ℕ Bool
  pub counter : Option ℕ
  pub calls : ℕ

-- A read through a pointer to a counter: it faults if the pointer is null or the counter deleted.
abbrev pub read : Option Bool → Option ℕ → Outcome ℕ
read (some true) (some n) = ok n
read _ _ = fault null_pointer

unfoldable pub construct : ℕ → Counters
construct id = record { handles = (id, true) ∷ []; counter = some 0; calls = 0 }

unfoldable pub copy : ℕ → ℕ → Counters → Outcome Counters
copy id other c = do
  n ← read (find other c.handles) c.counter
  ok (record c { handles = emplace id true c.handles; counter = some ((n + 1) % 2 ^ 32) })

-- The pointer, null or not, passes to the new object.
unfoldable pub move : ℕ → ℕ → Counters → Outcome Counters
move id other c = elim (find other c.handles) [
  | none ↦ fault null_pointer
  | some points ↦
      ok (record c { handles = emplace id points (modify other (λ _. false) c.handles) })
]

-- The two destructors, the derived class first. `no_more_refs` says whether the template has a
-- function.
unfoldable pub destroy : Bool → ℕ → Counters → Outcome Counters
destroy no_more_refs id c = elim (find id c.handles) [
  | none ↦ fault null_pointer
  | some false ↦ ok (record c { handles = erase id c.handles })
  | some true ↦ do
    n ← read (some true) c.counter
    ok (record {
      handles = erase id c.handles;
      counter = if ltb 0 n then some (n - 1) else none;
      calls = if no_more_refs && (n == 1) then c.calls + 1 else c.calls;
    })
]
