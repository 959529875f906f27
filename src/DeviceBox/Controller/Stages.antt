-- ===== src/DeviceBox/Controller/Stages.antt =====
-- DeviceBox/Controller.cpp: the shutdowns that the members of the sources have to come.
use mathlib.Core.Option.{none-ne-some, some-injective}
use ip_cam_box.Prelude.{
  if_keeps, ℕ, ◌+◌, String, string_eq, ◌==◌, some, Bool-cases, List, [], ◌∷◌, ◌≡◌, refl, ap, subst,
  inl, inr, is_nil, arith,
}
use ip_cam_box.Prelude.Assoc.{Assoc, IsMap, find, erase, modify, erase_absent}
use ip_cam_box.DeviceBox.Controller.{
  SourceHandlers, AfterStop, Stage, splitter, dropbox_folder, streamer,
}

abbrev pub steps_of : Stage → ℕ
steps_of splitter = 3
steps_of dropbox_folder = 2
steps_of streamer = 1

abbrev pub left_of : List (Stage × AfterStop) → ℕ
left_of [] = 0
left_of ((stage, then_do) ∷ more) = steps_of stage

-- The shutdowns of members that are to come.
abbrev pub stages_left : Assoc String SourceHandlers → ℕ
stages_left [] = 0
stages_left ((source, h) ∷ rest) = left_of h.pending + stages_left rest

-- The source has one shutdown to come, with this continuation.
abbrev pub IsStopping : AfterStop → SourceHandlers → Type 0
IsStopping then_do h = (stage : Stage) × (h.pending ≡ (stage, then_do) ∷ [])

abbrev pub AllStopping : AfterStop → Assoc String SourceHandlers → Type 0
AllStopping then_do [] = Unit
AllStopping then_do ((source, h) ∷ rest) = IsStopping then_do h × AllStopping then_do rest

pub all-find :
    (then_do : AfterStop) (source : String) (h : SourceHandlers)
    (handlers : Assoc String SourceHandlers)
    → AllStopping then_do handlers
    → find source handlers ≡ some h
    → IsStopping then_do h
unfolding find
all-find then_do source h [] all found = absurd (none-ne-some h found)
all-find then_do source h ((j, k) ∷ rest) all found = elim (Bool-cases (j == source)) [
  | inl same ↦ subst (IsStopping then_do) (some-injective k h (ground (arith, same, found))) all.0
  | inr other ↦ all-find then_do source h rest all.1 (ground (arith, other, found))
]

pub all-erase :
    (then_do : AfterStop) (source : String) (handlers : Assoc String SourceHandlers)
    → AllStopping then_do handlers
    → AllStopping then_do (erase source handlers)
unfolding erase
all-erase then_do source [] all = tt
all-erase then_do source ((j, k) ∷ rest) all =
    if_keeps (AllStopping then_do) (j == source) _ _ (λ same. all-erase then_do source rest all.1)
      (λ other. (all.0, all-erase then_do source rest all.1))

pub all-modify :
    (then_do : AfterStop) (source : String) (stage : Stage) (handlers : Assoc String SourceHandlers)
    → AllStopping then_do handlers
    → AllStopping then_do
        (modify source (λ h. record h { pending = (stage, then_do) ∷ [] }) handlers)
unfolding modify
all-modify then_do source stage [] all = tt
all-modify then_do source stage ((j, k) ∷ rest) all =
    if_keeps (AllStopping then_do) (j == source) _ _ (λ same. ((stage, refl), all.1))
      (λ other. (all.0, all-modify then_do source stage rest all.1))

pub left-modify :
    (source : String) (pending : List (Stage × AfterStop)) (h : SourceHandlers)
    (handlers : Assoc String SourceHandlers)
    → find source handlers ≡ some h
    → stages_left (modify source (λ k. record k { pending = pending }) handlers) + left_of h.pending
      ≡ stages_left handlers + left_of pending
unfolding modify find
left-modify source pending h [] found = absurd (none-ne-some h found)
left-modify source pending h ((j, k) ∷ rest) found = elim (Bool-cases (j == source)) [
  | inl same ↦
      let here : k ≡ h = some-injective k h (ground (arith, same, found)) in
      let equal : left_of k.pending ≡ left_of h.pending = ap (λ x. left_of x.pending) here in
      ground (arith, same, equal)
  | inr other ↦ ground (arith, other, found, left-modify source pending h rest)
]

pub left-erase :
    (source : String) (h : SourceHandlers) (handlers : Assoc String SourceHandlers)
    → IsMap handlers
    → find source handlers ≡ some h
    → stages_left (erase source handlers) + left_of h.pending ≡ stages_left handlers
unfolding erase find
left-erase source h [] map found = absurd (none-ne-some h found)
left-erase source h ((j, k) ∷ rest) map found = elim (Bool-cases (j == source)) [
  | inl same ↦
      let here : k ≡ h = some-injective k h (ground (arith, same, found)) in
      let equal : left_of k.pending ≡ left_of h.pending = ap (λ x. left_of x.pending) here in
      ground (arith, same, equal, map.0, string_eq.beq_iff j source, erase_absent source rest)
  | inr other ↦ ground (arith, other, found, left-erase source h rest map.1)
]

pub modify-nil :
    (source : String) (f : SourceHandlers → SourceHandlers) (handlers : Assoc String SourceHandlers)
    → is_nil (modify source f handlers) ≡ is_nil handlers
unfolding modify
modify-nil source f [] = refl
modify-nil source f ((j, k) ∷ rest) = ground arith
