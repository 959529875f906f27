-- ===== src/Prelude/Assoc.antt =====
-- `std::map`, `std::unordered_map` and `std::set` as lists of keys with values, for the operations
-- that the program uses. A key stands once; the order of the list is that of an iteration.
use mathlib.Core.Option
use mathlib.Core.Option.{Option, none, some, some-injective, none-ne-some}
use mathlib.Core.Logic.{inl, inr}
use mathlib.Core.Path.{◌≡◌, refl, subst₂}
use mathlib.Core.List.{List, [], ◌∷◌}
use native.Mathlib.Omega.{arith}
use Prim.Native.Nat.{◌+◌}
use ip_cam_box.Prelude.Tests.{Eq, Bool-cases, Option-cases, ◌==◌, if◌then◌else◌}
use ip_cam_box.Prelude.Lists.{length}

abbrev pub Assoc {ℓ κ} : Type ℓ → Type κ → Type (ℓ ⊔ κ)
Assoc K V = List (K × V)

module _ {ℓ κ} {K : Type ℓ} {V : Type κ} ⦃e : Eq K⦄ where
  -- `find`, and what the iterator points to.
  unfoldable pub find : K → Assoc K V → Option V
  find k [] = none
  find k ((j, v) ∷ m) = if j == k then some v else find k m

  -- `emplace` and `insert`: no effect on a key that is there.
  unfoldable pub emplace : K → V → Assoc K V → Assoc K V
  emplace k v [] = (k, v) ∷ []
  emplace k v ((j, w) ∷ m) = if j == k then (j, w) ∷ m else (j, w) ∷ emplace k v m

  unfoldable pub erase : K → Assoc K V → Assoc K V
  erase k [] = []
  erase k ((j, v) ∷ m) = let rest = erase k m in if j == k then rest else (j, v) ∷ rest

  -- A write through the iterator, or the pointer, to the value of a key.
  unfoldable pub modify : K → (V → V) → Assoc K V → Assoc K V
  modify k f [] = []
  modify k f ((j, v) ∷ m) = if j == k then (j, f v) ∷ m else (j, v) ∷ modify k f m

  pub find-emplace :
      (k j : K) (v : V) (m : Assoc K V)
      → find j (emplace k v m) ≡ (if k == j then some (Option.get_or (find k m) v) else find j m)
  unfolding find emplace
  find-emplace k j v [] = ground arith
  find-emplace k j v ((i, w) ∷ m) =
      ground (arith, e.beq_iff k j, e.beq_iff i k, e.beq_iff i j, find-emplace k j v m)

  pub find-emplace_self :
      (k : K) (v : V) (m : Assoc K V) → find k m ≡ none → find k (emplace k v m) ≡ some v
  find-emplace_self k v m h = ground (arith, e.beq_iff k k, find-emplace k k v m)

  pub find-erase :
      (k j : K) (m : Assoc K V) → find j (erase k m) ≡ (if k == j then none else find j m)
  unfolding find erase
  find-erase k j [] = ground arith
  find-erase k j ((i, w) ∷ m) =
      ground (arith, e.beq_iff k j, e.beq_iff i k, e.beq_iff i j, find-erase k j m)

  pub find-modify :
      (k j : K) (f : V → V) (m : Assoc K V)
      → find j (modify k f m) ≡ (if k == j then Option.map f (find j m) else find j m)
  unfolding find modify
  find-modify k j f [] = ground arith
  find-modify k j f ((i, w) ∷ m) =
      ground (arith, e.beq_iff k j, e.beq_iff i k, e.beq_iff i j, find-modify k j f m)

-- The keys are distinct, as in every C++ map.
module _ {ℓ κ} {K : Type ℓ} {V : Type κ} ⦃e : Eq K⦄ where
  abbrev pub IsMap : Assoc K V → Type κ
  IsMap [] = Unit
  IsMap ((k, v) ∷ m) = (find k m ≡ none) × IsMap m

  pub emplace-IsMap : (k : K) (v : V) (m : Assoc K V) → IsMap m → IsMap (emplace k v m)
  unfolding find emplace
  emplace-IsMap k v [] h = (refl, tt)
  emplace-IsMap k v ((j, w) ∷ m) h =
      ground (arith, e.beq_iff j k, e.beq_iff k j, find-emplace k j v m, emplace-IsMap k v m h.1)

  pub erase-IsMap : (k : K) (m : Assoc K V) → IsMap m → IsMap (erase k m)
  unfolding erase
  erase-IsMap k [] h = tt
  erase-IsMap k ((j, w) ∷ m) h = ground (arith, find-erase k j m, erase-IsMap k m h.1)

  pub modify-IsMap : (k : K) (f : V → V) (m : Assoc K V) → IsMap m → IsMap (modify k f m)
  unfolding modify
  modify-IsMap k f [] h = tt
  modify-IsMap k f ((j, w) ∷ m) h = ground (arith, find-modify k j f m, modify-IsMap k f m h.1)

  pub erase_absent : (k : K) (m : Assoc K V) → find k m ≡ none → erase k m ≡ m
  unfolding find erase
  erase_absent k [] h = refl
  erase_absent k ((j, w) ∷ m) h = ground (arith, erase_absent k m)

  pub length-erase :
      (k : K) (v : V) (m : Assoc K V)
      → IsMap m
      → find k m ≡ some v
      → length (erase k m) + 1 ≡ length m
  unfolding find erase
  length-erase k v [] h p = cc
  length-erase k v ((j, w) ∷ m) h p =
      ground (arith, e.beq_iff j k, erase_absent k m, length-erase k v m h.1)

  pub length-emplace :
      (k : K) (v : V) (m : Assoc K V) → find k m ≡ none → length (emplace k v m) ≡ length m + 1
  unfolding find emplace
  length-emplace k v [] p = refl
  length-emplace k v ((j, w) ∷ m) p = ground (arith, length-emplace k v m)

pub ruleset assoc_laws = (find-emplace, find-erase, find-modify)

-- What holds of each value under its key is kept by the writes.
module _ {ℓ κ μ} {K : Type ℓ} {V : Type κ} ⦃e : Eq K⦄ (P : K → V → Type μ) where
  abbrev pub Holds : Assoc K V → Type (ℓ ⊔ κ ⊔ μ)
  Holds m = (j : K) (w : V) → find j m ≡ some w → P j w

  pub emplace-Holds : (k : K) (v : V) (m : Assoc K V) → P k v → Holds m → Holds (emplace k v m)
  emplace-Holds k v m h all j w found = elim (Bool-cases (k == j)) [
    | inl same ↦
        let p : k ≡ j = (e.beq_iff k j).0 same in
        elim (Option-cases (find k m)) [
          | inl absent ↦ subst₂ P p (some-injective v w (ground (arith, find-emplace k j v m))) h
          | inr (x, present) ↦ all j w (ground (arith, find-emplace k j v m))
        ]
    | inr other ↦ all j w (ground (arith, find-emplace k j v m))
  ]

  pub modify-Holds :
      (k : K) (f : V → V) (m : Assoc K V)
      → ((v : V) → find k m ≡ some v → P k v → P k (f v))
      → Holds m
      → Holds (modify k f m)
  modify-Holds k f m h all j w found = elim (Bool-cases (k == j)) [
    | inl same ↦
        let p : k ≡ j = (e.beq_iff k j).0 same in
        elim (Option-cases (find k m)) [
          | inl absent ↦ absurd (none-ne-some w (ground (arith, p, find-modify k j f m)))
          | inr (x, present) ↦
              subst₂ P p (some-injective (f x) w (ground (arith, find-modify k j f m)))
                (h x present (all k x present))
        ]
    | inr other ↦ all j w (ground (arith, find-modify k j f m))
  ]
