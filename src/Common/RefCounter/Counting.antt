-- ===== src/Common/RefCounter/Counting.antt =====
-- Common/RefCounter.h: the counter against the number of the objects that point to it.
use ip_cam_box.Prelude.{
  ℕ, nat_eq, nat_beq_iff, ◌≡◌, ◌<◌, ◌+◌, ◌-◌, ◌^◌, refl, Bool, true, false, ◌&&◌, Option, none,
  some, [], ◌∷◌, ok, arith, ltb, ◌==◌, if◌then◌else◌,
}
use ip_cam_box.Prelude.Assoc.{
  Assoc, find, emplace, erase, modify, find-modify, erase_absent, IsMap, emplace-IsMap, erase-IsMap,
  modify-IsMap,
}
use ip_cam_box.Common.RefCounter.{Counters, construct, copy, move, destroy}

abbrev pub one_if : Bool → ℕ
one_if true = 1
one_if false = 0

-- The objects that point to the counter.
unfoldable pub pointing : Assoc ℕ Bool → ℕ
pointing [] = 0
pointing ((id, points) ∷ rest) = one_if points + pointing rest

pointing-erase :
    (k : ℕ) (b : Bool) (m : Assoc ℕ Bool)
    → IsMap m
    → find k m ≡ some b
    → pointing (erase k m) + one_if b ≡ pointing m
unfolding pointing find erase
pointing-erase k b [] h p = ground (arith, p)
pointing-erase k b ((j, w) ∷ m) h p =
    ground (arith, nat_beq_iff j k, h.0, erase_absent k m, pointing-erase k b m h.1, p)

pointing-emplace :
    (k : ℕ) (b : Bool) (m : Assoc ℕ Bool)
    → find k m ≡ none
    → pointing (emplace k b m) ≡ pointing m + one_if b
unfolding pointing find emplace
pointing-emplace k b [] p = ground arith
pointing-emplace k b ((j, w) ∷ m) p = ground (arith, p, pointing-emplace k b m)

pointing-modify :
    (k : ℕ) (b : Bool) (m : Assoc ℕ Bool)
    → IsMap m
    → find k m ≡ some b
    → pointing (modify k (λ _. false) m) + one_if b ≡ pointing m
unfolding pointing find modify
pointing-modify k b [] h p = ground (arith, p)
pointing-modify k b ((j, w) ∷ m) h p =
    ground (arith, nat_beq_iff j k, h.0, pointing-modify k b m h.1, p)

-- What the counter is for a number of objects that point to it.
abbrev pub counter_of : ℕ → Option ℕ
counter_of n = if n == 0 then none else some (n - 1)

pub record IsCounted (c : Counters) : Type 0 where
  pub distinct : IsMap c.handles
  pub counted : c.counter ≡ counter_of (pointing c.handles)

pub construct-IsCounted : (id : ℕ) → IsCounted (construct id)
unfolding construct pointing find
construct-IsCounted id = record { distinct = (refl, tt); counted = refl }

find-pointing : (k : ℕ) (m : Assoc ℕ Bool) → find k m ≡ some true → 0 < pointing m
unfolding pointing find
find-pointing k [] p = ground (arith, p)
find-pointing k ((j, w) ∷ m) p = ground (arith, find-pointing k m, p)

module _ (c : Counters) (h : IsCounted c) where
  -- A copy of an object that points to the counter is one more such object, and the counter agrees,
  -- as long as fewer than 2 ^ 32 objects do; nobody is called.
  pub copy-IsCounted :
      (id other : ℕ)
      → find other c.handles ≡ some true
      → find id c.handles ≡ none
      → pointing c.handles < 2 ^ 32
      → (c' : Counters) × (copy id other c ≡ ok c')
        × IsCounted c'
        × (pointing c'.handles ≡ pointing c.handles + 1)
        × (c'.calls ≡ c.calls)
  unfolding copy
  copy-IsCounted id other points new bound =
      let some_left = find-pointing other c.handles points in
      let more = pointing-emplace id true c.handles new in
      (
        record c { handles = emplace id true c.handles; counter = some (pointing c.handles) },
        ground (arith, points, h.counted, some_left, bound),
        record {
          distinct = emplace-IsMap id true c.handles h.distinct;
          counted = ground (arith, more);
        },
        more,
        refl,
      )

  -- The destructor runs to its end: one object less points to the counter, which agrees and is
  -- deleted with the last one; `NoMoreRefs`, if there is one, is called exactly when the object was one
  -- of the last two.
  pub destroy-IsCounted :
      (no_more_refs : Bool) (id : ℕ) (points : Bool)
      → find id c.handles ≡ some points
      → (c' : Counters) × (destroy no_more_refs id c ≡ ok c')
        × IsCounted c'
        × (pointing c'.handles + one_if points ≡ pointing c.handles)
        × (c'.calls ≡ c.calls + one_if (no_more_refs && points && (pointing c.handles == 2)))
  unfolding destroy
  destroy-IsCounted no_more_refs id false found =
      let less = pointing-erase id false c.handles h.distinct found in
      (
        record c { handles = erase id c.handles },
        ground (arith, found),
        record {
          distinct = erase-IsMap id c.handles h.distinct;
          counted = ground (arith, less, h.counted);
        },
        less,
        ground arith,
      )
  destroy-IsCounted no_more_refs id true found =
      let less = pointing-erase id true c.handles h.distinct found in
      let n = pointing c.handles - 1 in
      (
        record {
          handles = erase id c.handles;
          counter = if ltb 0 n then some (n - 1) else none;
          calls = if no_more_refs && (n == 1) then c.calls + 1 else c.calls;
        },
        ground (arith, found, h.counted, less),
        record { distinct = erase-IsMap id c.handles h.distinct; counted = ground (arith, less) },
        less,
        ground (arith, less),
      )

  -- An object that is moved from passes its pointer on: as many objects point to the counter as
  -- before, and nobody is called.
  pub move-IsCounted :
      (id other : ℕ) (points : Bool)
      → find other c.handles ≡ some points
      → find id c.handles ≡ none
      → (c' : Counters) × (move id other c ≡ ok c')
        × IsCounted c'
        × (pointing c'.handles ≡ pointing c.handles)
        × (c'.calls ≡ c.calls)
  unfolding move
  move-IsCounted id other points found new =
      let left = modify other (λ _. false) c.handles in
      let less = pointing-modify other points c.handles h.distinct found in
      let more =
        pointing-emplace id points left
          (ground (arith, find-modify other id (λ _. false) c.handles, new)) in
      let same : pointing (emplace id points left) ≡ pointing c.handles =
        ground (arith, less, more) in
      (
        record c { handles = emplace id points left },
        ground (arith, found),
        record {
          distinct =
              emplace-IsMap id points left (modify-IsMap other (λ _. false) c.handles h.distinct);
          counted = ground (arith, same, h.counted);
        },
        same,
        refl,
      )
