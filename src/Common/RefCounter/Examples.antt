-- ===== src/Common/RefCounter/Examples.antt =====
-- Runs of Common/RefCounter.h, and the theorems at them.
use ip_cam_box.Prelude.{nat_eq, ◌≡◌, ◌+◌, refl, true, ◌&&◌, some, [], ◌∷◌, ok, ◌>>=◌, ◌==◌}
use ip_cam_box.Prelude.Assoc.{find, emplace, erase}
use ip_cam_box.Common.RefCounter.{Counters, construct, copy, destroy}
use ip_cam_box.Common.RefCounter.Counting.{one_if, pointing, IsCounted, destroy-IsCounted}

-- The object that keeps a counter, and a copy that a callback holds.
abbrev two : Counters
two = record { handles = (0, true) ∷ (1, true) ∷ []; counter = some 1; calls = 0 }

two-IsCounted : IsCounted two
unfolding pointing find
two-IsCounted = record { distinct = (refl, (refl, tt)); counted = refl }

keep_and_release :
    (do c ← copy 1 0 (construct 0); destroy true 1 c) ≡ ok (record (construct 0) { calls = 1 })
unfolding construct copy destroy find emplace erase
keep_and_release = refl

destroy-IsCounted_example :
    (c' : Counters) × (destroy true 1 two ≡ ok c')
    × IsCounted c'
    × (pointing c'.handles + 1 ≡ pointing two.handles)
    × (c'.calls ≡ 0 + one_if (true && true && (pointing two.handles == 2)))
unfolding find
destroy-IsCounted_example = destroy-IsCounted two two-IsCounted true 1 true refl
