-- ===== src/DeviceBox/DropboxFolder/Index.antt =====
-- The deque `_index` of DeviceBox/DropboxFolder.h: pointers to the items, by rising timestamp.
-- A pointer stands for the constant item that it points to; a position is an iterator's distance
-- from `begin()`. `lower_bound` and `upper_bound` are those of <algorithm> on a sorted range.
pub mod Laws
use ip_cam_box.Prelude.{
  ℕ, zero, suc, ◌+◌, String, string_eq, Bool, true, not, ◌&&◌, List, [], ◌∷◌, Outcome, ok, fault,
  out_of_range, ltb, ◌==◌, if◌then◌else◌,
}

pub record Item : Type 0 where
  pub path : String
  pub modified_timestamp : ℕ
  pub size : ℕ

-- `ItemsLessByTimestamp`, at two items.
abbrev pub older : Item → Item → Bool
older x y = ltb x.modified_timestamp y.modified_timestamp

-- The first position whose item is not older than `t`.
pub lower_bound : List Item → ℕ → ℕ
lower_bound [] t = 0
lower_bound (x ∷ xs) t = if ltb x.modified_timestamp t then suc (lower_bound xs t) else 0

-- The first position whose item is newer than `t`.
pub upper_bound : List Item → ℕ → ℕ
upper_bound [] t = 0
upper_bound (x ∷ xs) t = if ltb t x.modified_timestamp then 0 else suc (upper_bound xs t)

-- `find_if` for a path on the first `n` items; `n` if none has it.
find_path : String → ℕ → List Item → ℕ
find_path p zero xs = zero
find_path p (suc n) [] = zero
find_path p (suc n) (x ∷ xs) = if x.path == p then 0 else suc (find_path p n xs)

abbrev drop : ℕ → List Item → List Item
drop zero xs = xs
drop (suc n) [] = []
drop (suc n) (x ∷ xs) = drop n xs

-- `deque::erase`, undefined at `end()`.
erase_at : ℕ → List Item → Outcome (List Item)
erase_at n [] = fault out_of_range
erase_at zero (x ∷ xs) = ok xs
erase_at (suc n) (x ∷ xs) = elim (erase_at n xs) [ ok ys ↦ ok (x ∷ ys) | fault e ↦ fault e ]

-- `deque::insert` before a position.
insert_at : ℕ → Item → List Item → List Item
insert_at zero item xs = item ∷ xs
insert_at (suc n) item [] = item ∷ []
insert_at (suc n) item (x ∷ xs) = x ∷ insert_at n item xs

-- The search of `eraseItem` for a path among the items of one timestamp, and the erasure.
unfoldable pub erase_from_index : String → ℕ → List Item → Outcome (List Item)
unfolding lower_bound upper_bound find_path erase_at
erase_from_index p old_timestamp index =
    let lower = lower_bound index old_timestamp in
    let range = drop lower index in
    erase_at (lower + find_path p (upper_bound range old_timestamp) range) index

-- The insertion of `handleFolderResponse`.
unfoldable pub insert_into_index : Item → List Item → List Item
unfolding upper_bound insert_at
insert_into_index item index = insert_at (upper_bound index item.modified_timestamp) item index

-- `std::is_sorted` by `ItemsLessByTimestamp`.
unfoldable pub is_sorted : List Item → Bool
is_sorted [] = true
is_sorted (x ∷ []) = true
is_sorted (x ∷ y ∷ xs) = not (older y x) && is_sorted (y ∷ xs)
