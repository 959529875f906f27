-- ===== src/DeviceBox/DropboxFolder/Index/Laws.antt =====
-- What the searches in `_index` find while it is sorted and has each path once.
use text.Mathlib.TextEquality.{eq_iff}
use ip_cam_box.Prelude.{
  ℕ, ◌+◌, ◌≤◌, ◌<◌, ◌≡◌, refl, String, string_eq, true, Option, none, some, List, [], ◌∷◌, ok,
  arith, length, All, ltb, ◌==◌, if◌then◌else◌, Bool-cases, inl, inr,
}
use ip_cam_box.DeviceBox.DropboxFolder.Index.{
  Item, lower_bound, upper_bound, find_path, erase_at, erase_from_index, is_sorted,
  insert_into_index,
}

-- The item of a path.
unfoldable pub by_path : String → List Item → Option Item
by_path p [] = none
by_path p (x ∷ xs) = if x.path == p then some x else by_path p xs

unfoldable pub without_path : String → List Item → List Item
without_path p [] = []
without_path p (x ∷ xs) = if x.path == p then xs else x ∷ without_path p xs

abbrev pub IsSorted : List Item → Type 0
IsSorted [] = Unit
IsSorted (x ∷ xs) = All (λ y. x.modified_timestamp ≤ y.modified_timestamp) xs × IsSorted xs

-- Each path stands once.
abbrev pub HasDistinctPaths : List Item → Type 0
HasDistinctPaths [] = Unit
HasDistinctPaths (x ∷ xs) = (by_path x.path xs ≡ none) × HasDistinctPaths xs

abbrev pub total : List Item → ℕ
total [] = 0
total (x ∷ xs) = x.size + total xs

All_newer-by_path :
    (t : ℕ) (p : String) (xs : List Item) {x : Item}
    → All (λ y. t ≤ y.modified_timestamp) xs
    → by_path p xs ≡ some x
    → t ≤ x.modified_timestamp
unfolding by_path
All_newer-by_path t p [] {x} h e = cc
All_newer-by_path t p (y ∷ ys) {x} h e = ground (arith, All_newer-by_path t p ys {x = x} h.1)

All_newer_mono :
    (t u : ℕ) (xs : List Item)
    → All (λ y. t ≤ y.modified_timestamp) xs
    → u ≤ t
    → All (λ y. u ≤ y.modified_timestamp) xs
All_newer_mono t u [] h le = tt
All_newer_mono t u (y ∷ ys) h le = (omega arith, All_newer_mono t u ys h.1 le)

-- Within the items of one timestamp the path is found, and erased.
erase_at-find_path :
    (p : String) (xs : List Item) (x : Item)
    → IsSorted xs
    → by_path p xs ≡ some x
    → All (λ y. x.modified_timestamp ≤ y.modified_timestamp) xs
    → erase_at (find_path p (upper_bound xs x.modified_timestamp) xs) xs ≡ ok (without_path p xs)
unfolding by_path without_path find_path upper_bound erase_at
erase_at-find_path p [] x s e h = cc
erase_at-find_path p (y ∷ ys) x s e h =
    ground (
      arith,
      All_newer-by_path y.modified_timestamp p ys {x = x} s.0,
      erase_at-find_path p ys x s.1,
    )

-- `eraseItem` takes exactly the item with the path out of a sorted index, without a fault.
pub erase_from_index-without_path :
    (p : String) (xs : List Item) (x : Item)
    → IsSorted xs
    → by_path p xs ≡ some x
    → erase_from_index p x.modified_timestamp xs ≡ ok (without_path p xs)
unfolding by_path without_path lower_bound erase_at erase_from_index
erase_from_index-without_path p [] x s e = cc
erase_from_index-without_path p (y ∷ ys) x s e =
    elim (Bool-cases (ltb y.modified_timestamp x.modified_timestamp)) [
      | inl before ↦ ground (arith, erase_from_index-without_path p ys x s.1)
      | inr reached ↦ ground (
        arith,
        All_newer-by_path y.modified_timestamp p ys {x = x} s.0,
        All_newer_mono y.modified_timestamp x.modified_timestamp ys,
        erase_at-find_path p (y ∷ ys) x s e,
      )
    ]

-- Erasing keeps the order and the distinctness, and takes away one size.
without_path-All_newer :
    (t : ℕ) (p : String) (xs : List Item)
    → All (λ y. t ≤ y.modified_timestamp) xs
    → All (λ y. t ≤ y.modified_timestamp) (without_path p xs)
unfolding without_path
without_path-All_newer t p [] h = tt
without_path-All_newer t p (y ∷ ys) h = ground (arith, without_path-All_newer t p ys h.1)

pub without_path-IsSorted :
    (p : String) (xs : List Item) → IsSorted xs → IsSorted (without_path p xs)
unfolding without_path
without_path-IsSorted p [] s = tt
without_path-IsSorted p (y ∷ ys) s =
    ground
      (arith, without_path-IsSorted p ys s.1, without_path-All_newer y.modified_timestamp p ys s.0)

pub by_path-without_path :
    (p q : String) (xs : List Item)
    → HasDistinctPaths xs
    → by_path q (without_path p xs) ≡ (if p == q then none else by_path q xs)
unfolding by_path without_path
by_path-without_path p q [] d = ground arith
by_path-without_path p q (y ∷ ys) d =
    ground (arith, eq_iff p q, eq_iff y.path p, eq_iff y.path q, by_path-without_path p q ys d.1)

pub without_path-HasDistinctPaths :
    (p : String) (xs : List Item) → HasDistinctPaths xs → HasDistinctPaths (without_path p xs)
unfolding without_path
without_path-HasDistinctPaths p [] d = tt
without_path-HasDistinctPaths p (y ∷ ys) d =
    ground (arith, by_path-without_path p y.path ys d.1, without_path-HasDistinctPaths p ys d.1)

pub total-without_path :
    (p : String) (xs : List Item) (x : Item)
    → by_path p xs ≡ some x
    → (total (without_path p xs) + x.size ≡ total xs) × (length (without_path p xs) + 1 ≡ length xs)
unfolding by_path without_path
total-without_path p [] x e = cc
total-without_path p (y ∷ ys) x e = ground (arith, total-without_path p ys x)

pub without_path_absent :
    (p : String) (xs : List Item) → by_path p xs ≡ none → without_path p xs ≡ xs
unfolding by_path without_path
without_path_absent p [] e = refl
without_path_absent p (y ∷ ys) e = ground (arith, without_path_absent p ys)

pub without_path_head : (x : Item) (xs : List Item) → without_path x.path (x ∷ xs) ≡ xs
unfolding without_path
without_path_head x xs = ground (arith, eq_iff x.path x.path)

-- Insertion.
insert_into_index-All_newer :
    (t : ℕ) (item : Item) (xs : List Item)
    → t ≤ item.modified_timestamp
    → All (λ y. t ≤ y.modified_timestamp) xs
    → All (λ y. t ≤ y.modified_timestamp) (insert_into_index item xs)
unfolding insert_into_index
insert_into_index-All_newer t item [] le h = (le, tt)
insert_into_index-All_newer t item (y ∷ ys) le h =
    ground (arith, insert_into_index-All_newer t item ys le h.1)

pub insert_into_index-IsSorted :
    (item : Item) (xs : List Item) → IsSorted xs → IsSorted (insert_into_index item xs)
unfolding insert_into_index
insert_into_index-IsSorted item [] s = (tt, tt)
insert_into_index-IsSorted item (y ∷ ys) s = ground (
  arith,
  insert_into_index-IsSorted item ys s.1,
  insert_into_index-All_newer y.modified_timestamp item ys,
  All_newer_mono y.modified_timestamp item.modified_timestamp ys s.0,
)

pub by_path-insert_into_index :
    (item : Item) (q : String) (xs : List Item)
    → by_path item.path xs ≡ none
    → by_path q (insert_into_index item xs) ≡ (if item.path == q then some item else by_path q xs)
unfolding by_path insert_into_index
by_path-insert_into_index item q [] d = refl
by_path-insert_into_index item q (y ∷ ys) d = ground (
  arith,
  eq_iff item.path q,
  eq_iff y.path item.path,
  eq_iff y.path q,
  by_path-insert_into_index item q ys,
)

pub insert_into_index-HasDistinctPaths :
    (item : Item) (xs : List Item)
    → by_path item.path xs ≡ none
    → HasDistinctPaths xs
    → HasDistinctPaths (insert_into_index item xs)
unfolding by_path insert_into_index
insert_into_index-HasDistinctPaths item [] d h = (refl, tt)
insert_into_index-HasDistinctPaths item (y ∷ ys) d h = ground (
  arith,
  eq_iff item.path y.path,
  eq_iff y.path item.path,
  by_path-insert_into_index item y.path ys,
  insert_into_index-HasDistinctPaths item ys,
)

pub total-insert_into_index :
    (item : Item) (xs : List Item)
    → (total (insert_into_index item xs) ≡ item.size + total xs)
      × (length (insert_into_index item xs) ≡ length xs + 1)
unfolding insert_into_index
total-insert_into_index item [] = (refl, refl)
total-insert_into_index item (y ∷ ys) = ground (arith, total-insert_into_index item ys)

-- The program's own test of the order.
pub is_sorted-IsSorted : (xs : List Item) → IsSorted xs → is_sorted xs ≡ true
unfolding is_sorted
is_sorted-IsSorted [] s = refl
is_sorted-IsSorted (x ∷ []) s = refl
is_sorted-IsSorted (x ∷ y ∷ xs) s = ground (arith, is_sorted-IsSorted (y ∷ xs) s.1)

-- Every size is below a bound.
abbrev pub HasSizes : ℕ → List Item → Type 0
HasSizes n = All (λ x. x.size < n)

pub without_path-HasSizes :
    (n : ℕ) (p : String) (xs : List Item) → HasSizes n xs → HasSizes n (without_path p xs)
unfolding without_path
without_path-HasSizes n p [] h = tt
without_path-HasSizes n p (y ∷ ys) h = ground (arith, without_path-HasSizes n p ys h.1)

pub insert_into_index-HasSizes :
    (n : ℕ) (item : Item) (xs : List Item)
    → item.size < n
    → HasSizes n xs
    → HasSizes n (insert_into_index item xs)
unfolding insert_into_index
insert_into_index-HasSizes n item [] lt h = (lt, tt)
insert_into_index-HasSizes n item (y ∷ ys) lt h =
    ground (arith, insert_into_index-HasSizes n item ys lt h.1)

pub by_path-HasSizes :
    (n : ℕ) (p : String) (xs : List Item) (x : Item)
    → HasSizes n xs
    → by_path p xs ≡ some x
    → x.size < n
unfolding by_path
by_path-HasSizes n p [] x h e = cc
by_path-HasSizes n p (y ∷ ys) x h e = ground (arith, by_path-HasSizes n p ys x h.1)
