-- ===== src/DeviceBox/DropboxFolder/Shrink.antt =====
-- Which files `shrinkFolder` deletes.
use mathlib.Core.List.{append_assoc}
use ip_cam_box.Prelude.{
  ℕ, ◌+◌, ◌-◌, ◌≤◌, ◌<◌, ◌≡◌, refl, sym, ap, ◌∙◌, String, string_eq, Bool, false, List, [], ◌∷◌,
  ◌++◌, map, Outcome, ok, subst, is_nil, arith, ◌⊎◌, All, ltb, inl, inr, Bool-cases,
}
use ip_cam_box.DeviceBox.DropboxFolder.Index.{Item}
use ip_cam_box.DeviceBox.DropboxFolder.Index.Laws.{IsSorted, total, without_path, without_path_head}
use ip_cam_box.DeviceBox.DropboxFolder.Invariant.{IsFolder, erase_item-Erased}
use ip_cam_box.DeviceBox.DropboxFolder.{
  Folder, Entry, deleted, Request, delete_batch, u64, collect, shrink_folder, handle_entry,
  handle_entries,
}

abbrev pub paths : List Item → List String
paths = map (λ x. x.path)

-- A split of the index: what goes, the last of it apart, and what stays.
pub record Cut (need : ℕ) (index : List Item) (removed : List String) : Type 0 where
  pub early : List Item
  pub last : Item
  pub kept : List Item
  pub split : index ≡ early ++ last ∷ kept
  pub paths_removed : removed ≡ paths (early ++ last ∷ [])
  pub strictly : (total kept + need < total index) ⊎ (kept ≡ [])
  pub needed : total index ≤ total (last ∷ kept) + need

-- No item of the first list is newer than one of the second.
abbrev pub NoneNewer : List Item → List Item → Type 0
NoneNewer xs ys = All (λ x. All (λ y. x.modified_timestamp ≤ y.modified_timestamp) ys) xs

All_newer-append :
    (t : ℕ) (xs ys : List Item)
    → All (λ y. t ≤ y.modified_timestamp) (xs ++ ys)
    → All (λ y. t ≤ y.modified_timestamp) ys
All_newer-append t [] ys h = h
All_newer-append t (x ∷ xs) ys h = All_newer-append t xs ys h.1

IsSorted-NoneNewer :
    (early : List Item) (last : Item) (kept : List Item)
    → IsSorted (early ++ last ∷ kept)
    → NoneNewer (early ++ last ∷ []) kept
IsSorted-NoneNewer [] last kept s = (s.0, tt)
IsSorted-NoneNewer (x ∷ early) last kept s = (
  (All_newer-append x.modified_timestamp early (last ∷ kept) s.0).1,
  IsSorted-NoneNewer early last kept s.1,
)

one_item :
    (need : ℕ) (x : Item) (xs : List Item)
    → (total xs + need < total (x ∷ xs)) ⊎ (xs ≡ [])
    → Cut need (x ∷ xs) (x.path ∷ [])
one_item need x xs h = record {
  early = [];
  last = x;
  kept = xs;
  split = refl;
  paths_removed = refl;
  strictly = h;
  needed = omega arith;
}

collect-Cut :
    (need : ℕ) (x : Item) (xs : List Item)
    → need ≤ total (x ∷ xs)
    → Cut need (x ∷ xs) (collect need (x ∷ xs))
unfolding collect
collect-Cut need x [] le = elim (Bool-cases (ltb need x.size)) [
  | inl more ↦ rw more (one_item need x [] (inr refl))
  | inr less ↦ rw less (one_item need x [] (inr refl))
]
collect-Cut need x (y ∷ ys) le = elim (Bool-cases (ltb need x.size)) [
  | inl more ↦ rw more (one_item need x (y ∷ ys) (inl (ground arith)))
  | inr less ↦
      let c = collect-Cut (need - x.size) y ys (omega arith) in
      rw less (record {
        early = x ∷ c.early;
        last = c.last;
        kept = c.kept;
        split = ap (◌∷◌ x) c.split;
        paths_removed = ap (◌∷◌ x.path) c.paths_removed;
        strictly = ground (arith, c.strictly);
        needed = ground (arith, c.needed);
      })
]

is_nil-paths : (early : List Item) (last : Item) → is_nil (paths (early ++ last ∷ [])) ≡ false
is_nil-paths [] last = refl
is_nil-paths (x ∷ early) last = refl

index-Cut :
    (need : ℕ) (index : List Item)
    → 0 < total index
    → need ≤ total index
    → Cut need index (collect need index)
index-Cut need [] positive le = absurd (omega arith)
index-Cut need (x ∷ xs) positive le = collect-Cut need x xs le

-- A deletion of the oldest files that brings the sum of the sizes under the limit, and of no more.
pub record Shrinks (max_size : ℕ) (f : Folder) (requests : Outcome (List Request)) : Type 0 where
  pub early : List Item
  pub last : Item
  pub kept : List Item
  pub split : f.index ≡ early ++ last ∷ kept
  pub requested : requests ≡ ok (delete_batch (paths (early ++ last ∷ [])) ∷ [])
  pub below : total kept < max_size
  pub needed : max_size ≤ total (last ∷ kept)
  pub oldest : NoneNewer (early ++ last ∷ []) kept

Shrinks-Cut :
    (max_size : ℕ) (f : Folder) (removed : List String)
    → IsFolder f
    → total f.index ≡ f.folder_size
    → 0 < max_size
    → max_size ≤ f.folder_size
    → Cut (f.folder_size - max_size) f.index removed
    → Shrinks max_size f (ok (delete_batch removed ∷ []))
Shrinks-Cut max_size f removed v exact positive full c = record {
  early = c.early;
  last = c.last;
  kept = c.kept;
  split = c.split;
  requested = ap (λ r. ok (delete_batch r ∷ [])) c.paths_removed;
  below = ground (arith, c.strictly);
  needed = omega (arith, c.needed);
  oldest = IsSorted-NoneNewer c.early c.last c.kept (subst IsSorted c.split v.sorted);
}

is_nil-Cut :
    (need : ℕ) (index : List Item) (removed : List String)
    → Cut need index removed
    → is_nil removed ≡ false
is_nil-Cut need index removed c = rw c.paths_removed (is_nil-paths c.early c.last)

requested_paths :
    {xs ys : List String}
    → ◌≡◌ {A = Outcome (List Request)} (ok (delete_batch xs ∷ [])) (ok (delete_batch ys ∷ []))
    → xs ≡ ys
requested_paths e = cc

module _ (ndebug : Bool) where
  -- A folder that has reached a positive limit asks once for a deletion, in a debug build and in a
  -- release build. It names its oldest files: none is newer than a file that stays. What stays sums
  -- up to less than the limit, and with the newest of the deleted files kept the limit would still
  -- be reached. The sizes must sum up to less than 2 ^ 64.
  pub shrink_folder-Shrinks :
      (max_size : ℕ) (f : Folder)
      → IsFolder f
      → f.shutting_down ≡ false
      → total f.index < u64
      → 0 < max_size
      → max_size ≤ f.folder_size
      → Shrinks max_size f (shrink_folder ndebug max_size f)
  unfolding shrink_folder
  shrink_folder-Shrinks max_size f v running small positive full =
      let exact : total f.index ≡ f.folder_size = omega (arith, v.size) in
      let c = index-Cut (f.folder_size - max_size) f.index (omega arith) (omega arith) in
      let run : shrink_folder ndebug max_size f
          ≡ ok (delete_batch (collect (f.folder_size - max_size) f.index) ∷ []) =
        ground (arith, running, is_nil-Cut _ _ _ c) in
      rw run (Shrinks-Cut max_size f _ v exact positive full c)

  -- The entries by which Dropbox reports a deletion.
  abbrev pub deletions : List String → List Entry
  deletions = map deleted

  module _ (timestamp : String → ℕ) where
    deletions-kept :
        (gone kept : List Item) (f : Folder)
        → IsFolder f
        → f.shutting_down ≡ false
        → f.index ≡ gone ++ kept
        → (g : Folder) × (handle_entries ndebug timestamp (deletions (paths gone)) f ≡ ok g)
          × IsFolder g
          × (g.index ≡ kept)
    unfolding handle_entries handle_entry
    deletions-kept [] kept f v running e = (f, refl, v, e)
    deletions-kept (x ∷ gone) kept f v running e =
        let (g, erased, h) = erase_item-Erased ndebug x.path f v running in
        let rest : g.index ≡ gone ++ kept =
          h.index ∙ ap (without_path x.path) e ∙ without_path_head x (gone ++ kept) in
        let (k, all, valid, index) =
          deletions-kept gone kept g h.valid (h.running ∙ running) rest in
        (k, rw erased all, valid, index)

    -- Once Dropbox has reported the deletion that a full folder asked for, the recorded size of the
    -- folder is below the limit.
    pub shrink_folder-deletions :
        (max_size : ℕ) (f : Folder) (removed : List String)
        → IsFolder f
        → f.shutting_down ≡ false
        → total f.index < u64
        → 0 < max_size
        → max_size ≤ f.folder_size
        → shrink_folder ndebug max_size f ≡ ok (delete_batch removed ∷ [])
        → (g : Folder) × (handle_entries ndebug timestamp (deletions removed) f ≡ ok g)
          × (g.folder_size < max_size)
    shrink_folder-deletions max_size f removed v running small positive full asked =
        let s = shrink_folder-Shrinks max_size f v running small positive full in
        let same : removed ≡ paths (s.early ++ s.last ∷ []) =
          requested_paths (sym asked ∙ s.requested) in
        let split : f.index ≡ (s.early ++ s.last ∷ []) ++ s.kept =
          s.split ∙ sym (append_assoc s.early (s.last ∷ []) s.kept) in
        let (g, all, valid, index) =
          deletions-kept (s.early ++ s.last ∷ []) s.kept f v running split in
        (g, rw same all, ground (arith, valid.size, ap total index, s.below))
