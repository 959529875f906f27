-- ===== src/DeviceBox/DropboxFolder/Invariant.antt =====
-- What holds of a folder between two answers of the Dropbox API.
use ip_cam_box.Prelude.{
  ℕ, ◌+◌, ◌-◌, ◌%◌, ◌<◌, ◌≡◌, refl, sym, ap, ◌∙◌, String, string_eq, Bool, false, none, some, ok,
  arith, length, ◌==◌, if◌then◌else◌, Option-cases, inl, inr,
}
use ip_cam_box.Prelude.Assoc.{
  find, emplace, erase, IsMap, find-emplace, find-emplace_self, find-erase, emplace-IsMap,
  erase-IsMap, length-erase, length-emplace,
}
use text.Mathlib.TextEquality.{eq_iff}
use ip_cam_box.DeviceBox.DropboxFolder.Index.{Item}
use ip_cam_box.DeviceBox.DropboxFolder.Index.Laws.{
  by_path, without_path, IsSorted, HasDistinctPaths, total, erase_from_index-without_path,
  without_path-IsSorted, by_path-without_path, without_path-HasDistinctPaths, total-without_path,
  insert_into_index-IsSorted, by_path-insert_into_index, insert_into_index-HasDistinctPaths,
  total-insert_into_index, HasSizes, without_path-HasSizes, without_path_absent,
  insert_into_index-HasSizes, by_path-HasSizes,
}
use ip_cam_box.DeviceBox.DropboxFolder.{Folder, u64, erase_item, insert_item}

pub record IsFolder (f : Folder) : Type 0 where
  pub sorted : IsSorted f.index
  pub distinct : HasDistinctPaths f.index
  pub keys : IsMap f.items
  pub agree : (p : String) → find p f.items ≡ by_path p f.index
  pub count : length f.items ≡ length f.index
  pub size : f.folder_size ≡ total f.index % u64
  pub sizes : HasSizes u64 f.index

-- Taking a size off the sum, modulo 2 ^ 64.
erased_size :
    (size s whole rest : ℕ)
    → size ≡ whole % u64
    → rest + s ≡ whole
    → s < u64
    → (size + u64 - s) % u64 ≡ rest % u64
erased_size size s whole rest e sum lt = omega arith

-- The folder after an item is erased.
pub record Erased (p : String) (f g : Folder) : Type 0 where
  pub valid : IsFolder g
  pub running : g.shutting_down ≡ f.shutting_down
  pub found : (q : String) → find q g.items ≡ (if p == q then none else find q f.items)
  pub index : g.index ≡ without_path p f.index

-- The folder after a new item is inserted.
pub record Inserted (item : Item) (f g : Folder) : Type 0 where
  pub valid : IsFolder g
  pub running : g.shutting_down ≡ f.shutting_down
  pub found : (q : String) → find q g.items ≡ (if item.path == q then some item else find q f.items)

inserted_size : (size s whole : ℕ) → size ≡ whole % u64 → (size + s) % u64 ≡ (s + whole) % u64
inserted_size size s whole e = omega arith

pub insert_item-Inserted :
    (item : Item) (f : Folder)
    → IsFolder f
    → item.size < u64
    → find item.path f.items ≡ none
    → Inserted item f (insert_item item f)
unfolding insert_item
insert_item-Inserted item f v small fresh =
    let absent : by_path item.path f.index ≡ none = sym (v.agree item.path) ∙ fresh in
    let sums = total-insert_into_index item f.index in
    let found : (q : String)
        → find q (emplace item.path item f.items)
          ≡ (if item.path == q then some item else find q f.items) =
      λ q. ground (arith, find-emplace item.path q item f.items) in
    rw (find-emplace_self item.path item f.items fresh, insert_item)
      (record {
        valid = record {
          sorted = insert_into_index-IsSorted item f.index v.sorted;
          distinct = insert_into_index-HasDistinctPaths item f.index absent v.distinct;
          keys = emplace-IsMap item.path item f.items v.keys;
          agree = λ q.
              ground (arith, found q, by_path-insert_into_index item q f.index absent, v.agree q);
          count = omega (arith, v.count, sums.1, length-emplace item.path item f.items fresh);
          size =
              inserted_size f.folder_size item.size (total f.index) v.size
              ∙ ap (λ n. n % u64) (sym sums.0);
          sizes = insert_into_index-HasSizes u64 item f.index small v.sizes;
        };
        running = refl;
        found = found;
      })

module _ (ndebug : Bool) where
  erase_item_found :
      (p : String) (f : Folder) (it : Item)
      → IsFolder f
      → f.shutting_down ≡ false
      → find p f.items ≡ some it
      → (g : Folder) × (erase_item ndebug p f ≡ ok g) × Erased p f g
  unfolding erase_item
  erase_item_found p f it v running e =
      let at : by_path p f.index ≡ some it = sym (v.agree p) ∙ e in
      let sums = total-without_path p f.index it at in
      (
        record f {
          folder_size = (f.folder_size + u64 - it.size) % u64;
          index = without_path p f.index;
          items = erase p f.items;
        },
        ground (arith, erase_from_index-without_path p f.index it v.sorted at),
        record {
          valid = record {
            sorted = without_path-IsSorted p f.index v.sorted;
            distinct = without_path-HasDistinctPaths p f.index v.distinct;
            keys = erase-IsMap p f.items v.keys;
            agree = λ q. ground (
              arith,
              find-erase p q f.items,
              by_path-without_path p q f.index v.distinct,
              v.agree q,
            );
            count = omega (arith, v.count, sums.1, length-erase p it f.items v.keys e);
            size =
                erased_size f.folder_size it.size (total f.index) _ v.size sums.0
                  (by_path-HasSizes u64 p f.index it v.sizes at);
            sizes = without_path-HasSizes u64 p f.index v.sizes;
          };
          running = refl;
          found = λ q. find-erase p q f.items;
          index = refl;
        },
      )

  pub erase_item-Erased :
      (p : String) (f : Folder)
      → IsFolder f
      → f.shutting_down ≡ false
      → (g : Folder) × (erase_item ndebug p f ≡ ok g) × Erased p f g
  unfolding erase_item
  erase_item-Erased p f v running = elim (Option-cases (find p f.items)) [
    | inl e ↦ (
      f,
      ground arith,
      record {
        valid = v;
        running = refl;
        found = λ q. ground (arith, eq_iff p q);
        index = sym (without_path_absent p f.index (sym (v.agree p) ∙ e));
      },
    )
    | inr (it, e) ↦ erase_item_found p f it v running e
  ]

  pub erase_item-none : (p : String) (f g : Folder) → Erased p f g → find p g.items ≡ none
  erase_item-none p f g h = ground (arith, h.found p, eq_iff p p)
