-- ===== src/DeviceBox/DropboxFolder/Contents.antt =====
-- The answers of the Dropbox API against the map from paths to items that they describe.
use ip_cam_box.Prelude.{
  ℕ, ◌<◌, ◌≡◌, refl, ap, ◌∙◌, String, string_eq, Bool, false, Option, none, some, List, [], ◌∷◌,
  Outcome, ok, arith, nat_eq, All, ◌==◌, if◌then◌else◌,
}
use ip_cam_box.Prelude.Assoc.{find}
use ip_cam_box.DeviceBox.DropboxFolder.Index.{Item}
use ip_cam_box.DeviceBox.DropboxFolder.Index.Laws.{is_sorted-IsSorted}
use ip_cam_box.DeviceBox.DropboxFolder.Invariant.{
  IsFolder, erase_item-Erased, erase_item-none, insert_item-Inserted,
}
use ip_cam_box.DeviceBox.DropboxFolder.{
  Folder, Entry, file, folder, deleted, other, Response, Request, continue_list_folder, wait_update,
  update_interval, u64, insert_item, update, handle_entry, handle_entries, handle_folder_response,
}

-- The sizes of an answer are `uint64_t`.
abbrev pub IsEntry : Entry → Type 0
IsEntry (file path modified size) = size < u64
IsEntry _ = Unit

module _ (timestamp : String → ℕ) where
  abbrev pub item_of : String → String → ℕ → Item
  item_of path modified size = record {
    path = path;
    modified_timestamp = timestamp modified;
    size = size;
  }

  -- What one entry, and then a list of them, makes of the item under a path.
  abbrev pub entry_view : String → Entry → Option Item → Option Item
  entry_view q (file path modified size) old =
      if path == q then some (item_of path modified size) else old
  entry_view q folder old = old
  entry_view q (deleted path) old = if path == q then none else old
  entry_view q other old = old

  abbrev pub latest : String → List Entry → Option Item → Option Item
  latest q [] old = old
  latest q (e ∷ es) old = latest q es (entry_view q e old)

  pub record Updated (es : List Entry) (f g : Folder) : Type 0 where
    pub valid : IsFolder g
    pub running : g.shutting_down ≡ false
    pub found : (q : String) → find q g.items ≡ latest q es (find q f.items)

  module _ (ndebug : Bool) where
    handle_entry-Updated :
        (e : Entry) (f : Folder)
        → IsEntry e
        → IsFolder f
        → f.shutting_down ≡ false
        → (g : Folder) × (handle_entry ndebug timestamp e f ≡ ok g) × Updated (e ∷ []) f g
    unfolding handle_entry
    handle_entry-Updated (file path modified size) f small v running =
        let (g, erased, h) = erase_item-Erased ndebug path f v running in
        let i =
          insert_item-Inserted (item_of path modified size) g h.valid small
            (erase_item-none ndebug path f g h) in
        (
          insert_item (item_of path modified size) g,
          rw erased,
          record {
            valid = i.valid;
            running = i.running ∙ h.running ∙ running;
            found = λ q. ground (arith, i.found q, h.found q);
          },
        )
    handle_entry-Updated (deleted path) f small v running =
        let (g, erased, h) = erase_item-Erased ndebug path f v running in
        (g, erased, record { valid = h.valid; running = h.running ∙ running; found = h.found })
    handle_entry-Updated _ f small v running =
        (f, refl, record { valid = v; running = running; found = λ q. refl })

    pub handle_entries-Updated :
        (es : List Entry) (f : Folder)
        → All IsEntry es
        → IsFolder f
        → f.shutting_down ≡ false
        → (g : Folder) × (handle_entries ndebug timestamp es f ≡ ok g) × Updated es f g
    unfolding handle_entries
    handle_entries-Updated [] f small v running =
        (f, refl, record { valid = v; running = running; found = λ q. refl })
    handle_entries-Updated (e ∷ es) f small v running =
        let (g, one, h) = handle_entry-Updated e f small.0 v running in
        let (k, all, h') = handle_entries-Updated es g small.1 h.valid h.running in
        (
          k,
          rw one all,
          record {
            valid = h'.valid;
            running = h'.running;
            found = λ q. h'.found q ∙ ap (latest q es) (h.found q);
          },
        )

    -- What is asked for after an answer.
    abbrev pub next_request : Response → List Request
    next_request doc =
        if doc.has_more
        then continue_list_folder doc.cursor ∷ []
        else wait_update update_interval doc.cursor ∷ []

    module _ (parse : String → Outcome Response) where
      -- A well-formed answer is handled to the end, in a debug build and in a release build: no
      -- assertion fails and no iterator is misused. The folder is well formed again, the item under
      -- each path is the one that the entries describe in their order, and the next request goes out.
      pub handle_folder_response-Updated :
          (response : String) (doc : Response) (f : Folder)
          → parse response ≡ ok doc
          → All IsEntry doc.entries
          → IsFolder f
          → f.shutting_down ≡ false
          → (g : Folder) × (handle_folder_response ndebug timestamp parse response f
              ≡ ok (g, next_request doc))
            × Updated doc.entries f g
      unfolding handle_folder_response update
      handle_folder_response-Updated response doc f parsed small v running =
          let (g, handled, h) = handle_entries-Updated doc.entries f small v running in
          (
            g,
            ground (
              arith,
              running,
              parsed,
              handled,
              is_sorted-IsSorted g.index h.valid.sorted,
              h.valid.count,
              h.running,
            ),
            h,
          )
