-- ===== src/DeviceBox/DropboxFolder.antt =====
-- DeviceBox/DropboxFolder.h and .cpp: the device's view of a folder of the Dropbox account, its
-- updates from the answers of the Dropbox API, and the choice of the files to delete.
pub mod Index
pub mod Invariant
pub mod Contents
pub mod Shrink
mod Examples
use ip_cam_box.Prelude.{
  ℕ, ◌+◌, ◌-◌, ◌%◌, ◌^◌, String, string_eq, Bool, true, false, not, ◌||◌, Option, none, some, List,
  [], ◌∷◌, Outcome, ok, ◌>>=◌, ◌>>◌, check, nat_eq, ◌==◌, ltb, leb, length, is_nil, if◌then◌else◌,
}
use ip_cam_box.Prelude.Assoc.{Assoc, find, emplace, erase}
use Index.{Item, erase_from_index, insert_into_index, is_sorted}

pub record Folder : Type 0 where
  pub shutting_down : Bool
  pub items : Assoc String Item
  pub index : List Item
  pub folder_size : ℕ  -- uint64_t

-- What an operation asks of the Dropbox connection and of the timer.
pub data Request : Type 0 where
  list_folder : String → Bool → Request
  continue_list_folder : String → Request
  delete_batch : List String → Request
  wait_update : ℕ → String → Request

-- An entry of an answer, by its `.tag`; `server_modified` is still text.
pub data Entry : Type 0 where
  file : String → String → ℕ → Entry
  folder : Entry
  deleted : String → Entry
  other : Entry

pub record Response : Type 0 where
  pub entries : List Entry
  pub cursor : String
  pub has_more : Bool

abbrev pub u64 : ℕ
u64 = 2 ^ 64

abbrev pub update_interval : ℕ
update_interval = 5

pub init : Folder
init = record { shutting_down = false; items = []; index = []; folder_size = 0 }

-- What `emplace` leaves under the path is what the index points to.
pub insert_item : Item → Folder → Folder
insert_item new_item f =
    let items = emplace new_item.path new_item f.items in
    elim (find new_item.path items) [
      | none ↦ f
      | some inserted ↦ record f {
        items = items;
        index = insert_into_index inserted f.index;
        folder_size = (f.folder_size + new_item.size) % u64;
      }
    ]

pub update : String → Folder → Folder × List Request
update cursor f = if f.shutting_down then (f, []) else (f, continue_list_folder cursor ∷ [])

-- The loop of `shrinkFolder`: the paths for deletion, oldest first.
pub collect : ℕ → List Item → List String
collect remove_size [] = []
collect remove_size (item ∷ index) =
    let rest = collect (remove_size - item.size) index in
    item.path ∷ (if ltb remove_size item.size then [] else rest)

-- `ndebug` is true in a release build, where `assert` does nothing.
module _ (ndebug : Bool) where
  -- `eraseItem`: of the item only the path is used.
  pub erase_item : String → Folder → Outcome Folder
  erase_item path f = do
    check ndebug (not f.shutting_down)
    elim (find path f.items) [
      | none ↦ ok f
      | some it ↦ do
        index ← erase_from_index path it.modified_timestamp f.index
        ok (record f {
          folder_size = (f.folder_size + u64 - it.size) % u64;
          index = index;
          items = erase path f.items;
        })
    ]

  pub start_sync : String → Folder → Outcome (Folder × List Request)
  start_sync path f = do check ndebug (not f.shutting_down); ok (f, list_folder path true ∷ [])

  -- `strptime` and `mktime`.
  module _ (timestamp : String → ℕ) where
    pub handle_entry : Entry → Folder → Outcome Folder
    unfolding insert_item
    handle_entry (file path modified size) f = do
      f' ← erase_item path f
      ok (
          insert_item (record { path = path; modified_timestamp = timestamp modified; size = size })
            f')
    handle_entry folder f = ok f
    handle_entry (deleted path) f = erase_item path f
    handle_entry other f = ok f

    pub handle_entries : List Entry → Folder → Outcome Folder
    handle_entries [] f = ok f
    handle_entries (e ∷ es) f = do f' ← handle_entry e f; handle_entries es f'

    -- rapidjson, which may stop at its own assertions.
    module _ (parse : String → Outcome Response) where
      pub handle_folder_response : String → Folder → Outcome (Folder × List Request)
      handle_folder_response response f = do
        check ndebug (not f.shutting_down)
        doc ← parse response
        f' ← handle_entries doc.entries f
        check ndebug (is_sorted f'.index)
        check ndebug (length f'.items == length f'.index)
        ok (
            if doc.has_more
            then update doc.cursor f'
            else (f', wait_update update_interval doc.cursor ∷ []))

      pub on_list_folder_response : ℕ → String → Folder → Outcome (Folder × List Request)
      on_list_folder_response code response f =
          if not (code == 200)
          then ok (f, [])
          else if f.shutting_down
          then ok (f, [])
          else handle_folder_response response f

      pub on_update_response : ℕ → String → Folder → Outcome (Folder × List Request)
      on_update_response code response f = do
        check ndebug (code == 200)
        if not (code == 200)
            then ok (f, [])
            else if f.shutting_down
            then ok (f, [])
            else handle_folder_response response f

  pub shrink_folder : ℕ → Folder → Outcome (List Request)
  unfolding collect
  shrink_folder max_size f = if f.shutting_down || ltb f.folder_size max_size then ok [] else do
    let remove_list = collect (f.folder_size - max_size) f.index
    check ndebug (not (is_nil remove_list))
    if is_nil remove_list then ok [] else ok (delete_batch remove_list ∷ [])

pub shutdown : Folder → Folder
shutdown f = record f { shutting_down = true }
