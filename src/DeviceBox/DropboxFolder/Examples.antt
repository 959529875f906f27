-- ===== src/DeviceBox/DropboxFolder/Examples.antt =====
-- Runs of DeviceBox/DropboxFolder.cpp, and the theorems at them.
use ip_cam_box.Prelude.{
  ℕ, ◌≡◌, refl, String, string_eq, nat_eq, ◌==◌, if◌then◌else◌, false, [], ◌∷◌, Outcome, ok, arith,
}
use ip_cam_box.Prelude.Assoc.{find, emplace, erase}
use ip_cam_box.DeviceBox.DropboxFolder.Index.{Item, erase_from_index, insert_into_index, is_sorted}
use ip_cam_box.DeviceBox.DropboxFolder.Index.Laws.{by_path}
use ip_cam_box.DeviceBox.DropboxFolder.Invariant.{IsFolder}
use ip_cam_box.DeviceBox.DropboxFolder.Contents.{Updated, handle_folder_response-Updated}
use ip_cam_box.DeviceBox.DropboxFolder.Shrink.{Shrinks, shrink_folder-Shrinks}
use ip_cam_box.DeviceBox.DropboxFolder.{
  Folder, file, folder, Response, wait_update, delete_batch, init, erase_item, handle_entry,
  handle_entries, handle_folder_response, shrink_folder,
}

abbrev timestamp : String → ℕ
timestamp modified = if modified == "mon" then 1 else 2

abbrev answer : Response
answer = record {
  entries = file "/b" "tue" 5 ∷ file "/a" "mon" 7 ∷ folder ∷ file "/b" "tue" 6 ∷ [];
  cursor = "c1";
  has_more = false;
}

abbrev parse : String → Outcome Response
parse response = ok answer

abbrev oldest : Item
oldest = record { path = "/a"; modified_timestamp = 1; size = 7 }

abbrev newest : Item
newest = record { path = "/b"; modified_timestamp = 2; size = 6 }

abbrev two_files : Folder
two_files = record {
  shutting_down = false;
  items = ("/a", oldest) ∷ ("/b", newest) ∷ [];
  index = oldest ∷ newest ∷ [];
  folder_size = 13;
}

handle_two_files :
    handle_folder_response false timestamp parse "" init ≡ ok (two_files, wait_update 5 "c1" ∷ [])
unfolding handle_folder_response handle_entries handle_entry erase_item init find emplace erase
    erase_from_index insert_into_index is_sorted
handle_two_files = refl

init-IsFolder : IsFolder init
unfolding init find by_path
init-IsFolder = record {
  sorted = tt;
  distinct = tt;
  keys = tt;
  agree = λ p. refl;
  count = refl;
  size = refl;
  sizes = tt;
}

two_files-IsFolder : IsFolder two_files
unfolding find by_path
two_files-IsFolder = record {
  sorted = omega arith;
  distinct = ground arith;
  keys = ground arith;
  agree = λ p. refl;
  count = refl;
  size = refl;
  sizes = omega arith;
}

handle_folder_response-Updated_example :
    (g : Folder) × (handle_folder_response false timestamp parse "" two_files
      ≡ ok (g, wait_update 5 "c1" ∷ []))
    × Updated timestamp answer.entries two_files g
handle_folder_response-Updated_example =
    handle_folder_response-Updated timestamp false parse "" answer two_files refl (omega arith)
      two_files-IsFolder refl

shrink_folder-Shrinks_example : Shrinks 7 two_files (shrink_folder false 7 two_files)
shrink_folder-Shrinks_example =
    shrink_folder-Shrinks false 7 two_files two_files-IsFolder refl (omega arith) (omega arith)
      (omega arith)

shrink_below_limit : shrink_folder false 14 two_files ≡ ok []
unfolding shrink_folder
shrink_below_limit = refl

shrink_two_files : shrink_folder false 7 two_files ≡ ok (delete_batch ("/a" ∷ []) ∷ [])
unfolding shrink_folder
shrink_two_files = refl

-- At exactly the limit a file goes as well.
shrink_at_limit : shrink_folder false 13 two_files ≡ ok (delete_batch ("/a" ∷ []) ∷ [])
unfolding shrink_folder
shrink_at_limit = refl
