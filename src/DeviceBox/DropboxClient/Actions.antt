-- ===== src/DeviceBox/DropboxClient/Actions.antt =====
-- DeviceBox/Dropbox.cpp: the actions, and what the `init` of each sets on its handle of libcurl. The
-- handle that `curl_easy_init` gives is a parameter, none for null, and so is whether `fopen` opens
-- the file. `none` is a null pointer.
use ip_cam_box.Prelude.{
  ℕ, String, concat, char_eq, Bool, true, false, Option, none, some, List, [], ◌∷◌, ◌++◌, map,
  when_some, if◌then◌else◌,
}
use mathlib.Core.Option
use Prim.Native.Char.{Char}
use text.Mathlib.TextBridge.{of_list}
use ip_cam_box.DeviceBox.StringFormat.{string_format}

-- The class of an action, with the members that its log lines name.
pub data Kind : Type 0 where
  upload_action : String → String → Kind
  list_folder_action : String → Kind
  continue_list_folder_action latest_folder_cursor_action delete_path_action : Kind
  delete_batch_action : Kind

-- `finished` is the number of the callback.
pub record Action : Type 0 where
  pub kind : Kind
  pub internal : Bool
  pub finished : ℕ
  pub response : String
  pub response_code : ℕ

-- A constructor of an action, up to the handle.
unfoldable pub new_action : Kind → Bool → ℕ → Action
new_action kind internal finished = record {
  kind = kind;
  internal = internal;
  finished = finished;
  response = "";
  response_code = 0;
}

-- CURLOPT_URL, CURLOPT_HTTPHEADER, CURLOPT_POSTFIELDS and CURLOPT_READDATA; CURLOPT_POST is always set.
pub record Transfer : Type 0 where
  pub curl : ℕ
  pub url : String
  pub headers : List String
  pub post_fields : Option String
  pub read_data : Option String

-- The characters of a text. `String` has constructors like those of `List`.
abbrev pub chars : String → List Char
chars String.[] = []
chars (String.◌∷◌ c s) = c ∷ chars s

-- `string_format(format)(value)….str()`; its loops end, so the empty text is never taken.
unfoldable pub formatted : String → List String → String
formatted format values =
    of_list (Option.get_or (string_format "%" "_" (chars format) (map chars values)) [])

unfoldable pub init : Option ℕ → String → Option (ℕ × List String)
init none token = none
init (some curl) token = some (curl, formatted "Authorization: Bearer %_" (token ∷ []) ∷ [])

-- A request with a JSON body.
abbrev pub json_transfer : ℕ → List String → String → String → Transfer
json_transfer curl headers url body = record {
  curl = curl;
  url = url;
  headers = headers ++ ("Content-Type: application/json" ∷ []);
  post_fields = some body;
  read_data = none;
}

unfoldable pub upload_init : Option ℕ → Bool → String → String → String → Option Transfer
upload_init easy opened token dst src = when_some (init easy token) none (λ started.
    let (curl, headers) = started in
    if opened
    then some (record {
      curl = curl;
      url = "https://content.dropboxapi.com/2/files/upload";
      headers =
          headers
          ++ (formatted
                "Dropbox-API-Arg: { \"path\": \"%_\", \"mode\": \"overwrite\", \"autorename\": false, \"mute\": false }"
                (dst ∷ [])
              ∷ "Content-Type: application/octet-stream"
              ∷ "Transfer-Encoding: chunked"
              ∷ "Expect:"
              ∷ []);
      post_fields = none;
      read_data = some src;
    })
    else none)

abbrev pub folder_format : String
folder_format =
    "{ \"path\": \"%_\", \"recursive\": %_,\"include_media_info\": false,\"include_deleted\": false,\"include_has_explicit_shared_members\": false}"

unfoldable pub list_folder_init : Option ℕ → String → String → Bool → Option Transfer
list_folder_init easy token path recursive = when_some (init easy token) none (λ started.
    let (curl, headers) = started in
    some (
      json_transfer curl headers "https://api.dropboxapi.com/2/files/list_folder"
        (formatted folder_format (path ∷ (if recursive then "true" else "false") ∷ []))))

unfoldable pub continue_list_folder_init : Option ℕ → String → String → Option Transfer
continue_list_folder_init easy token cursor = when_some (init easy token) none (λ started.
    let (curl, headers) = started in
    some (
      json_transfer curl headers "https://api.dropboxapi.com/2/files/list_folder/continue"
        (formatted "{ \"cursor\": \"%_\" }" (cursor ∷ []))))

unfoldable pub latest_folder_cursor_init : Option ℕ → String → String → Bool → Option Transfer
latest_folder_cursor_init easy token path recursive = when_some (init easy token) none (λ started.
    let (curl, headers) = started in
    some (
      json_transfer curl headers "https://api.dropboxapi.com/2/files/list_folder/get_latest_cursor"
        (formatted folder_format (path ∷ (if recursive then "true" else "false") ∷ []))))

unfoldable pub delete_path_init : Option ℕ → String → String → Option Transfer
delete_path_init easy token path = when_some (init easy token) none (λ started.
    let (curl, headers) = started in
    some (
      json_transfer curl headers "https://api.dropboxapi.com/2/files/delete"
        (formatted "{ \"path\": \"%_\" }" (path ∷ []))))

-- The entries in the loop, after the first if `first` is false.
unfoldable pub write_entries : Bool → List String → String
write_entries first [] = ""
write_entries first (path ∷ list) =
    concat (if first then "" else ", ")
      (concat "{ \"path\": \"" (concat path (concat "\" }" (write_entries false list))))

unfoldable pub batch_body : List String → String
batch_body list = concat "{ \"entries\": [" (concat (write_entries true list) "]}")

unfoldable pub delete_batch_init : Option ℕ → String → List String → Option Transfer
delete_batch_init easy token list = when_some (init easy token) none (λ started.
    let (curl, headers) = started in
    some (
      json_transfer curl headers "https://api.dropboxapi.com/2/files/delete_batch"
        (batch_body list)))
