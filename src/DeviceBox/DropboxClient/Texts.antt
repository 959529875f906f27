-- ===== src/DeviceBox/DropboxClient/Texts.antt =====
-- DeviceBox/Dropbox.cpp: the texts that the requests send.
use ip_cam_box.Prelude.{
  ℕ, String, concat, char_eq, Bool, true, Option, none, some, List, [], ◌∷◌, ◌++◌, map, ◌≡◌, refl,
  ap, ◌∙◌, if◌then◌else◌, when_some,
}
use mathlib.Core.Option
use Prim.Native.Char.{Char}
use text.Mathlib.TextLemmas.{append-nil}
use text.Mathlib.TextBridge.{of_list, of_list-++}
use ip_cam_box.DeviceBox.StringFormat.{Format}
use ip_cam_box.DeviceBox.StringFormat.Render.{render}
use ip_cam_box.DeviceBox.StringFormat.Text.{string_format-render}
use ip_cam_box.DeviceBox.DropboxClient.Actions.{
  chars, formatted, folder_format, init, Transfer, upload_init, list_folder_init,
  continue_list_folder_init, latest_folder_cursor_init, delete_path_init,
}

pub of_list-chars : (s : String) → of_list (chars s) ≡ s
of_list-chars String.[] = refl
of_list-chars (String.◌∷◌ c s) = ap (λ t. String.◌∷◌ c t) (of_list-chars s)

unused : Format Char
unused = record { format_string = []; format_string_pos = none; out_stream = [] }

formatted-render :
    (format : String) (values : List String)
    → formatted format values ≡ of_list (render "%" "_" (chars format) (map chars values))
unfolding formatted
formatted-render format values =
    ap (λ o. of_list (Option.get_or o []))
      (string_format-render "%" "_" unused (chars format) (map chars values)).0

-- One value between two literals.
formatted_one :
    (format before after value : String)
    → render "%" "_" (chars format) (chars value ∷ [])
      ≡ chars before ++ (chars value ++ chars after)
    → formatted format (value ∷ []) ≡ concat before (concat value after)
formatted_one format before after value h =
    let text : formatted format (value ∷ [])
        ≡ of_list (chars before ++ (chars value ++ chars after)) =
      formatted-render format (value ∷ []) ∙ ap of_list h in
    cc (
      text,
      of_list-++ (chars before) (chars value ++ chars after),
      of_list-++ (chars value) (chars after),
      of_list-chars before,
      of_list-chars value,
      of_list-chars after,
    )

formatted_two :
    (format before between after value second : String)
    → render "%" "_" (chars format) (chars value ∷ chars second ∷ [])
      ≡ chars before ++ (chars value ++ (chars between ++ (chars second ++ chars after)))
    → formatted format (value ∷ second ∷ [])
      ≡ concat before (concat value (concat between (concat second after)))
formatted_two format before between after value second h =
    let rest : List Char = chars second ++ chars after in
    let text : formatted format (value ∷ second ∷ [])
        ≡ of_list (chars before ++ (chars value ++ (chars between ++ rest))) =
      formatted-render format (value ∷ second ∷ []) ∙ ap of_list h in
    cc (
      text,
      of_list-++ (chars before) (chars value ++ (chars between ++ rest)),
      of_list-++ (chars value) (chars between ++ rest),
      of_list-++ (chars between) rest,
      of_list-++ (chars second) (chars after),
      of_list-chars before,
      of_list-chars value,
      of_list-chars between,
      of_list-chars second,
      of_list-chars after,
    )

abbrev pub folder_options : String
folder_options =
    ",\"include_media_info\": false,\"include_deleted\": false,\"include_has_explicit_shared_members\": false}"

folder_text :
    (path : String) (recursive : Bool)
    → formatted folder_format (path ∷ (if recursive then "true" else "false") ∷ [])
      ≡ concat "{ \"path\": \"" (
          concat path (
            concat "\", \"recursive\": "
              (concat (if recursive then "true" else "false") folder_options)))
unfolding render
folder_text path recursive =
    formatted_two folder_format "{ \"path\": \"" "\", \"recursive\": " folder_options path _ refl

cursor_text :
    (cursor : String)
    → formatted "{ \"cursor\": \"%_\" }" (cursor ∷ [])
      ≡ concat "{ \"cursor\": \"" (concat cursor "\" }")
unfolding render
cursor_text cursor = formatted_one _ "{ \"cursor\": \"" "\" }" cursor refl

path_text :
    (path : String)
    → formatted "{ \"path\": \"%_\" }" (path ∷ []) ≡ concat "{ \"path\": \"" (concat path "\" }")
unfolding render
path_text path = formatted_one _ "{ \"path\": \"" "\" }" path refl

bearer_text :
    (token : String)
    → formatted "Authorization: Bearer %_" (token ∷ []) ≡ concat "Authorization: Bearer " token
unfolding render
bearer_text token =
    formatted_one _ "Authorization: Bearer " "" token refl
    ∙ ap (concat "Authorization: Bearer ") (append-nil token)

argument_text :
    (dst : String)
    → formatted
        "Dropbox-API-Arg: { \"path\": \"%_\", \"mode\": \"overwrite\", \"autorename\": false, \"mute\": false }"
        (dst ∷ [])
      ≡ concat "Dropbox-API-Arg: { \"path\": \""
          (concat dst "\", \"mode\": \"overwrite\", \"autorename\": false, \"mute\": false }")
unfolding render
argument_text dst =
    formatted_one _ "Dropbox-API-Arg: { \"path\": \""
      "\", \"mode\": \"overwrite\", \"autorename\": false, \"mute\": false }" dst refl

abbrev pub body_of : Option Transfer → Option String
body_of none = none
body_of (some t) = t.post_fields

-- The texts of the requests are their templates with the values in their places, character for
-- character, also where a value has a `%` in it: the header with the token, the argument of an upload,
-- and the bodies of the requests for a listing, for its continuation, for a cursor and for a deletion.
pub request_texts :
    (curl : ℕ) (token path cursor src : String) (recursive : Bool)
    → (init (some curl) token ≡ some (curl, concat "Authorization: Bearer " token ∷ []))
      × (Option.map (λ t. t.headers) (upload_init (some curl) true token path src)
          ≡ some (
              concat "Authorization: Bearer " token
              ∷ concat "Dropbox-API-Arg: { \"path\": \"" (
                  concat path
                    "\", \"mode\": \"overwrite\", \"autorename\": false, \"mute\": false }")
              ∷ "Content-Type: application/octet-stream"
              ∷ "Transfer-Encoding: chunked"
              ∷ "Expect:"
              ∷ []))
      × (body_of (list_folder_init (some curl) token path recursive)
          ≡ some (
              concat "{ \"path\": \"" (
                concat path (
                  concat "\", \"recursive\": "
                    (concat (if recursive then "true" else "false") folder_options)))))
      × (body_of (latest_folder_cursor_init (some curl) token path recursive)
          ≡ body_of (list_folder_init (some curl) token path recursive))
      × (body_of (continue_list_folder_init (some curl) token cursor)
          ≡ some (concat "{ \"cursor\": \"" (concat cursor "\" }")))
      × (body_of (delete_path_init (some curl) token path)
          ≡ some (concat "{ \"path\": \"" (concat path "\" }")))
unfolding init upload_init list_folder_init latest_folder_cursor_init continue_list_folder_init
    delete_path_init when_some
request_texts curl token path cursor src recursive =
    let bearer = bearer_text token in
    let argument = argument_text path in
    (
      cc bearer,
      cc (bearer, argument),
      ap some (folder_text path recursive),
      refl,
      ap some (cursor_text cursor),
      ap some (path_text path),
    )
