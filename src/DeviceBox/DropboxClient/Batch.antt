-- ===== src/DeviceBox/DropboxClient/Batch.antt =====
-- DeviceBox/Dropbox.cpp: the body of the request that deletes several files, and a reader of it.
use ip_cam_box.Prelude.{
  String, char_eq, string_eq, ◌==◌, Bool, true, false, ◌||◌, ◌&&◌, Option, none, some, List, [],
  ◌∷◌, ◌≡◌, if◌then◌else◌,
}
use mathlib.Core.Option
use Prim.Native.Char.{Char}
use text.Mathlib.TextBridge.{of_list}
use ip_cam_box.DeviceBox.DropboxClient.Actions.{chars}

abbrev pub has : Char → List Char → Bool
has c [] = false
has c (d ∷ s) = (d == c) || has c s

abbrev extend : Char → List (List Char) → List (List Char)
extend c [] = (c ∷ []) ∷ []
extend c (p ∷ ps) = (c ∷ p) ∷ ps

-- What stands between the quotes of a text, and before and behind them.
unfoldable pub pieces : List Char → List (List Char)
pieces [] = [] ∷ []
pieces (c ∷ s) = let rest = pieces s in if c == "\"" then [] ∷ rest else extend c rest

-- What stands between two texts in quotes, whatever spaces it has.
abbrev pub squeeze : List Char → List Char
squeeze [] = []
squeeze (c ∷ s) = if c == " " then squeeze s else c ∷ squeeze s

abbrev pub is_glue : String → List Char → Bool
is_glue glue s = of_list (squeeze s) == glue

-- The objects of the array, of which each has one key, `path`, up to the end of the array and of the
-- object around it.
unfoldable pub read_objects : Bool → List (List Char) → Option (List String)
read_objects first (end ∷ []) =
    if is_glue (if first then ":[]}" else "}]}") end then some [] else none
read_objects first (open_object ∷ key ∷ colon ∷ value ∷ rest) =
    let more = read_objects false rest in
    if is_glue (if first then ":[{" else "},{") open_object
      && ((of_list key == "path") && is_glue ":" colon)
    then Option.map (λ vs. of_list value ∷ vs) more
    else none
read_objects first _ = none

-- The object, with the one key `entries`.
abbrev pub read_object : List (List Char) → Option (List String)
read_object (open_object ∷ key ∷ rest) =
    if is_glue "{" open_object && (of_list key == "entries") then read_objects true rest else none
read_object _ = none

-- A reader of the JSON texts of this form, `{"entries": [{"path": "..."}, ...]}`, with any spaces outside
-- the quotes and without escapes.
unfoldable pub read_batch : String → Option (List String)
read_batch body = read_object (pieces (chars body))

abbrev separator : Bool → String
separator first = if first then "" else ", "

-- A text before the first piece.
abbrev before_objects : Bool → List (List Char) → List (List Char)
before_objects true ps = extend ":" (extend " " (extend "[" ps))
before_objects false ps = extend " " (extend "}" ps)

-- No quote stands in a path.
abbrev pub IsPlain : String → Type 0
IsPlain path = has "\"" (chars path) ≡ false
