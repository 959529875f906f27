-- ===== src/DeviceBox/StringFormat/Examples.antt =====
-- DeviceBox/string_format.h: formats of the Dropbox client, read as code points.
use ip_cam_box.Prelude.{ℕ, nat_eq, String, List, [], ◌∷◌, none, some, ◌≡◌, refl}
use mathlib.Core.Option
use Prim.Native.Char.{code}
use ip_cam_box.DeviceBox.StringFormat.{
  Format, push_next, string_format, set_format_str, push_values, str,
}
use ip_cam_box.DeviceBox.StringFormat.Render.{render}
use ip_cam_box.DeviceBox.StringFormat.Text.{push_next_ends}
use ip_cam_box.DeviceBox.StringFormat.Documented.{
  Piece, percent as percent_sign, placeholder, plain, string_format-meaning,
}

-- The code points of a text.
abbrev codes : String → List ℕ
codes String.[] = []
codes (String.◌∷◌ c s) = code c ∷ codes s

abbrev percent : ℕ
percent = 37

abbrev underscore : ℕ
underscore = 95

abbrev used : Format ℕ
used = record { format_string = codes "old"; format_string_pos = none; out_stream = codes "text" }

usage :
    render percent underscore
      (codes "%_@%_.%_")
      (codes "vasya.pupkin" ∷ codes "gmail" ∷ codes "com" ∷ [])
    ≡ codes "vasya.pupkin@gmail.com"
unfolding render
usage = refl

percent_signs :
    render percent underscore (codes "100%% of %_, %x") (codes "a" ∷ codes "b" ∷ codes "!" ∷ [])
    ≡ codes "100% of a, bx!"
unfolding render
percent_signs = refl

copied_as_is : render percent underscore (codes "%_ and 5%%") [] ≡ codes " and 5%%"
unfolding render
copied_as_is = refl

-- "a%%%_!"
abbrev pieces : List (Piece ℕ)
pieces = plain 97 ∷ percent_sign ∷ placeholder ∷ plain 33 ∷ []

string_format-meaning_example :
    (string_format percent underscore (codes "a%%%_!") (codes "b" ∷ codes "c" ∷ [])
      ≡ some (codes "a%b!c"))
    × ((g : Format ℕ) × (set_format_str percent underscore used (codes "a%%%_!") ≡ some g)
        × (Option.map str (push_values percent underscore g (codes "b" ∷ codes "c" ∷ []))
            ≡ some (codes "a%b!c")))
string_format-meaning_example =
    string_format-meaning percent underscore used pieces (codes "b" ∷ codes "c" ∷ []) refl
      (refl, (refl, tt))

abbrev midway : Format ℕ
midway = record { format_string = codes "%%a%%%_"; format_string_pos = some 2; out_stream = [] }

push_next_ends_example : (g : Format ℕ) × (push_next percent underscore midway ≡ some g)
push_next_ends_example = push_next_ends percent underscore midway
