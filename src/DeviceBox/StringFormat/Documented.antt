-- ===== src/DeviceBox/StringFormat/Documented.antt =====
-- DeviceBox/string_format.h: formats as the comment of the class describes them, and the texts that it
-- promises for them.
use ip_cam_box.Prelude.{Eq, ◌==◌, false, some, List, [], ◌∷◌, ◌++◌, ◌≡◌, refl, ap, ◌∙◌, arith}
use mathlib.Core.Option
use ip_cam_box.DeviceBox.StringFormat.{Format, string_format, set_format_str, push_values, str}
use ip_cam_box.DeviceBox.StringFormat.Render.{join, render, render_past, render_placeholder, fill}
use ip_cam_box.DeviceBox.StringFormat.Text.{string_format-render}

-- "%%", "%_", and any other character.
pub data Piece (Ch : Type 0) : Type 0 where
  percent placeholder : Piece Ch
  plain : Ch → Piece Ch

module _ {Ch : Type 0} ⦃e : Eq Ch⦄ (arg_char arg_char2 : Ch) where
  -- The format.
  abbrev pub written : List (Piece Ch) → List Ch
  written [] = []
  written (percent ∷ ps) = arg_char ∷ arg_char ∷ written ps
  written (placeholder ∷ ps) = arg_char ∷ arg_char2 ∷ written ps
  written (plain c ∷ ps) = c ∷ written ps

  -- "%%" is replaced with "%", each placeholder with the next value, and the values that have no
  -- placeholder are added to the end.
  abbrev pub meaning : List (Piece Ch) → List (List Ch) → List Ch
  meaning [] vs = join vs
  meaning (percent ∷ ps) vs = arg_char ∷ meaning ps vs
  meaning (placeholder ∷ ps) [] = meaning ps []
  meaning (placeholder ∷ ps) (v ∷ vs) = v ++ meaning ps vs
  meaning (plain c ∷ ps) vs = c ∷ meaning ps vs

  -- No other character is a `%`, and every placeholder has a value.
  abbrev pub IsDocumented : List (Piece Ch) → List (List Ch) → Type 0
  IsDocumented [] vs = Unit
  IsDocumented (percent ∷ ps) vs = IsDocumented ps vs
  IsDocumented (placeholder ∷ ps) [] = ⊥
  IsDocumented (placeholder ∷ ps) (v ∷ vs) = IsDocumented ps vs
  IsDocumented (plain c ∷ ps) vs = ((c == arg_char) ≡ false) × IsDocumented ps vs

  render-written :
      (ps : List (Piece Ch)) (vs : List (List Ch))
      → (arg_char2 == arg_char) ≡ false
      → IsDocumented ps vs
      → render arg_char arg_char2 (written ps) vs ≡ meaning ps vs
  unfolding render fill
  render-written [] vs other h = refl
  render-written (percent ∷ ps) vs other h = ground (
    arith,
    render_placeholder arg_char arg_char2 arg_char (written ps) vs,
    e.beq_iff arg_char arg_char,
    render-written ps vs other h,
  )
  render-written (placeholder ∷ ps) [] other h = absurd h
  render-written (placeholder ∷ ps) (v ∷ vs) other h = ground (
    arith,
    render_placeholder arg_char arg_char2 arg_char2 (written ps) (v ∷ vs),
    other,
    e.beq_iff arg_char2 arg_char2,
    render-written ps vs other h,
  )
  render-written (plain c ∷ ps) vs other (no_percent, h) =
      render_past arg_char arg_char2 c (written ps) vs no_percent
      ∙ ap (λ t. c ∷ t) (render-written ps vs other h)

  -- A format of "%%", "%_" and characters that are no "%", with at least as many values as
  -- placeholders, gives the text of the comment: "%" for each "%%", the next value for each "%_", every
  -- other character itself, and the values that are left at the end. Every call returns, and the
  -- same holds of an object that `set_format_str` gives the format, whatever was formatted before. "%"
  -- and "_" are two characters.
  pub string_format-meaning :
      (f : Format Ch) (ps : List (Piece Ch)) (vs : List (List Ch))
      → (arg_char2 == arg_char) ≡ false
      → IsDocumented ps vs
      → (string_format arg_char arg_char2 (written ps) vs ≡ some (meaning ps vs))
        × ((g : Format Ch) × (set_format_str arg_char arg_char2 f (written ps) ≡ some g)
            × (Option.map str (push_values arg_char arg_char2 g vs) ≡ some (meaning ps vs)))
  string_format-meaning f ps vs other h =
      let text = ap some (render-written ps vs other h) in
      let (made, reset) = string_format-render arg_char arg_char2 f (written ps) vs in
      let (g, started, again) = reset in (made ∙ text, (g, started, again ∙ text))
