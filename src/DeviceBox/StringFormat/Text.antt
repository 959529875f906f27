-- ===== src/DeviceBox/StringFormat/Text.antt =====
-- DeviceBox/string_format.h: the text that an object gives after its values, and the end of its loop.
use ip_cam_box.Prelude.{
  Eq, some, Option-cases, List, [], ◌∷◌, ◌++◌, ◌≡◌, refl, sym, subst, inl, inr, drop, append_assoc,
  append_nil, when_some, arith,
}
use mathlib.Core.Option
use mathlib.Core.Option.{none-ne-some, some-injective}
use ip_cam_box.DeviceBox.StringFormat.{
  Format, push_remainder, push_loop, push_next, construct, set_format_str, push_value, push_values,
  str, string_format, clear,
}
use ip_cam_box.DeviceBox.StringFormat.Render.{join, render, fill}
use ip_cam_box.DeviceBox.StringFormat.Loop.{at, finish, Reaches, whole, next_ends}

module _ {Ch : Type 0} ⦃e : Eq Ch⦄ (arg_char arg_char2 : Ch) where
  str-finish : (f : Format Ch) → str f ≡ finish arg_char arg_char2 f []
  unfolding str push_remainder when_some finish fill
  str-finish f = elim (Option-cases f.format_string_pos) [
    | inl past ↦ ground (arith, past, append_nil f.out_stream)
    | inr (p, left) ↦ ground (arith, left, whole f.format_string p)
  ]

  push_value-finish :
      (f : Format Ch) (v : List Ch)
      → (g : Format Ch) × (push_value arg_char arg_char2 f v ≡ some g)
        × (g.format_string ≡ f.format_string)
        × ((vs : List (List Ch))
            → finish arg_char arg_char2 g vs ≡ finish arg_char arg_char2 f (v ∷ vs))
  unfolding push_value push_next push_loop when_some Reaches finish fill
  push_value-finish f v = elim (Option-cases f.format_string_pos) [
    | inl past ↦
        let g : Format Ch = record f { out_stream = f.out_stream ++ v } in
        (
          g,
          ground (arith, past),
          refl,
          λ vs. ground (arith, past, append_assoc f.out_stream v (join vs)),
        )
    | inr (p, left) ↦
        let (g, ends, same, all) =
          next_ends arg_char arg_char2 p f.format_string (f.out_stream ++ v) in
        let pushed : push_value arg_char arg_char2 f v ≡ some g =
          subst
            (λ o.
              push_next arg_char arg_char2
                (record f { format_string_pos = o; out_stream = f.out_stream ++ v })
              ≡ some g)
            (sym left) ends in
        (
          g,
          pushed,
          same,
          λ vs. ground (
            arith,
            left,
            all vs,
            append_assoc f.out_stream v (render arg_char arg_char2 (drop p f.format_string) vs),
          ),
        )
  ]

  push_values-finish :
      (vs : List (List Ch)) (f : Format Ch)
      → (g : Format Ch) × (push_values arg_char arg_char2 f vs ≡ some g)
        × (str g ≡ finish arg_char arg_char2 f vs)
  unfolding push_values
  push_values-finish [] f = (f, refl, str-finish f)
  push_values-finish (v ∷ vs) f =
      let (g, pushed, same, all) = push_value-finish f v in
      let (h, rest, text) = push_values-finish vs g in
      (h, ground (arith, pushed, rest), cc (text, all vs))

  -- From the start of a format's text, the values and `str` give the rendered text.
  from_start :
      (s : List Ch) (vs : List (List Ch))
      → (f : Format Ch) × (push_next arg_char arg_char2 (at s 0 []) ≡ some f)
        × (Option.map str (push_values arg_char arg_char2 f vs)
            ≡ some (render arg_char arg_char2 s vs))
  unfolding Reaches
  from_start s vs =
      let (f, started, same, all) = next_ends arg_char arg_char2 0 s [] in
      let (g, pushed, text) = push_values-finish vs f in
      (f, started, ground (arith, pushed, text, all vs))

  -- Any format with any values is the rendered text, and so is the text of an object that
  -- `set_format_str` gives a new format, whatever was formatted with it before.
  pub string_format-render :
      (f : Format Ch) (s : List Ch) (vs : List (List Ch))
      → (string_format arg_char arg_char2 s vs ≡ some (render arg_char arg_char2 s vs))
        × ((g : Format Ch) × (set_format_str arg_char arg_char2 f s ≡ some g)
            × (Option.map str (push_values arg_char arg_char2 g vs)
                ≡ some (render arg_char arg_char2 s vs)))
  unfolding string_format construct set_format_str clear
  string_format-render f s vs =
      let (g, started, text) = from_start s vs in
      (ground (arith, started, text), (g, started, text))

  -- The loop of `push_next` ends: from any position of any format, inside the text or past it, a
  -- number of rounds that exceeds the length of the text by one is enough.
  pub push_next_ends : (f : Format Ch) → (g : Format Ch) × (push_next arg_char arg_char2 f ≡ some g)
  unfolding push_next push_loop when_some Reaches
  push_next_ends f = elim (Option-cases f.format_string_pos) [
    | inl past ↦ (f, ground (arith, past))
    | inr (p, left) ↦
        let (g, ends, same, all) = next_ends arg_char arg_char2 p f.format_string f.out_stream in
        (
          g,
          subst (λ o. push_next arg_char arg_char2 (record f { format_string_pos = o }) ≡ some g)
              (sym left) ends,
        )
  ]
