-- ===== src/DeviceBox/StringFormat/Render.antt =====
-- DeviceBox/string_format.h: the text that any format gives with any values, read from the left, and how it
-- relates to the first `%` of what is left. It goes beyond the formats that the comment of the class
-- describes: it says what becomes of a `%` before other characters and of too few values.
use ip_cam_box.Prelude.{
  ℕ, zero, suc, ◌+◌, ◌<◌, Eq, ◌==◌, true, false, Bool-cases, none, some, Option-cases, List, [],
  ◌∷◌, ◌++◌, ◌≡◌, refl, subst, inl, inr, length, take, drop, append_assoc, arith, if◌then◌else◌,
}
use mathlib.Core.Option.{none-ne-some, some-injective}
use ip_cam_box.DeviceBox.StringFormat.{index_of}

module _ {Ch : Type 0} where
  -- The values that have no placeholder, at the end.
  abbrev pub join : List (List Ch) → List Ch
  join [] = []
  join (v ∷ vs) = v ++ join vs

module _ {Ch : Type 0} ⦃e : Eq Ch⦄ (arg_char arg_char2 : Ch) where
  -- The text of a format with its values, read from the left: `%%` is a `%`, `%_` and a `%` before
  -- anything else take the next value, what follows the first placeholder without a value is copied
  -- as it stands, and values without a placeholder come at the end.
  unfoldable pub render : List Ch → List (List Ch) → List Ch
  render [] vs = join vs
  render (c ∷ []) vs =
      let filled : List Ch = elim vs [ [] ↦ [] | v ∷ rest ↦ v ++ join rest ] in
      if c == arg_char then filled else c ∷ join vs
  render (c ∷ d ∷ s) vs =
      let escape : List Ch = arg_char ∷ render s vs in
      let filled : List Ch = elim vs [ [] ↦ s | v ∷ rest ↦ v ++ render s rest ] in
      let bare : List Ch = elim vs [ [] ↦ d ∷ s | v ∷ rest ↦ v ++ render (d ∷ s) rest ] in
      let plain : List Ch = c ∷ render (d ∷ s) vs in
      if c == arg_char
      then (if d == arg_char then escape else if d == arg_char2 then filled else bare)
      else plain

  pub index_of_lt : (s : List Ch) (i : ℕ) → index_of arg_char s ≡ some i → i < length s
  unfolding index_of
  index_of_lt [] i h = ground arith
  index_of_lt (c ∷ s) i h = elim (Option-cases (index_of arg_char s)) [
    | inl absent ↦ ground (arith, absent)
    | inr (j, present) ↦ ground (arith, present, index_of_lt s j present)
  ]

  pub index_of_split :
      (s : List Ch) (i : ℕ)
      → index_of arg_char s ≡ some i
      → (r : List Ch) × (drop i s ≡ arg_char ∷ r)
  unfolding index_of
  index_of_split [] i h = absurd (none-ne-some i h)
  index_of_split (c ∷ s) i h = elim (Bool-cases (c == arg_char)) [
    | inl same ↦
        let here : 0 ≡ i = some-injective 0 i (ground arith) in
        (s, subst (λ k. drop k (c ∷ s) ≡ arg_char ∷ s) here (ground (arith, e.beq_iff c arg_char)))
    | inr other ↦ elim (Option-cases (index_of arg_char s)) [
      | inl absent ↦ absurd (none-ne-some i (ground (arith, absent)))
      | inr (j, present) ↦
          let (r, p) = index_of_split s j present in
          let moved : suc j ≡ i = some-injective (suc j) i (ground (arith, present)) in
          (r, subst (λ k. drop k (c ∷ s) ≡ arg_char ∷ r) moved p)
    ]
  ]

  pub render_plain :
      (s : List Ch) (vs : List (List Ch)) → index_of arg_char s ≡ none → render s vs ≡ s ++ join vs
  unfolding index_of render
  render_plain [] vs h = refl
  render_plain (c ∷ []) vs h = ground arith
  render_plain (c ∷ d ∷ s) vs h = ground (arith, render_plain (d ∷ s) vs)

  pub render_past :
      (c : Ch) (s : List Ch) (vs : List (List Ch))
      → (c == arg_char) ≡ false
      → render (c ∷ s) vs ≡ c ∷ render s vs
  unfolding render
  render_past c [] vs h = ground arith
  render_past c (d ∷ s) vs h = ground arith

  pub render_found :
      (s : List Ch) (i : ℕ) (vs : List (List Ch))
      → index_of arg_char s ≡ some i
      → render s vs ≡ take i s ++ render (drop i s) vs
  unfolding index_of
  render_found [] i vs h = absurd (none-ne-some i h)
  render_found (c ∷ s) i vs h = elim (Bool-cases (c == arg_char)) [
    | inl same ↦
        let here : 0 ≡ i = some-injective 0 i (ground arith) in
        subst (λ k. render (c ∷ s) vs ≡ take k (c ∷ s) ++ render (drop k (c ∷ s)) vs) here refl
    | inr other ↦ elim (Option-cases (index_of arg_char s)) [
      | inl absent ↦ absurd (none-ne-some i (ground (arith, absent)))
      | inr (j, present) ↦
          let moved : suc j ≡ i = some-injective (suc j) i (ground (arith, present)) in
          let rest : render s vs ≡ take j s ++ render (drop j s) vs = render_found s j vs present in
          let past : render (c ∷ s) vs ≡ c ∷ render s vs = render_past c s vs other in
          subst (λ k. render (c ∷ s) vs ≡ take k (c ∷ s) ++ render (drop k (c ∷ s)) vs) moved
            (cc (past, rest))
    ]
  ]

  pub take_snoc :
      (i : ℕ) (c : Ch) (s r : List Ch) → drop i s ≡ c ∷ r → take (i + 1) s ≡ take i s ++ (c ∷ [])
  take_snoc zero c [] r h = ground arith
  take_snoc (suc i) c [] r h = ground arith
  take_snoc zero c (d ∷ s) r h = ground arith
  take_snoc (suc i) c (d ∷ s) r h =
      let moved : take (suc (i + 1)) (d ∷ s) ≡ d ∷ (take i s ++ (c ∷ [])) =
        cc (take_snoc i c s r h) in
      let same : suc (i + 1) ≡ suc i + 1 = omega arith in
      subst (λ k. take k (d ∷ s) ≡ d ∷ (take i s ++ (c ∷ []))) same moved

  -- A placeholder and the text behind it.
  unfoldable pub fill : List Ch → List (List Ch) → List Ch
  fill s [] = s
  fill s (v ∷ rest) = v ++ render s rest

  pub render_last : (vs : List (List Ch)) → render (arg_char ∷ []) vs ≡ fill [] vs
  unfolding render fill
  render_last [] = ground (arith, e.beq_iff arg_char arg_char)
  render_last (v ∷ vs) = ground (arith, e.beq_iff arg_char arg_char)

  pub render_placeholder :
      (d : Ch) (s : List Ch) (vs : List (List Ch))
      → render (arg_char ∷ d ∷ s) vs ≡ (
          if d == arg_char
          then arg_char ∷ render s vs
          else if d == arg_char2
          then fill s vs
          else fill (d ∷ s) vs)
  unfolding render fill
  render_placeholder d s [] = ground (arith, e.beq_iff arg_char arg_char)
  render_placeholder d s (v ∷ vs) = ground (arith, e.beq_iff arg_char arg_char)

  pub escape_text :
      (i : ℕ) (d : Ch) (out s r : List Ch) (vs : List (List Ch))
      → index_of arg_char s ≡ some i
      → drop i s ≡ arg_char ∷ d ∷ r
      → (d == arg_char) ≡ true
      → (out ++ take (i + 1) s) ++ render r vs ≡ out ++ render s vs
  escape_text i d out s r vs found split same =
      let head : render (arg_char ∷ d ∷ r) vs ≡ arg_char ∷ render r vs =
        ground (arith, render_placeholder d r vs, same) in
      cc (
        append_assoc out (take (i + 1) s) (render r vs),
        take_snoc i arg_char s (d ∷ r) split,
        append_assoc (take i s) (arg_char ∷ []) (render r vs),
        render_found s i vs found,
        split,
        head,
      )
