-- ===== src/DeviceBox/StringFormat/Loop.antt =====
-- DeviceBox/string_format.h: what the loop of `push_next` comes to from a position.
use ip_cam_box.Prelude.{
  ℕ, zero, suc, ◌+◌, ◌-◌, ◌<◌, Eq, ◌==◌, true, false, Bool-cases, Option, none, some, Option-cases,
  List, [], ◌∷◌, ◌++◌, ◌≡◌, refl, subst, inl, inr, length, take, drop, get_elem?, drop-add,
  length-drop, take-length, get_elem-drop, get_elem_past, append_assoc, List-cases, when_some,
  arith, if◌then◌else◌,
}
use ip_cam_box.DeviceBox.StringFormat.{
  Format, index_of, find_from, between, push_remainder, push_part, push_loop, push_next, is,
}
use ip_cam_box.DeviceBox.StringFormat.Render.{
  join, render, fill, index_of_lt, index_of_split, render_plain, render_found, render_last,
  render_placeholder, escape_text,
}

module _ {Ch : Type 0} where
  abbrev pub at : List Ch → ℕ → List Ch → Format Ch
  at s p out = record { format_string = s; format_string_pos = some p; out_stream = out }

  pub whole : (s : List Ch) (p : ℕ) → between s p (length s) ≡ drop p s
  whole s p = subst (λ k. take k (drop p s) ≡ drop p s) (length-drop p s) (take-length (drop p s))

module _ {Ch : Type 0} ⦃e : Eq Ch⦄ (arg_char arg_char2 : Ch) where
  -- The text that the rest of the calls give, a value for each, then `str`.
  unfoldable pub finish : Format Ch → List (List Ch) → List Ch
  finish f vs = elim f.format_string_pos [
    | none ↦ f.out_stream ++ join vs
    | some p ↦ f.out_stream ++ fill arg_char arg_char2 (drop p f.format_string) vs
  ]

  -- What a loop from a position comes to: it ends, and the rest of the calls give the rendered text.
  unfoldable pub Reaches : List Ch → ℕ → List Ch → Option (Format Ch) → Type 0
  Reaches s p out result =
      (g : Format Ch) × (result ≡ some g)
      × (g.format_string ≡ s)
      × ((vs : List (List Ch)) → finish g vs ≡ out ++ render arg_char arg_char2 (drop p s) vs)

  loop_plain :
      (n p : ℕ) (s out : List Ch)
      → index_of arg_char (drop p s) ≡ none
      → Reaches s p out (push_loop arg_char arg_char2 (suc n) (at s p out))
  unfolding Reaches push_loop push_part find_from push_remainder when_some finish
  loop_plain n p s out h =
      let g : Format Ch = record {
        format_string = s;
        format_string_pos = none;
        out_stream = out ++ drop p s;
      } in
      let result : push_loop arg_char arg_char2 (suc n) (at s p out) ≡ some g =
        ground (arith, h, whole s p) in
      (
        g,
        result,
        refl,
        λ vs. cc (
          append_assoc out (drop p s) (join vs),
          render_plain arg_char arg_char2 (drop p s) vs h,
        ),
      )

  -- A placeholder at index `i` of what is left, which ends the loop at a position behind it.
  placeholder_ends :
      (p i q : ℕ) (s out : List Ch) (result : Option (Format Ch))
      → index_of arg_char (drop p s) ≡ some i
      → result ≡ some (at s q (out ++ take i (drop p s)))
      → ((vs : List (List Ch))
          → render arg_char arg_char2 (drop i (drop p s)) vs
            ≡ fill arg_char arg_char2 (drop q s) vs)
      → Reaches s p out result
  unfolding Reaches finish
  placeholder_ends p i q s out result found same filled = (
    at s q (out ++ take i (drop p s)),
    same,
    refl,
    λ vs. cc (
      append_assoc out (take i (drop p s)) (fill arg_char arg_char2 (drop q s) vs),
      filled vs,
      render_found arg_char arg_char2 (drop p s) i vs found,
    ),
  )

  part_at :
      (p i : ℕ) (s out : List Ch) (char2 : Option Ch)
      → index_of arg_char (drop p s) ≡ some i
      → get_elem? s (p + i + 1) ≡ char2
      → push_part arg_char arg_char2 (at s p out) p ≡ (
          if is arg_char char2
          then (at s (p + i + 2) (out ++ take (i + 1) (drop p s)), true)
          else if is arg_char2 char2
          then (at s (p + i + 2) (out ++ take i (drop p s)), false)
          else (at s (p + i + 1) (out ++ take i (drop p s)), false))
  unfolding push_part find_from
  part_at p i s out char2 found next =
      let here : (p + i) - p ≡ i = omega arith in
      let there : (p + i + 1) - p ≡ i + 1 = omega arith in
      let two : p + i + 1 + 1 ≡ p + i + 2 = omega arith in
      ground (arith, found, next, here, there, two)

  behind : (p i k : ℕ) (s r : List Ch) → drop i (drop p s) ≡ r → drop (p + i + k) s ≡ drop k r
  behind p i k s r h = cc (drop-add (p + i) k s, drop-add p i s)

  loop_found :
      (n p i : ℕ) (s out : List Ch)
      → index_of arg_char (drop p s) ≡ some i
      → length (drop p s) < suc n
      → ((q : ℕ) (longer : List Ch)
          → length (drop q s) < n
          → Reaches s q longer (push_loop arg_char arg_char2 n (at s q longer)))
      → Reaches s p out (push_loop arg_char arg_char2 (suc n) (at s p out))
  unfolding push_loop when_some Reaches
  loop_found n p i s out found enough later =
      let (r, split) = index_of_split arg_char arg_char2 (drop p s) i found in
      elim (List-cases r) [
        | inl last ↦
            let next : get_elem? s (p + i + 1) ≡ none =
              get_elem_past (p + i + 1) s (cc (behind p i 1 s (arg_char ∷ r) split, last)) in
            placeholder_ends p i (p + i + 1) s out _ found
              (ground (arith, part_at p i s out none found next))
              (λ vs.
                let at_end : drop (p + i + 1) s ≡ [] =
                  cc (behind p i 1 s (arg_char ∷ r) split, last) in
                cc (split, last, at_end, render_last arg_char arg_char2 vs))
        | inr (d, r', more) ↦
            let next : get_elem? s (p + i + 1) ≡ some d =
              get_elem-drop (p + i + 1) d s r' (cc (behind p i 1 s (arg_char ∷ r) split, more)) in
            elim (Bool-cases (d == arg_char)) [
              | inl escape ↦
                  let left : drop (p + i + 2) s ≡ r' =
                    cc (behind p i 2 s (arg_char ∷ r) split, more) in
                  let longer : List Ch = out ++ take (i + 1) (drop p s) in
                  let fewer : length (drop (p + i + 2) s) < n = ground (
                    arith,
                    enough,
                    index_of_lt arg_char arg_char2 (drop p s) i found,
                    length-drop p s,
                    length-drop (p + i + 2) s,
                  ) in
                  let (g, ends, same, all) = later (p + i + 2) longer fewer in
                  (
                    g,
                    ground (arith, part_at p i s out (some d) found next, escape, ends),
                    same,
                    λ vs. cc (
                      all vs,
                      left,
                      escape_text arg_char arg_char2 i d out (drop p s) r' vs found
                          (cc (split, more)) escape,
                    ),
                  )
              | inr other ↦ elim (Bool-cases (d == arg_char2)) [
                | inl named ↦
                    placeholder_ends p i (p + i + 2) s out _ found
                      (ground (arith, part_at p i s out (some d) found next, other, named))
                      (λ vs.
                        let left : drop (p + i + 2) s ≡ r' =
                          cc (behind p i 2 s (arg_char ∷ r) split, more) in
                        let head : render arg_char arg_char2 (arg_char ∷ d ∷ r') vs
                            ≡ fill arg_char arg_char2 (r') vs =
                          ground
                            (arith, render_placeholder arg_char arg_char2 d r' vs, other, named) in
                        cc (split, more, left, head))
                | inr bare ↦
                    placeholder_ends p i (p + i + 1) s out _ found
                      (ground (arith, part_at p i s out (some d) found next, other, bare))
                      (λ vs.
                        let left : drop (p + i + 1) s ≡ d ∷ r' =
                          cc (behind p i 1 s (arg_char ∷ r) split, more) in
                        let head : render arg_char arg_char2 (arg_char ∷ d ∷ r') vs
                            ≡ fill arg_char arg_char2 (d ∷ r') vs =
                          ground
                            (arith, render_placeholder arg_char arg_char2 d r' vs, other, bare) in
                        cc (split, more, left, head))
              ]
            ]
      ]

  loop_ends :
      (n p : ℕ) (s out : List Ch)
      → length (drop p s) < n
      → Reaches s p out (push_loop arg_char arg_char2 n (at s p out))
  loop_ends zero p s out enough = absurd (omega (arith, enough))
  loop_ends (suc n) p s out enough = elim (Option-cases (index_of arg_char (drop p s))) [
    | inl absent ↦ loop_plain n p s out absent
    | inr (i, found) ↦
        loop_found n p i s out found enough (λ q longer less. loop_ends n q s longer less)
  ]

  pub next_ends :
      (p : ℕ) (s out : List Ch) → Reaches s p out (push_next arg_char arg_char2 (at s p out))
  unfolding push_next
  next_ends p s out = loop_ends (suc (length s)) p s out (ground (arith, length-drop p s))
