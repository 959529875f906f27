-- ===== src/DeviceBox/StringFormat.antt =====
-- DeviceBox/string_format.h: `basic_string_format`, for any type of characters. The two characters of
-- a placeholder, `m_OutStream.widen('%')` and `m_OutStream.widen('_')`, are parameters, and a value is
-- the text that the stream writes for it. `none` is the position `npos`.
pub mod Render
pub mod Loop
pub mod Text
pub mod Documented
mod Examples
use ip_cam_box.Prelude.{
  ℕ, zero, suc, ◌+◌, ◌-◌, Eq, ◌==◌, Bool, true, false, not, ◌&&◌, Option, none, some, List, [], ◌∷◌,
  ◌++◌, length, take, drop, get_elem?, when_some, if◌then◌else◌,
}
use mathlib.Core.Option

pub record Format {ℓ} (Ch : Type ℓ) : Type ℓ where
  pub format_string : List Ch
  pub format_string_pos : Option ℕ
  pub out_stream : List Ch

module _ {ℓ} {Ch : Type ℓ} where
  -- `std::string::find(c)` and `find(c, pos)`.
  unfoldable pub index_of : ⦃e : Eq Ch⦄ → Ch → List Ch → Option ℕ
  index_of c [] = none
  index_of c (x ∷ s) = let later = index_of c s in if x == c then some 0 else Option.map suc later

  unfoldable pub find_from : ⦃e : Eq Ch⦄ → Ch → List Ch → ℕ → Option ℕ
  find_from c s pos = Option.map (λ i. pos + i) (index_of c (drop pos s))

  -- What stands between two positions.
  abbrev pub between : List Ch → ℕ → ℕ → List Ch
  between s first last = take (last - first) (drop first s)

  unfoldable pub push_remainder : Format Ch → Format Ch
  push_remainder f = when_some f.format_string_pos f (λ pos. record f {
    format_string_pos = none;
    out_stream = f.out_stream ++ between f.format_string pos (length f.format_string);
  })

  unfoldable pub str : Format Ch → List Ch
  str f = (push_remainder f).out_stream

  unfoldable pub clear : Format Ch → Format Ch
  clear f = record f { out_stream = [] }

  abbrev pub is : ⦃e : Eq Ch⦄ → Ch → Option Ch → Bool
  is c none = false
  is c (some d) = d == c

-- The members that look for a placeholder.
module _ {ℓ} {Ch : Type ℓ} ⦃e : Eq Ch⦄ (arg_char arg_char2 : Ch) where
  -- One round of the loop in `push_next` at a position, and whether there is another.
  unfoldable pub push_part : Format Ch → ℕ → Format Ch × Bool
  push_part f pos = elim (find_from arg_char f.format_string pos) [
    | none ↦ (push_remainder f, false)
    | some found ↦
        let char2 = get_elem? f.format_string (found + 1) in
        let escaped = is arg_char char2 in
        let new_pos = if escaped then found + 1 else found in
        let placeholder_len : ℕ = if not escaped && is arg_char2 char2 then 2 else 1 in
        let pushed : Format Ch = record f {
          format_string_pos = some (new_pos + placeholder_len);
          out_stream = f.out_stream ++ between f.format_string pos new_pos;
        } in
        (pushed, escaped)
  ]

  -- The loop, `none` if it needs more rounds than given.
  unfoldable pub push_loop : ℕ → Format Ch → Option (Format Ch)
  push_loop zero f = none
  push_loop (suc rounds) f = when_some f.format_string_pos (some f) (λ pos.
      let (g, continue) = push_part f pos in
      let rest = push_loop rounds g in if continue then rest else some g)

  unfoldable pub push_next : Format Ch → Option (Format Ch)
  push_next f = push_loop (suc (length f.format_string)) f

  unfoldable pub construct : List Ch → Option (Format Ch)
  construct format_str =
      push_next (record { format_string = format_str; format_string_pos = some 0; out_stream = [] })

  unfoldable pub set_format_str : Format Ch → List Ch → Option (Format Ch)
  set_format_str f format_str =
      let cleared = clear f in
      push_next (record cleared { format_string = format_str; format_string_pos = some 0 })

  -- `operator%`, and `operator()` and `operator<<`, which are calls of it.
  unfoldable pub push_value : Format Ch → List Ch → Option (Format Ch)
  push_value f x = push_next (record f { out_stream = f.out_stream ++ x })

  -- `operator()` with a number of times.
  unfoldable pub push_times : Format Ch → List Ch → ℕ → Option (Format Ch)
  push_times f x zero = some f
  push_times f x (suc count) = elim (push_value f x) [ none ↦ none | some g ↦ push_times g x count ]

  unfoldable pub push_values : Format Ch → List (List Ch) → Option (Format Ch)
  push_values f [] = some f
  push_values f (x ∷ xs) = elim (push_value f x) [ none ↦ none | some g ↦ push_values g xs ]

  -- `string_format(format_str)(x)(y)….str()`.
  unfoldable pub string_format : List Ch → List (List Ch) → Option (List Ch)
  string_format format_str values = elim (construct format_str) [
    | none ↦ none
    | some f ↦ Option.map str (push_values f values)
  ]
