-- ===== src/Prelude/Tests.antt =====
-- Boolean tests on numbers and texts, the conditional, and equality as an interface.
use Prim.Native.Nat.{ℕ, compare, Ordering}
use Prim.Native.String.{String, ◌++◌ as text_append}
use mathlib.Core.Path.{◌≡◌, refl, ap, subst}
use mathlib.Core.Logic.{◌↔◌, ◌⊎◌, inl, inr}
use mathlib.Core.Bool.{Bool, true, false}
use mathlib.Core.Option.{Option, none, some}
use native.Mathlib.Omega.{arith}
use text.Mathlib.Text.{◌==◌ as text_eq}
use Prim.Native.Char.{Char, code}
use text.Mathlib.TextEquality.{eq_iff, Char-path}

abbrev pub ltb : ℕ → ℕ → Bool
ltb a b = elim (compare a b) [ Ordering.lt ↦ true | _ ↦ false ]

abbrev pub leb : ℕ → ℕ → Bool
leb a b = elim (compare a b) [ Ordering.gt ↦ false | _ ↦ true ]

abbrev nat_beq : ℕ → ℕ → Bool
nat_beq a b = elim (compare a b) [ Ordering.eq ↦ true | _ ↦ false ]

pub nat_beq_iff : (a b : ℕ) → (nat_beq a b ≡ true) ↔ (a ≡ b)
nat_beq_iff a b = ground arith

infix 1 if◌then◌else◌
abbrev pub if◌then◌else◌ {ℓ} : {A : Type ℓ} → Bool → A → A → A
if true then x else y = x
if false then x else y = y

pub record Eq {ℓ} (A : Type ℓ) : Type ℓ where
  pub beq : A → A → Bool
  pub beq_iff : (x y : A) → (beq x y ≡ true) ↔ (x ≡ y)

instance abbrev pub string_eq : Eq String
string_eq = record { beq = text_eq; beq_iff = eq_iff }

-- To split on a computed value and keep the equation.
pub Bool-cases : (b : Bool) → (b ≡ true) ⊎ (b ≡ false)
Bool-cases true = inl refl
Bool-cases false = inr refl

pub Option-cases {ℓ} : {A : Type ℓ} (o : Option A) → (o ≡ none) ⊎ ((a : A) × (o ≡ some a))
Option-cases none = inl refl
Option-cases (some a) = inr (a, refl)

abbrev pub is_some {ℓ} : {A : Type ℓ} → Option A → Bool
is_some none = false
is_some (some a) = true

infix 50 ◌==◌
abbrev pub ◌==◌ {ℓ} : {A : Type ℓ} ⦃by : Eq A⦄ → A → A → Bool
◌==◌ ⦃by⦄ = by.beq

-- `operator+` of `std::string`.
abbrev pub concat : String → String → String
concat s t = text_append s t

-- `std::string::empty`.
abbrev pub is_empty : String → Bool
is_empty s = text_eq s ""

-- `if(!pointer) return otherwise;` and the rest, which has the value.
unfoldable pub when_some {ℓ κ} : {A : Type ℓ} {B : Type κ} → Option A → B → (A → B) → B
when_some none otherwise rest = otherwise
when_some (some a) otherwise rest = rest a

pub when_some_keeps {ℓ κ μ} :
    {A : Type ℓ} {B : Type κ} (P : B → Type μ) (o : Option A) (otherwise : B) (rest : A → B)
    → P otherwise
    → ((a : A) → o ≡ some a → P (rest a))
    → P (when_some o otherwise rest)
unfolding when_some
when_some_keeps P none otherwise rest h k = h
when_some_keeps P (some a) otherwise rest h k = k a refl

-- `if(condition) return early;` and the rest.
unfoldable pub return_if {ℓ} : {A : Type ℓ} → Bool → A → A → A
return_if true early rest = early
return_if false early rest = rest

pub return_if_keeps {ℓ κ} :
    {A : Type ℓ} (P : A → Type κ) (condition : Bool) (early rest : A)
    → P early
    → (condition ≡ false → P rest)
    → P (return_if condition early rest)
unfolding return_if
return_if_keeps P true early rest h k = h
return_if_keeps P false early rest h k = k refl

instance abbrev pub nat_eq : Eq ℕ
nat_eq = record { beq_iff = nat_beq_iff; beq = nat_beq }

pub char_beq_iff : (c d : Char) → (nat_beq (code c) (code d) ≡ true) ↔ (c ≡ d)
char_beq_iff c d = (
  λ h. Char-path c d ((nat_beq_iff (code c) (code d)).0 h),
  λ p. (nat_beq_iff (code c) (code d)).1 (ap code p),
)

instance abbrev pub char_eq : Eq Char
char_eq = record { beq_iff = char_beq_iff; beq = λ c d. nat_beq (code c) (code d) }

pub if_keeps {ℓ κ} :
    {A : Type ℓ} (P : A → Type κ) (condition : Bool) (x y : A)
    → (condition ≡ true → P x)
    → (condition ≡ false → P y)
    → P (if condition then x else y)
if_keeps P true x y h k = h refl
if_keeps P false x y h k = k refl

-- A value comes out of a chain of tests exactly if each of them lets it through.
pub when_some-eq-some {ℓ κ} :
    {A : Type ℓ} {B : Type κ} (o : Option A) (rest : A → Option B) (b : B)
    → (when_some o none rest ≡ some b) ↔ ((a : A) × (o ≡ some a) × (rest a ≡ some b))
unfolding when_some
when_some-eq-some none rest b = (λ h. cc h, λ (a, e, h). cc e)
when_some-eq-some (some a) rest b =
    (λ h. (a, refl, h), λ (c, e, h). subst (λ x. rest x ≡ some b) (cc e) h)

pub return_if-eq-some {ℓ} :
    {A : Type ℓ} (condition : Bool) (rest : Option A) (a : A)
    → (return_if condition none rest ≡ some a) ↔ ((condition ≡ false) × (rest ≡ some a))
unfolding return_if
return_if-eq-some true rest a = (λ h. cc h, λ h. cc (h.0))
return_if-eq-some false rest a = (λ h. (refl, h), λ h. h.1)
