-- ===== src/Prelude/Faults.antt =====
-- What a call of a C++ member function comes to: a value, or the fault at which the process stops.
use mathlib.Core.Bool.{Bool, true, false}

-- A failed `assert`, a member access through a null pointer, an access past the end of a container.
pub data Fault : Type 0 where
  assertion null_pointer out_of_range : Fault

pub data Outcome {ℓ} (A : Type ℓ) : Type ℓ where
  ok : A → Outcome A
  fault : Fault → Outcome A

module _ {ℓ κ} {S : Type ℓ} {T : Type κ} where
  infixl 5 ◌>>=◌
  abbrev pub ◌>>=◌ : Outcome S → (S → Outcome T) → Outcome T
  fault why >>= next = fault why
  ok s >>= next = next s

-- `assert(condition)`; with NDEBUG it does nothing.
abbrev pub check : Bool → Bool → Outcome (Unit {0})
check true condition = ok tt
check false true = ok tt
check false false = fault assertion

infixl 5 ◌>>◌
abbrev pub ◌>>◌ {ℓ} : {B : Type ℓ} → Outcome (Unit {0}) → Outcome B → Outcome B
call >> rest = call >>= λ _. rest

-- What holds of the value, if there is one.
abbrev pub Then {ℓ κ} : {A : Type ℓ} → (A → Type κ) → Outcome A → Type κ
Then P (ok a) = P a
Then P (fault why) = Unit

pub bind-Then {ℓ κ μ ν} :
    {A : Type ℓ} {B : Type κ} (P : A → Type μ) (Q : B → Type ν) (o : Outcome A)
    (next : A → Outcome B)
    → Then P o
    → ((a : A) → P a → Then Q (next a))
    → Then Q (o >>= next)
bind-Then P Q (ok a) next h k = k a h
bind-Then P Q (fault why) next h k = tt

pub check-Then {ℓ μ} :
    {A : Type ℓ} (Q : A → Type μ) (ndebug condition : Bool) (o : Outcome A)
    → Then Q o
    → Then Q (check ndebug condition >> o)
check-Then Q true condition o h = h
check-Then Q false true o h = h
check-Then Q false false o h = tt

pub imp-Then {ℓ μ ν} :
    {A : Type ℓ} (P : A → Type μ) (Q : A → Type ν) (o : Outcome A)
    → Then P o
    → ((a : A) → P a → Q a)
    → Then Q o
imp-Then P Q (ok a) h k = k a h
imp-Then P Q (fault why) h k = tt

pub and-Then {ℓ μ ν} :
    {A : Type ℓ} (P : A → Type μ) (Q : A → Type ν) (o : Outcome A)
    → Then P o
    → Then Q o
    → Then (λ a. P a × Q a) o
and-Then P Q (ok a) h k = (h, k)
and-Then P Q (fault why) h k = tt
