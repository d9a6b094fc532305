-- ===== src/Prelude/Tests.antt =====
-- Boolean tests on the native numbers, the conditional, and equality as an interface.
use Prim.Native.Nat.{ℕ, ◌≤◌, ◌<◌, compare, Ordering}
use Prim.Native.String.{String}
use mathlib.Core.Path.{◌≡◌, refl, sym, ◌∙◌}
use mathlib.Core.Logic.{◌↔◌, ◌⊎◌, inl, inr}
use mathlib.Core.Bool.{Bool, true, false, false≢true}
use mathlib.Core.Option.{Option, none, some}
use native.Mathlib.Omega.{arith}
use text.Mathlib.Text.{◌==◌ as str_eq}
use text.Mathlib.TextEquality.{eq_iff}

-- `a < b`
abbrev pub ltb : ℕ → ℕ → Bool
ltb a b = elim (compare a b) [ Ordering.lt ↦ true | _ ↦ false ]

-- `a <= b`
abbrev pub leb : ℕ → ℕ → Bool
leb a b = elim (compare a b) [ Ordering.gt ↦ false | _ ↦ true ]

abbrev pub nat_beq : ℕ → ℕ → Bool
nat_beq a b = elim (compare a b) [ Ordering.eq ↦ true | _ ↦ false ]

infix 1 if◌then◌else◌
abbrev pub if◌then◌else◌ {ℓ} : {A : Type ℓ} → Bool → A → A → A
if true then x else y = x
if false then x else y = y

pub nat_beq_iff : (a b : ℕ) → (nat_beq a b ≡ true) ↔ (a ≡ b)
nat_beq_iff a b = ground arith

pub Bool-cases : (b : Bool) → (b ≡ true) ⊎ (b ≡ false)
Bool-cases true = inl refl
Bool-cases false = inr refl

pub Option-cases {ℓ} : {A : Type ℓ} (o : Option A) → (o ≡ none) ⊎ ((a : A) × (o ≡ some a))
Option-cases none = inl refl
Option-cases (some a) = inr (a, refl)

-- Python's `==`, at a type where it decides equality.
pub record Eq {κ} (V : Type κ) : Type κ where
  pub eqb : V → V → Bool
  pub eqb_iff : (v w : V) → (eqb v w ≡ true) ↔ (v ≡ w)

infix 50 ◌==◌
abbrev pub ◌==◌ {ℓ} : {A : Type ℓ} ⦃e : Eq A⦄ → A → A → Bool
◌==◌ ⦃e⦄ = e.eqb

instance abbrev pub nat_eq : Eq ℕ
nat_eq = record { eqb = nat_beq; eqb_iff = nat_beq_iff }

-- Equality of optional values, from that of the values.
module _ {ℓ} {A : Type ℓ} where
  abbrev pub option_beq : Eq A → Option A → Option A → Bool
  option_beq e none none = true
  option_beq e none (some _) = false
  option_beq e (some _) none = false
  option_beq e (some a) (some b) = e.eqb a b

  pub option_beq_iff : (e : Eq A) (o p : Option A) → (option_beq e o p ≡ true) ↔ (o ≡ p)
  option_beq_iff e none none = ground arith
  option_beq_iff e none (some _) = ground arith
  option_beq_iff e (some _) none = ground arith
  option_beq_iff e (some a) (some b) = ground (arith, e.eqb_iff a b)

instance abbrev pub option_eq {ℓ} : {A : Type ℓ} ⦃e : Eq A⦄ → Eq (Option A)
option_eq ⦃e⦄ = record { eqb = option_beq e; eqb_iff = option_beq_iff e }

instance abbrev pub string_eq : Eq String
string_eq = record { eqb = str_eq; eqb_iff = eq_iff }

abbrev pub dec_bool {ℓ} : {A : Type ℓ} → Dec A → Bool
dec_bool (yes _) = true
dec_bool (no _) = false

pub dec_bool_iff {ℓ} : {A : Type ℓ} (d : Dec A) → (dec_bool d ≡ true) ↔ A
dec_bool_iff (yes a) = (λ _. a, λ _. refl)
dec_bool_iff (no h) = (λ e. cc, λ a. absurd (h a))

-- Equality from a decision.
abbrev pub eq_of_discrete {ℓ} : {A : Type ℓ} → Discrete A → Eq A
eq_of_discrete d = record { eqb = λ a b. dec_bool (d a b); eqb_iff = λ a b. dec_bool_iff (d a b) }

-- `x is None` and `x is not None`
abbrev pub is_none {ℓ} : {A : Type ℓ} → Option A → Bool
is_none none = true
is_none (some _) = false

abbrev pub is_some {ℓ} : {A : Type ℓ} → Option A → Bool
is_some none = false
is_some (some _) = true

-- `a if a is not None else b`
abbrev pub or_else {ℓ} : {A : Type ℓ} → Option A → Option A → Option A
or_else (some v) o = some v
or_else none o = o

abbrev pub or_default {ℓ} : {A : Type ℓ} → A → Option A → A
or_default a none = a
or_default a (some b) = b

pub le→leb : (a b : ℕ) → a ≤ b → leb a b ≡ true
le→leb a b h = ground arith

pub lt→not_leb : (a b : ℕ) → a < b → leb b a ≡ false
lt→not_leb a b h = ground arith

-- Equality that is tested is decided.
abbrev pub discrete_of_eq {ℓ} : {A : Type ℓ} → Eq A → Discrete A
discrete_of_eq e a b = elim (Bool-cases (e.eqb a b)) [
  | inl same ↦ yes ((e.eqb_iff a b).0 same)
  | inr other ↦ no (λ p. false≢true (sym other ∙ (e.eqb_iff a b).1 p))
]

pub string_discrete : Discrete String
string_discrete = discrete_of_eq string_eq
