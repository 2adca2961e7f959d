-- ===== src/Prelude/Tests.antt =====
-- Boolean tests, the conditional, and equality as an instance: `===` of the source.
use Prim.Native.Nat.{ℕ, compare, Ordering}
use Prim.Native.String.{String}
use mathlib.Core.Path.{◌≡◌, refl}
use mathlib.Core.Logic.{◌↔◌, ◌⊎◌, inl, inr}
use mathlib.Core.Bool.{Bool, true, false}
use mathlib.Core.Option.{Option, none, some}
use native.Mathlib.Omega.{arith}
use text.Mathlib.Text.{◌==◌ as str_eq}
use text.Mathlib.TextEquality.{eq_iff}

abbrev pub ltb : ℕ → ℕ → Bool
ltb a b = elim (compare a b) [ Ordering.lt ↦ true | _ ↦ false ]

abbrev pub leb : ℕ → ℕ → Bool
leb a b = elim (compare a b) [ Ordering.gt ↦ false | _ ↦ true ]

abbrev pub nat_beq : ℕ → ℕ → Bool
nat_beq a b = elim (compare a b) [ Ordering.eq ↦ true | _ ↦ false ]

infix 1 if◌then◌else◌
abbrev pub if◌then◌else◌ {ℓ} : {A : Type ℓ} → Bool → A → A → A
if true then x else y = x
if false then x else y = y

pub nat_beq_iff : (a b : ℕ) → (nat_beq a b ≡ true) ↔ (a ≡ b)
nat_beq_iff a b = ground arith

-- how the source's `===` tells two values of a type apart
pub record Equality {ℓ} (A : Type ℓ) : Type ℓ where
  pub equal : A → A → Bool
  pub equal_iff : (a b : A) → (equal a b ≡ true) ↔ (a ≡ b)

instance abbrev pub string_eq : Equality String
string_eq = record { equal = str_eq; equal_iff = eq_iff }

instance abbrev pub nat_eq : Equality ℕ
nat_eq = record { equal = nat_beq; equal_iff = nat_beq_iff }

abbrev pub pair_equal {ℓ κ} :
    {A : Type ℓ} {B : Type κ} → Equality A → Equality B → A × B → A × B → Bool
pair_equal ea eb (a, b) (c, d) = if ea.equal a c then eb.equal b d else false

pub pair_equal_iff {ℓ κ} :
    {A : Type ℓ} {B : Type κ} (ea : Equality A) (eb : Equality B) (x y : A × B)
    → (pair_equal ea eb x y ≡ true) ↔ (x ≡ y)
pair_equal_iff ea eb (a, b) (c, d) = ground (arith, ea.equal_iff a c, eb.equal_iff b d)

instance abbrev pub pair_eq {ℓ κ} :
    {A : Type ℓ} {B : Type κ} ⦃ea : Equality A⦄ ⦃eb : Equality B⦄ → Equality (A × B)
pair_eq ⦃ea⦄ ⦃eb⦄ = record { equal = pair_equal ea eb; equal_iff = pair_equal_iff ea eb }

abbrev pub option_equal {ℓ} : {A : Type ℓ} → Equality A → Option A → Option A → Bool
option_equal ea none none = true
option_equal ea (some a) (some b) = ea.equal a b
option_equal ea _ _ = false

pub option_equal_iff {ℓ} :
    {A : Type ℓ} (ea : Equality A) (x y : Option A) → (option_equal ea x y ≡ true) ↔ (x ≡ y)
option_equal_iff ea none none = ground arith
option_equal_iff ea none (some b) = ground arith
option_equal_iff ea (some a) none = ground arith
option_equal_iff ea (some a) (some b) = ground (arith, ea.equal_iff a b)

instance abbrev pub option_eq {ℓ} : {A : Type ℓ} ⦃ea : Equality A⦄ → Equality (Option A)
option_eq ⦃ea⦄ = record { equal = option_equal ea; equal_iff = option_equal_iff ea }

infix 50 ◌==◌
abbrev pub ◌==◌ {ℓ} : {A : Type ℓ} ⦃e : Equality A⦄ → A → A → Bool
◌==◌ ⦃e⦄ a b = e.equal a b

-- To split on a computed value and keep the equation.
pub Bool-cases : (b : Bool) → (b ≡ true) ⊎ (b ≡ false)
Bool-cases true = inl refl
Bool-cases false = inr refl

pub Option-cases {ℓ} : {A : Type ℓ} (o : Option A) → (o ≡ none) ⊎ ((a : A) × (o ≡ some a))
Option-cases none = inl refl
Option-cases (some a) = inr (a, refl)
