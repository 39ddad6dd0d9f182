-- ===== src/Base/Tests.antt =====
-- Boolean tests on the native numbers and on texts, the conditional, and case lemmas.
use Prim.Native.Nat.{ℕ, ◌≤◌, ◌<◌, compare, Ordering}
use Prim.Native.String.{String}
use mathlib.Core.Path.{◌≡◌, refl}
use mathlib.Core.Logic.{◌≢◌, ◌↔◌, ◌⊎◌, inl, inr}
use mathlib.Core.Bool.{Bool, true, false}
use mathlib.Core.Option.{Option, none, some}
use native.Mathlib.Omega.{arith}
use text.Mathlib.Text.{◌==◌ as str_eq}
use text.Mathlib.TextEquality.{eq_iff}

abbrev pub ltb : ℕ → ℕ → Bool
ltb a b = elim (compare a b) [ Ordering.lt ↦ true | _ ↦ false ]

abbrev pub leb : ℕ → ℕ → Bool
leb a b = elim (compare a b) [ Ordering.gt ↦ false | _ ↦ true ]

abbrev pub nat_beq : ℕ → ℕ → Bool
nat_beq a b = elim (compare a b) [ Ordering.eq ↦ true | _ ↦ false ]

infix 1 if◌then◌else◌
abbrev pub if◌then◌else◌ {ℓ} : {A : Type ℓ} → Bool → A → A → A
if true then x else y = x
if false then x else y = y

pub ltb→lt : (a b : ℕ) → ltb a b ≡ true → a < b
ltb→lt a b h = ground arith

pub lt→ltb : (a b : ℕ) → a < b → ltb a b ≡ true
lt→ltb a b h = ground arith

pub leb→le : (a b : ℕ) → leb a b ≡ true → a ≤ b
leb→le a b h = ground arith

pub le→leb : (a b : ℕ) → a ≤ b → leb a b ≡ true
le→leb a b h = ground arith

pub nat_beq_iff : (a b : ℕ) → (nat_beq a b ≡ true) ↔ (a ≡ b)
nat_beq_iff a b = ground arith

-- To split on a computed value and keep the equation.
pub Bool-cases : (b : Bool) → (b ≡ true) ⊎ (b ≡ false)
Bool-cases true = inl refl
Bool-cases false = inr refl

pub Option-cases {ℓ} : {A : Type ℓ} (o : Option A) → (o ≡ none) ⊎ ((a : A) × (o ≡ some a))
Option-cases none = inl refl
Option-cases (some a) = inr (a, refl)

-- Python's `==` where it decides equality.
pub record DecEq {ℓ} (A : Type ℓ) : Type ℓ where
  pub same : A → A → Bool
  pub same_iff : (a b : A) → (same a b ≡ true) ↔ (a ≡ b)

infix 50 ◌==◌
abbrev pub ◌==◌ {ℓ} : {A : Type ℓ} ⦃e : DecEq A⦄ → A → A → Bool
◌==◌ ⦃e⦄ = e.same

module _ {ℓ} {A : Type ℓ} ⦃e : DecEq A⦄ where
  pub ==_true : (a : A) → (a == a) ≡ true
  ==_true a = (e.same_iff a a).1 refl

  pub ==_false : {a b : A} → a ≢ b → (a == b) ≡ false
  ==_false {a} {b} h = elim (Bool-cases (a == b)) [
    | inl same ↦ absurd (h ((e.same_iff a b).0 same))
    | inr other ↦ other
  ]

  pub ==_sound : {a b : A} → (a == b) ≡ true → a ≡ b
  ==_sound {a} {b} h = (e.same_iff a b).0 h

instance abbrev pub nat_eq : DecEq ℕ
nat_eq = record { same = nat_beq; same_iff = nat_beq_iff }

instance abbrev pub string_eq : DecEq String
string_eq = record { same = str_eq; same_iff = eq_iff }

pub decided {ℓ} : {A : Type ℓ} → Dec A → Bool
decided (yes a) = true
decided (no n) = false

pub decided_iff {ℓ} : {A : Type ℓ} (d : Dec A) → (decided d ≡ true) ↔ A
unfolding decided
decided_iff (yes a) = ((λ h. a), λ h. refl)
decided_iff (no n) = ((λ h. cc), λ a. absurd (n a))

-- An enumeration's `==`, from a decision of equality.
unfoldable pub Discrete→DecEq {ℓ} : {A : Type ℓ} → Discrete A → DecEq A
unfolding decided
Discrete→DecEq d = record { same = λ a b. decided (d a b); same_iff = λ a b. decided_iff (d a b) }
