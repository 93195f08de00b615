-- ===== src/Base/Tests.antt =====
-- Boolean tests, and the case splits that keep their equations.
use Prim.Native.String.{String}
use Prim.Native.Nat.{ℕ, ◌≤◌, ◌<◌, compare, Ordering}
use mathlib.Core.Path.{◌≡◌, refl, sym, ◌∙◌}
use mathlib.Core.Logic.{◌⊎◌, inl, inr, ◌↔◌, ◌≢◌}
use mathlib.Core.Bool.{Bool, true, false, ◌&&◌, ◌||◌, decide, decide_iff, false≢true}
use mathlib.Core.Option.{Option, none, some}
use text.Mathlib.Text.{◌==◌ as str_beq}
use text.Mathlib.TextEquality.{eq_iff}
use native.Mathlib.Omega.{arith}

abbrev pub ltb : ℕ → ℕ → Bool
ltb a b = elim (compare a b) [ Ordering.lt ↦ true | _ ↦ false ]

abbrev pub leb : ℕ → ℕ → Bool
leb a b = elim (compare a b) [ Ordering.gt ↦ false | _ ↦ true ]

-- How the values of a type are compared, and that the test tells equal values from different ones.
pub record Equality {ℓ} (A : Type ℓ) : Type ℓ where
  pub same : A → A → Bool
  pub reflects : (a b : A) → (same a b ≡ true) ↔ (a ≡ b)

module _ {ℓ} {A : Type ℓ} ⦃e : Equality A⦄ where
  infix 50 ◌==◌
  abbrev pub ◌==◌ : A → A → Bool
  a == b = e.same a b

abbrev same_number : ℕ → ℕ → Bool
same_number a b = elim (compare a b) [ Ordering.eq ↦ true | _ ↦ false ]

pub same_number_iff : (a b : ℕ) → (same_number a b ≡ true) ↔ (a ≡ b)
same_number_iff a b = (λ h. ground arith, λ h. ground arith)

instance abbrev pub string_eq : Equality String
string_eq = record { same = str_beq; reflects = eq_iff }

instance abbrev pub nat_eq : Equality ℕ
nat_eq = record { same = same_number; reflects = same_number_iff }

-- A test of a type whose equality is decided.
abbrev pub eq_of_discrete {ℓ} : {A : Type ℓ} → Discrete A → Equality A
eq_of_discrete d = record { same = λ a b. decide (d a b); reflects = λ a b. decide_iff (d a b) }

infix 1 if◌then◌else◌
abbrev pub if◌then◌else◌ {ℓ} : {A : Type ℓ} → Bool → A → A → A
if true then x else y = x
if false then x else y = y

pub leb→le : (a b : ℕ) → leb a b ≡ true → a ≤ b
leb→le a b h = ground arith

pub leb→gt : (a b : ℕ) → leb a b ≡ false → b < a
leb→gt a b h = ground arith

pub le→leb : (a b : ℕ) → a ≤ b → leb a b ≡ true
le→leb a b h = ground arith

pub gt→leb : (a b : ℕ) → b < a → leb a b ≡ false
gt→leb a b h = ground arith

pub Bool-cases : (b : Bool) → (b ≡ true) ⊎ (b ≡ false)
Bool-cases true = inl refl
Bool-cases false = inr refl

module _ {ℓ} {A : Type ℓ} ⦃e : Equality A⦄ where
  pub ==→eq : {a b : A} → (a == b) ≡ true → a ≡ b
  ==→eq {a} {b} h = (e.reflects a b).0 h

  pub eq→== : {a b : A} → a ≡ b → (a == b) ≡ true
  eq→== {a} {b} h = (e.reflects a b).1 h

  pub ==_refl : (a : A) → (a == a) ≡ true
  ==_refl a = (e.reflects a a).1 refl

  pub ne→== : {a b : A} → a ≢ b → (a == b) ≡ false
  ne→== {a} {b} h = elim (Bool-cases (a == b)) [ inl t ↦ absurd (h (==→eq t)) | inr f ↦ f ]

  pub ==→ne : {a b : A} → (a == b) ≡ false → a ≢ b
  ==→ne {a} {b} h p = false≢true (sym h ∙ eq→== p)

pub Option-cases {ℓ} : {A : Type ℓ} (o : Option A) → (o ≡ none) ⊎ ((a : A) × (o ≡ some a))
Option-cases none = inl refl
Option-cases (some a) = inr (a, refl)

pub &&_true : (a b : Bool) → (a && b) ≡ true → (a ≡ true) × (b ≡ true)
&&_true a b h = ground arith

pub ||_false : (a b : Bool) → (a || b) ≡ false → (a ≡ false) × (b ≡ false)
||_false a b h = ground arith

abbrev pub is_some {ℓ} : {A : Type ℓ} → Option A → Bool
is_some none = false
is_some (some _) = true

abbrev pub is_none {ℓ} : {A : Type ℓ} → Option A → Bool
is_none none = true
is_none (some _) = false
