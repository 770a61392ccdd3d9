-- ===== src/Base/Tests.antt =====
-- Boolean tests, and equality as an interface with its law.
use Prim.Native.Nat.{ℕ, ◌≤◌, ◌<◌, compare, Ordering}
use Prim.Native.String.{String}
use mathlib.Core.Path.{◌≡◌, refl, sym, ◌∙◌}
use mathlib.Core.Logic.{◌⊎◌, inl, inr, ◌↔◌, ◌≢◌}
use mathlib.Core.Bool.{Bool, true, false, true≢false}
use mathlib.Core.Option.{Option, none, some}
use native.Mathlib.Omega.{arith}
use text.Mathlib.Text.{◌==◌ as text_eq}
use text.Mathlib.TextEquality.{eq_iff}

infix 1 if◌then◌else◌
abbrev pub if◌then◌else◌ {ℓ} : {A : Type ℓ} → Bool → A → A → A
if true then x else y = x
if false then x else y = y

abbrev pub ltb : ℕ → ℕ → Bool
ltb a b = elim (compare a b) [ Ordering.lt ↦ true | _ ↦ false ]

abbrev pub leb : ℕ → ℕ → Bool
leb a b = elim (compare a b) [ Ordering.gt ↦ false | _ ↦ true ]

abbrev pub nat_eq : ℕ → ℕ → Bool
nat_eq a b = elim (compare a b) [ Ordering.eq ↦ true | _ ↦ false ]

pub nat_eq_iff : (a b : ℕ) → (nat_eq a b ≡ true) ↔ (a ≡ b)
nat_eq_iff a b = (λ h. ground arith, λ h. ground arith)

pub leb→le : (a b : ℕ) → leb a b ≡ true → a ≤ b
leb→le a b h = ground arith

pub ltb→lt : (a b : ℕ) → ltb a b ≡ true → a < b
ltb→lt a b h = ground arith

-- The source's `===`, with its law.
pub record Eq {ℓ} (A : Type ℓ) : Type ℓ where
  pub test : A → A → Bool
  pub test_iff : (a b : A) → (test a b ≡ true) ↔ (a ≡ b)

infix 50 ◌==◌
abbrev pub ◌==◌ {ℓ} : {A : Type ℓ} ⦃e : Eq A⦄ → A → A → Bool
◌==◌ ⦃e⦄ = e.test

instance abbrev pub ℕ_eq : Eq ℕ
ℕ_eq = record { test = nat_eq; test_iff = nat_eq_iff }

instance abbrev pub String_eq : Eq String
String_eq = record { test = text_eq; test_iff = eq_iff }

pub eq_test {ℓ} : {A : Type ℓ} ⦃e : Eq A⦄ → (a b : A) → (a == b) ≡ true → a ≡ b
eq_test ⦃e⦄ a b = (e.test_iff a b).0

pub test_self {ℓ} : {A : Type ℓ} ⦃e : Eq A⦄ → (a : A) → (a == a) ≡ true
test_self ⦃e⦄ a = (e.test_iff a a).1 refl

-- A decision as a test.
abbrev pub holds {ℓ} : {P : Type ℓ} → Dec P → Bool
holds (yes p) = true
holds (no p) = false

pub holds_iff {ℓ} : {A : Type ℓ} {a b : A} → (d : Dec (a ≡ b)) → (holds d ≡ true) ↔ (a ≡ b)
holds_iff (yes p) = (λ _. p, λ _. refl)
holds_iff (no p) = (λ e. cc, λ e. absurd (p e))

pub Bool-cases : (b : Bool) → (b ≡ true) ⊎ (b ≡ false)
Bool-cases true = inl refl
Bool-cases false = inr refl

pub Option-cases {ℓ} : {A : Type ℓ} → (o : Option A) → (o ≡ none) ⊎ ((a : A) × (o ≡ some a))
Option-cases none = inl refl
Option-cases (some a) = inr (a, refl)

pub test_ne {ℓ} : {A : Type ℓ} ⦃e : Eq A⦄ → (a b : A) → a ≢ b → (a == b) ≡ false
test_ne ⦃e⦄ a b ne = elim (Bool-cases (e.test a b)) [
  | inl same ↦ absurd (ne ((e.test_iff a b).0 same))
  | inr differ ↦ differ
]

pub test_sym {ℓ} : {A : Type ℓ} ⦃e : Eq A⦄ → (a b : A) → (a == b) ≡ (b == a)
test_sym ⦃e⦄ a b = elim (Bool-cases (e.test a b)) [
  | inl same ↦ same ∙ sym ((e.test_iff b a).1 (sym ((e.test_iff a b).0 same)))
  | inr differ ↦
      differ
      ∙ sym (test_ne ⦃e = e⦄ b a (λ p. true≢false (sym ((e.test_iff a b).1 (sym p)) ∙ differ)))
]
