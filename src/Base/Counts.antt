-- ===== src/Base/Counts.antt =====
-- Whether a row with a property is left after a scan, and how many rows have it.
use Prim.Native.Nat.{ℕ, ◌+◌}
use mathlib.Core.Path.{◌≡◌, refl, ap}
use mathlib.Core.Logic.{inl, inr}
use mathlib.Core.Bool.{Bool, true, false, ◌||◌, ◌&&◌}
use mathlib.Core.Option.{some, some-injective, none-ne-some}
use mathlib.Core.List.{List, [], ◌∷◌, ◌++◌, map}
use native.Mathlib.Omega.{arith}
use real_ming.Base.Tests.{Bool-cases}
use real_ming.Base.Lists.{find, select, exists, update, All}
use real_ming.Base.Clashes.{Distinct}

abbrev pub one_if : Bool → ℕ
one_if true = 1
one_if false = 0

module _ {ℓ} {A : Type ℓ} where
  -- `xs.filter(p).length`
  abbrev pub count : (A → Bool) → List A → ℕ
  count p [] = 0
  count p (x ∷ xs) = one_if (p x) + count p xs

  pub count-append : (p : A → Bool) (xs ys : List A) → count p (xs ++ ys) ≡ count p xs + count p ys
  count-append p [] ys = omega arith
  count-append p (x ∷ xs) ys = omega (arith, count-append p xs ys)

  pub exists-map {κ} :
      {B : Type κ} (q : B → Bool) (f : A → B) (xs : List A)
      → exists q (map f xs) ≡ exists (λ x. q (f x)) xs
  exists-map q f [] = refl
  exists-map q f (x ∷ xs) = ap (λ b. q (f x) || b) (exists-map q f xs)

  pub exists-select :
      (q p : A → Bool) (xs : List A) → exists q (select p xs) ≡ exists (λ x. p x && q x) xs
  exists-select q p [] = refl
  exists-select q p (x ∷ xs) = elim (Bool-cases (p x)) [
    | inl t ↦ rw t (ap (λ b. q x || b) (exists-select q p xs))
    | inr f ↦ rw f (exists-select q p xs)
  ]

  pub exists-same :
      (p q : A → Bool) → ((x : A) → p x ≡ q x) → (xs : List A) → exists p xs ≡ exists q xs
  exists-same p q same [] = refl
  exists-same p q same (x ∷ xs) = rw (same x, exists-same p q same xs) refl

  -- A row that was just inserted is there.
  pub exists-last :
      (p : A → Bool) (xs : List A) (x : A) → p x ≡ true → exists p (xs ++ (x ∷ [])) ≡ true
  exists-last p [] x h = rw h refl
  exists-last p (y ∷ xs) x h = elim (Bool-cases (p y)) [
    | inl t ↦ rw t refl
    | inr f ↦ rw f (exists-last p xs x h)
  ]

  -- An update whose rows are none changes nothing.
  pub update-none :
      (p : A → Bool) (f : A → A) (xs : List A) → All (λ x. p x ≡ false) xs → update p f xs ≡ xs
  update-none p f [] h = refl
  update-none p f (x ∷ xs) (n, h) = rw n (ap (λ r. x ∷ r) (update-none p f xs h))

  pub exists-none : (p : A → Bool) (xs : List A) → All (λ x. p x ≡ false) xs → exists p xs ≡ false
  exists-none p [] h = refl
  exists-none p (x ∷ xs) (n, h) = rw n (exists-none p xs h)

  module _ (clash : A → A → Bool) (is_it p : A → Bool)
      (clear : (x y : A) → clash y x ≡ false → is_it x ≡ true → (p y && is_it y) ≡ false) where
    none_later :
        (x : A) (xs : List A)
        → is_it x ≡ true
        → All (λ y. clash y x ≡ false) xs
        → All (λ y. (p y && is_it y) ≡ false) xs
    none_later x [] t h = tt
    none_later x (y ∷ ys) t (n, h) = (clear x y n t, none_later x ys t h)

    -- Among rows that do not clash, one that a scan for a key finds is the only one with the key.
    pub exists-Distinct :
        (xs : List A) {d : A}
        → Distinct clash xs
        → find is_it xs ≡ some d
        → exists (λ x. p x && is_it x) xs ≡ p d
    exists-Distinct [] k e = absurd (none-ne-some _ e)
    exists-Distinct (x ∷ xs) {d} (h, k) e = elim (Bool-cases (is_it x)) [
      | inl t ↦
          let same : x ≡ d = some-injective _ _ (rw t at e) in
          let rest = exists-none (λ y. p y && is_it y) xs (none_later x xs t h) in
          rw (t, rest, ← same) (ground arith)
      | inr f ↦
          let none_here : (p x && is_it x) ≡ false = ground arith in
          rw none_here (exists-Distinct xs k (rw f at e))
    ]
