-- ===== src/Base/Clashes.antt =====
-- Rows that do not clash: the unique keys of the source's tables, in both directions of the clash.
use mathlib.Core.Path.{◌≡◌, sym, ◌∙◌}
use mathlib.Core.Logic.{inl, inr}
use mathlib.Core.Bool.{Bool, true, false, true≢false as true-ne-false}
use mathlib.Core.List.{List, [], ◌∷◌, ◌++◌}
use real_ming.Base.Tests.{if◌then◌else◌, Bool-cases}
use real_ming.Base.Lists.{exists, update, All, All-append, exists-eq-false}

module _ {ℓ} {A : Type ℓ} (clash : A → A → Bool) where
  -- No row clashes with an earlier one.
  abbrev pub Distinct : List A → Type 0
  Distinct [] = Unit
  Distinct (x ∷ xs) = All (λ y. clash y x ≡ false) xs × Distinct xs

  Distinct-append :
      (x : A) (xs : List A)
      → All (λ y. clash x y ≡ false) xs
      → Distinct xs
      → Distinct (xs ++ (x ∷ []))
  Distinct-append x [] h k = (tt, tt)
  Distinct-append x (y ∷ xs) (h, hs) (k, ks) =
      (All-append _ xs (x ∷ []) k (h, tt), Distinct-append x xs hs ks)

  -- A row that no stored row clashes with keeps the rows distinct.
  pub Distinct-insert :
      (x : A) (xs : List A) → exists (clash x) xs ≡ false → Distinct xs → Distinct (xs ++ (x ∷ []))
  Distinct-insert x xs fresh k = Distinct-append x xs (exists-eq-false (clash x) xs fresh) k

  module _ (p : A → Bool) (f : A → A)
      (same : (x y : A) → clash (if p x then f x else x) (if p y then f y else y) ≡ clash x y) where
    All-clash :
        (y : A) (xs : List A)
        → All (λ x. clash x y ≡ false) xs
        → All (λ x. clash x (if p y then f y else y) ≡ false) (update p f xs)
    All-clash y [] h = tt
    All-clash y (x ∷ xs) (h, hs) = (same x y ∙ h, All-clash y xs hs)

    -- An update that leaves the keys alone keeps the rows distinct.
    pub Distinct-update : (xs : List A) → Distinct xs → Distinct (update p f xs)
    Distinct-update [] k = tt
    Distinct-update (x ∷ xs) (k, ks) = (All-clash x xs k, Distinct-update xs ks)

module _ {ℓ} {A : Type ℓ} (q : A → Bool) where
  pub exists-append : (xs : List A) (x : A) → exists q xs ≡ true → exists q (xs ++ (x ∷ [])) ≡ true
  exists-append [] x h = absurd (true-ne-false (sym h))
  exists-append (y ∷ xs) x h = elim (Bool-cases (q y)) [
    | inl t ↦ rw t
    | inr f ↦ rw f (exists-append xs x (rw f at h))
  ]

  -- A row that passes the test still does after an update that keeps such rows passing.
  pub exists-update :
      (p : A → Bool) (f : A → A)
      → ((x : A) → q x ≡ true → q (if p x then f x else x) ≡ true)
      → (xs : List A) → exists q xs ≡ true
      → exists q (update p f xs) ≡ true
  exists-update p f keeps [] h = absurd (true-ne-false (sym h))
  exists-update p f keeps (y ∷ xs) h = elim (Bool-cases (q y)) [
    | inl t ↦ rw (keeps y t)
    | inr g ↦ elim (Bool-cases (q (if p y then f y else y))) [
      | inl t ↦ rw t
      | inr e ↦ rw e (exists-update p f keeps xs (rw g at h))
    ]
  ]
