-- ===== src/Base/Lists.antt =====
-- Lists as the source's arrays and table scans.
use Prim.Native.Nat.{ℕ, zero, suc, ◌+◌}
use mathlib.Core.Path.{◌≡◌, refl, sym, ◌∙◌}
use mathlib.Core.Logic.{inl, inr}
use mathlib.Core.Bool.{Bool, true, false, ◌||◌, ◌&&◌, true≢false as true-ne-false}
use mathlib.Core.Option.{Option, none, some, some-injective, none-ne-some}
use mathlib.Core.List.{List, [], ◌∷◌, ◌++◌, Memᴰ}
use mathlib.Core.List.Memᴰ
use native.Mathlib.Omega.{arith}
use real_ming.Base.Tests.{if◌then◌else◌, Bool-cases}

module _ {ℓ} {A : Type ℓ} where
  abbrev pub length : List A → ℕ
  length [] = 0
  length (x ∷ xs) = suc (length xs)

  -- `xs.find(p)`
  abbrev pub find : (A → Bool) → List A → Option A
  find p [] = none
  find p (x ∷ xs) = if p x then some x else find p xs

  -- `xs.filter(p)`, and the rows of a `SELECT … WHERE p`
  abbrev pub select : (A → Bool) → List A → List A
  select p [] = []
  select p (x ∷ xs) = if p x then x ∷ select p xs else select p xs

  -- `xs.some(p)`
  abbrev pub exists : (A → Bool) → List A → Bool
  exists p [] = false
  exists p (x ∷ xs) = p x || exists p xs

  -- `xs.slice(0, n)`
  abbrev pub take : ℕ → List A → List A
  take n [] = []
  take zero (x ∷ xs) = []
  take (suc n) (x ∷ xs) = x ∷ take n xs

  -- `xs.every(p)`
  abbrev pub all : (A → Bool) → List A → Bool
  all p [] = true
  all p (x ∷ xs) = p x && all p xs

  -- `UPDATE … SET f WHERE p`
  abbrev pub update : (A → Bool) → (A → A) → List A → List A
  update p f [] = []
  update p f (x ∷ xs) = (if p x then f x else x) ∷ update p f xs

  -- `xs.at(-1)`
  abbrev pub last : List A → Option A
  last [] = none
  last (x ∷ []) = some x
  last (x ∷ y ∷ xs) = last (y ∷ xs)

  abbrev pub All {κ} : (A → Type κ) → List A → Type κ
  All P [] = Unit
  All P (x ∷ xs) = P x × All P xs

  pub length-append : (xs ys : List A) → length (xs ++ ys) ≡ length xs + length ys
  length-append [] ys = omega arith
  length-append (x ∷ xs) ys = omega (arith, length-append xs ys)

module _ {ℓ κ} {A : Type ℓ} (P : A → Type κ) where
  pub All-append : (xs ys : List A) → All P xs → All P ys → All P (xs ++ ys)
  All-append [] ys _ k = k
  All-append (x ∷ xs) ys (p, h) k = (p, All-append xs ys h k)

  pub All-weaken {μ} :
      (Q : A → Type μ) → ((a : A) → P a → Q a) → (xs : List A) → All P xs → All Q xs
  All-weaken Q f [] _ = tt
  All-weaken Q f (x ∷ xs) (p, h) = (f x p, All-weaken Q f xs h)

  pub All-update {μ} :
      (Q : A → Type μ) (p : A → Bool) (f : A → A)
      → ((a : A) → P a → Q (if p a then f a else a))
      → (xs : List A) → All P xs
      → All Q (update p f xs)
  All-update Q p f g [] _ = tt
  All-update Q p f g (x ∷ xs) (h, k) = (g x h, All-update Q p f g xs k)

  -- What a scan finds has the scanned property, and what all rows have.
  pub find-All :
      (p : A → Bool) (xs : List A) {a : A} → find p xs ≡ some a → All P xs → P a × (p a ≡ true)
  find-All p [] e _ = cc
  find-All p (x ∷ xs) e (q, h) = elim (Bool-cases (p x)) [
    | inl s ↦ let same : x ≡ _ = some-injective _ _ (rw s at e) in rw (← same) (q, s)
    | inr f ↦ find-All p xs (rw f at e) h
  ]

module _ {ℓ} {A : Type ℓ} where
  -- A scan that finds nothing has tested every row.
  pub find-eq-none : (p : A → Bool) (xs : List A) → find p xs ≡ none → All (λ x. p x ≡ false) xs
  find-eq-none p [] e = tt
  find-eq-none p (x ∷ xs) e = elim (Bool-cases (p x)) [
    | inl s ↦ absurd (none-ne-some _ (sym (rw s at e)))
    | inr f ↦ (f, find-eq-none p xs (rw f at e))
  ]

  pub find-Mem : (p : A → Bool) (xs : List A) {a : A} → find p xs ≡ some a → Memᴰ a xs
  find-Mem p [] e = cc
  find-Mem p (x ∷ xs) e = elim (Bool-cases (p x)) [
    | inl s ↦ Memᴰ.head (sym (some-injective _ _ (rw s at e)))
    | inr f ↦ Memᴰ.tail (find-Mem p xs (rw f at e))
  ]

  pub find-test : (p : A → Bool) (xs : List A) {a : A} → find p xs ≡ some a → p a ≡ true
  find-test p [] e = cc
  find-test p (x ∷ xs) e = elim (Bool-cases (p x)) [
    | inl s ↦ let same : x ≡ _ = some-injective _ _ (rw s at e) in rw (← same) s
    | inr f ↦ find-test p xs (rw f at e)
  ]

  -- A row with the tested property makes the scan find a row.
  pub find_of_Mem :
      (p : A → Bool) (xs : List A) {a : A} → Memᴰ a xs → p a ≡ true → (b : A) × (find p xs ≡ some b)
  find_of_Mem p [] m h = elim m [ ]
  find_of_Mem p (x ∷ xs) m h = elim (Bool-cases (p x)) [
    | inl s ↦ (x, rw s refl)
    | inr f ↦ elim (Memᴰ.cases_cons m) [
      | inl e ↦ absurd (true-ne-false (sym (rw e at h) ∙ f))
      | inr later ↦ rw f (find_of_Mem p xs later h)
    ]
  ]

  pub select-Mem :
      (p : A → Bool) (xs : List A) {a : A} → Memᴰ a (select p xs) → Memᴰ a xs × (p a ≡ true)
  select-Mem p [] m = elim m [ ]
  select-Mem p (x ∷ xs) m = elim (Bool-cases (p x)) [
    | inl s ↦ elim (Memᴰ.cases_cons (rw s at m)) [
      | inl e ↦ (Memᴰ.head e, rw e s)
      | inr later ↦ let (there, t) = select-Mem p xs later in (Memᴰ.tail there, t)
    ]
    | inr f ↦ let (there, t) = select-Mem p xs (rw f at m) in (Memᴰ.tail there, t)
  ]

  pub Mem-select :
      (p : A → Bool) (xs : List A) {a : A} → Memᴰ a xs → p a ≡ true → Memᴰ a (select p xs)
  Mem-select p [] m t = elim m [ ]
  Mem-select p (x ∷ xs) m t = elim (Bool-cases (p x)) [
    | inl s ↦ elim (Memᴰ.cases_cons m) [
      | inl e ↦ rw s (Memᴰ.head e)
      | inr later ↦ rw s (Memᴰ.tail (Mem-select p xs later t))
    ]
    | inr f ↦ elim (Memᴰ.cases_cons m) [
      | inl e ↦ absurd (true-ne-false (sym (rw e at t) ∙ f))
      | inr later ↦ rw f (Mem-select p xs later t)
    ]
  ]

  pub exists_of_find :
      (p : A → Bool) (xs : List A) {a : A} → find p xs ≡ some a → exists p xs ≡ true
  exists_of_find p [] e = cc
  exists_of_find p (x ∷ xs) e = elim (Bool-cases (p x)) [
    | inl s ↦ rw s
    | inr f ↦ rw f (exists_of_find p xs (rw f at e))
  ]

  -- A test that holds of no row fails of each.
  pub exists-eq-false :
      (p : A → Bool) (xs : List A) → exists p xs ≡ false → All (λ x. p x ≡ false) xs
  exists-eq-false p [] e = tt
  exists-eq-false p (x ∷ xs) e = elim (Bool-cases (p x)) [
    | inl s ↦ absurd (true-ne-false (rw s at e))
    | inr f ↦ (f, exists-eq-false p xs (rw f at e))
  ]

  pub All-both {κ μ ν} :
      (P : A → Type κ) (Q : A → Type μ) (R : A → Type ν)
      → ((a : A) → P a → Q a → R a)
      → (xs : List A) → All P xs
      → All Q xs
      → All R xs
  All-both P Q R f [] _ _ = tt
  All-both P Q R f (x ∷ xs) (p, h) (q, k) = (f x p q, All-both P Q R f xs h k)

  -- What a scan finds, it finds after an update that leaves the scanned columns as they are.
  pub find-update :
      (p : A → Bool) (f : A → A) (xs : List A) {a : A}
      → ((x : A) → p (f x) ≡ p x)
      → find p xs ≡ some a
      → find p (update p f xs) ≡ some (f a)
  find-update p f [] same e = cc
  find-update p f (x ∷ xs) same e = elim (Bool-cases (p x)) [
    | inl s ↦ let it : x ≡ _ = some-injective _ _ (rw s at e) in rw (s, same x, s, it) refl
    | inr n ↦ rw (n, n) (find-update p f xs same (rw n at e))
  ]

pub All-Mem {ℓ κ} : {A : Type ℓ} (P : A → Type κ) (xs : List A) {a : A} → All P xs → Memᴰ a xs → P a
All-Mem P [] h m = elim m [ ]
All-Mem P (x ∷ xs) (p, h) m = elim (Memᴰ.cases_cons m) [
  | inl e ↦ rw e p
  | inr later ↦ All-Mem P xs h later
]

module _ {ℓ} {A : Type ℓ} where
  -- A row that a test found.
  pub exists_witness :
      (p : A → Bool) (xs : List A) → exists p xs ≡ true → (a : A) × (Memᴰ a xs × (p a ≡ true))
  exists_witness p [] e = absurd (true-ne-false (sym e))
  exists_witness p (x ∷ xs) e = elim (Bool-cases (p x)) [
    | inl s ↦ (x, (Memᴰ.head refl, s))
    | inr f ↦ let (a, (m, t)) = exists_witness p xs (rw f at e) in (a, (Memᴰ.tail m, t))
  ]

  pub exists_of_Mem :
      (p : A → Bool) (xs : List A) {a : A} → Memᴰ a xs → p a ≡ true → exists p xs ≡ true
  exists_of_Mem p [] m t = elim m [ ]
  exists_of_Mem p (x ∷ xs) m t = elim (Bool-cases (p x)) [
    | inl s ↦ rw s refl
    | inr f ↦ elim (Memᴰ.cases_cons m) [
      | inl e ↦ absurd (true-ne-false (sym (rw e at t) ∙ f))
      | inr later ↦ rw f (exists_of_Mem p xs later t)
    ]
  ]

  pub all_Mem : (p : A → Bool) (xs : List A) {a : A} → all p xs ≡ true → Memᴰ a xs → p a ≡ true
  all_Mem p [] h m = elim m [ ]
  all_Mem p (x ∷ xs) h m = elim (Bool-cases (p x)) [
    | inr f ↦ absurd (true-ne-false (sym (rw f at h)))
    | inl s ↦ elim (Memᴰ.cases_cons m) [
      | inl e ↦ rw e s
      | inr later ↦ all_Mem p xs (rw s at h) later
    ]
  ]
