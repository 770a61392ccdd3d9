-- ===== src/Base/Scans.antt =====
-- What a scan finds after an update or an insertion, whichever rows these concern.
use mathlib.Core.Path.{◌≡◌, refl}
use mathlib.Core.Logic.{inl, inr}
use mathlib.Core.Bool.{Bool, true, false}
use mathlib.Core.Option.{Option, none, some}
use mathlib.Core.List.{List, [], ◌∷◌, ◌++◌}
use real_ming.Base.Tests.{if◌then◌else◌, Bool-cases}
use real_ming.Base.Lists.{find, update}

module _ {ℓ} {A : Type ℓ} where
  abbrev pub updated : (A → Bool) → (A → A) → Option A → Option A
  updated q g none = none
  updated q g (some x) = some (if q x then g x else x)

  -- An update that leaves the scanned column alone changes at most the row that the scan finds.
  pub find-update_where :
      (p q : A → Bool) (g : A → A)
      → ((x : A) → p (g x) ≡ p x)
      → (xs : List A) → find p (update q g xs) ≡ updated q g (find p xs)
  find-update_where p q g same [] = refl
  find-update_where p q g same (x ∷ xs) = elim (Bool-cases (q x)) [
    | inl t ↦ elim (Bool-cases (p x)) [
      | inl s ↦ rw (t, same x, s, t) refl
      | inr n ↦ rw (t, same x, n) (find-update_where p q g same xs)
    ]
    | inr f ↦ elim (Bool-cases (p x)) [
      | inl s ↦ rw (f, s, f) refl
      | inr n ↦ rw (f, n) (find-update_where p q g same xs)
    ]
  ]

  abbrev pub or_row : (A → Bool) → A → Option A → Option A
  or_row p x none = if p x then some x else none
  or_row p x (some y) = some y

  pub find-insert :
      (p : A → Bool) (xs : List A) (x : A) → find p (xs ++ (x ∷ [])) ≡ or_row p x (find p xs)
  find-insert p [] x = refl
  find-insert p (y ∷ xs) x = elim (Bool-cases (p y)) [
    | inl s ↦ rw s refl
    | inr n ↦ rw n (find-insert p xs x)
  ]

  -- An update of other rows than those that the scan may find changes nothing of what it finds.
  pub find-update_elsewhere :
      (p q : A → Bool) (g : A → A)
      → ((x : A) → p (g x) ≡ p x)
      → ((x : A) → p x ≡ true → q x ≡ false)
      → (xs : List A) → find p (update q g xs) ≡ find p xs
  find-update_elsewhere p q g same apart [] = refl
  find-update_elsewhere p q g same apart (x ∷ xs) = elim (Bool-cases (p x)) [
    | inl s ↦ rw (apart x s, s) refl
    | inr n ↦ elim (Bool-cases (q x)) [
      | inl t ↦ rw (t, same x, n) (find-update_elsewhere p q g same apart xs)
      | inr f ↦ rw (f, n) (find-update_elsewhere p q g same apart xs)
    ]
  ]

  pub or_row-miss : (p : A → Bool) (x : A) (o : Option A) → p x ≡ false → or_row p x o ≡ o
  or_row-miss p x none f = rw f refl
  or_row-miss p x (some y) f = refl
