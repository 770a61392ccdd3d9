-- ===== src/Base/Texts.antt =====
-- Texts as the source uses them: the order `<=` of strings, `startsWith` and `trim() === ""`.
-- A text is compared by code points. JavaScript compares UTF-16 units, which is the same order
-- below U+D800, where all timestamps lie.
use Prim.Native.Nat.{ℕ, zero, suc, ◌/◌, ◌%◌}
use Prim.Native.Char.{code}
use Prim.Native.String.{String, [], ◌∷◌, ◌++◌ as joined}
use mathlib.Core.Path.{◌≡◌, refl}
use mathlib.Core.Bool.{Bool, true, false, not, ◌&&◌, ◌||◌}
use native.Mathlib.Omega.{arith}
use real_ming.Base.Tests.{if◌then◌else◌, ltb, leb, ◌==◌, ℕ_eq}

unfoldable pub text_leb : String → String → Bool
text_leb [] t = true
text_leb (c ∷ s) [] = false
text_leb (c ∷ s) (d ∷ t) = ltb (code c) (code d) || (code c == code d && text_leb s t)

-- `a > b` of two strings.
abbrev pub text_gtb : String → String → Bool
text_gtb a b = not (text_leb a b)

pub text_leb_refl : (s : String) → text_leb s s ≡ true
unfolding text_leb
text_leb_refl [] = refl
text_leb_refl (c ∷ s) = ground (arith, text_leb_refl s)

pub text_leb_trans :
    (s t u : String) → text_leb s t ≡ true → text_leb t u ≡ true → text_leb s u ≡ true
unfolding text_leb
text_leb_trans [] t u p q = refl
text_leb_trans (c ∷ s) [] u p q = ground arith
text_leb_trans (c ∷ s) (d ∷ t) [] p q = ground arith
text_leb_trans (c ∷ s) (d ∷ t) (e ∷ u) p q = ground (arith, text_leb_trans s t u)

pub text_leb_total : (s t : String) → text_leb s t ≡ false → text_leb t s ≡ true
unfolding text_leb
text_leb_total [] t p = ground arith
text_leb_total (c ∷ s) [] p = refl
text_leb_total (c ∷ s) (d ∷ t) p = ground (arith, text_leb_total s t)

unfoldable pub starts_with : String → String → Bool
starts_with s [] = true
starts_with [] (d ∷ t) = false
starts_with (c ∷ s) (d ∷ t) = code c == code d && starts_with s t

-- The white space and line terminators that `trim` removes.
is_space : ℕ → Bool
is_space c =
    (leb 9 c && leb c 13)
    || c == 32
    || c == 160
    || c == 0x1680
    || (leb 0x2000 c && leb c 0x200a)
    || c == 0x2028
    || c == 0x2029
    || c == 0x202f
    || c == 0x205f
    || c == 0x3000
    || c == 0xfeff

-- `s.trim() === ""`
unfoldable pub is_blank : String → Bool
unfolding is_space
is_blank [] = true
is_blank (c ∷ s) = is_space (code c) && is_blank s

digit : ℕ → String
digit n =
    if n == 0
    then "0"
    else if n == 1
    then "1"
    else if n == 2
    then "2"
    else if n == 3
    then "3"
    else if n == 4
    then "4"
    else if n == 5
    then "5"
    else if n == 6
    then "6"
    else if n == 7
    then "7"
    else if n == 8
    then "8"
    else "9"

decimal_from : ℕ → ℕ → String → String
decimal_from zero n text = text
decimal_from (suc fuel) n text =
    let longer = joined (digit (n % 10)) text in
    let rest = decimal_from fuel (n / 10) longer in if ltb n 10 then longer else rest

-- `${n}`. A number has no more digits than its own value, plus one.
unfoldable pub decimal : ℕ → String
unfolding decimal_from digit
decimal n = decimal_from (suc n) n ""

decimal_1204 : decimal 1204 ≡ "1204"
unfolding decimal
decimal_1204 = refl
