-- ===== src/Common/Decimal.antt =====
-- Decimal numerals: Python's `int` and `str` of a number, and `str.zfill`.
use Prim.Native.Nat.{ℕ, zero, suc, ◌+◌, ◌-◌, ◌*◌, ◌/◌, ◌%◌, ◌≤◌, ◌<◌}
use mathlib.Core.Path.{◌≡◌, refl, ◌∙◌}
use mathlib.Core.Bool.{Bool, true, false}
use mathlib.Core.List.{[], ◌∷◌, ◌++◌}
use native.Mathlib.Omega.{arith}
use lord_hermes.Common.Tests.{ltb, if◌then◌else◌}
use lord_hermes.Common.Lists.{length, All, All-append}
use lord_hermes.Common.Text.{Text, is_digit}

-- int(text), of a text of ASCII digits.
int_from : ℕ → Text → ℕ
int_from n [] = n
int_from n (c ∷ text) = int_from (n * 10 + (c - b'0')) text

unfoldable pub int : Text → ℕ
unfolding int_from
int text = int_from 0 text

-- str(n): the digits of n / 10, and the last digit. One round more than n is enough.
str_rounds : ℕ → ℕ → Text
str_rounds zero n = []
str_rounds (suc rounds) n =
    let rest = str_rounds rounds (n / 10) ++ (b'0' + n % 10) ∷ [] in
    if ltb n 10 then (b'0' + n) ∷ [] else rest

unfoldable pub str : ℕ → Text
unfolding str_rounds
str n = str_rounds (suc n) n

zeros : ℕ → Text → Text
zeros zero text = text
zeros (suc n) text = b'0' ∷ zeros n text

unfoldable pub zfill : ℕ → Text → Text
unfolding zeros
zfill width text = zeros (width - length text) text

int_from-append :
    (n c : ℕ) (text : Text) → int_from n (text ++ c ∷ []) ≡ int_from n text * 10 + (c - b'0')
unfolding int_from
int_from-append n c [] = refl
int_from-append n c (d ∷ text) = int_from-append (n * 10 + (d - b'0')) c text

int-str_rounds : (rounds n : ℕ) → n < rounds → int_from 0 (str_rounds rounds n) ≡ n
unfolding str_rounds int_from
int-str_rounds zero n h = absurd (omega arith)
int-str_rounds (suc rounds) n h = ground (
  arith,
  int_from-append 0 (b'0' + n % 10) (str_rounds rounds (n / 10)),
  int-str_rounds rounds (n / 10),
)

int-zeros : (n : ℕ) (text : Text) → int_from 0 (zeros n text) ≡ int_from 0 text
unfolding int_from zeros
int-zeros zero text = refl
int-zeros (suc n) text = int-zeros n text

-- int(str(n).zfill(width)) == n
pub int-zfill-str : (width n : ℕ) → int (zfill width (str n)) ≡ n
unfolding int zfill str
int-zfill-str width n =
    int-zeros (width - length (str n)) (str n) ∙ int-str_rounds (suc n) n (omega arith)

digit_char : (d : ℕ) → d < 10 → is_digit (b'0' + d) ≡ true
unfolding is_digit
digit_char d h = ground arith

str_rounds-All : (rounds n : ℕ) → All (λ c. is_digit c ≡ true) (str_rounds rounds n)
unfolding str_rounds
str_rounds-All zero n = tt
str_rounds-All (suc rounds) n = by_size (ltb n 10) refl (str_rounds-All rounds (n / 10))
  where
    by_size :
        (b : Bool)
        → ltb n 10 ≡ b
        → All (λ c. is_digit c ≡ true) (str_rounds rounds (n / 10))
        → All
            (λ c. is_digit c ≡ true)
            (if b then (b'0' + n) ∷ [] else str_rounds rounds (n / 10) ++ (b'0' + n % 10) ∷ [])
    by_size true e ih = (digit_char n (ground arith), tt)
    by_size false e ih =
        All-append (λ c. is_digit c ≡ true) (str_rounds rounds (n / 10)) _ ih
          (digit_char (n % 10) (omega arith), tt)

zeros-All :
    (n : ℕ) (text : Text)
    → All (λ c. is_digit c ≡ true) text
    → All (λ c. is_digit c ≡ true) (zeros n text)
unfolding zeros is_digit
zeros-All zero text h = h
zeros-All (suc n) text h = (refl, zeros-All n text h)

pub zfill-All : (width n : ℕ) → All (λ c. is_digit c ≡ true) (zfill width (str n))
unfolding zfill str
zfill-All width n = zeros-All (width - length (str n)) (str n) (str_rounds-All (suc n) n)

length-zeros : (n : ℕ) (text : Text) → length (zeros n text) ≡ n + length text
unfolding zeros
length-zeros zero text = omega arith
length-zeros (suc n) text = omega (arith, length-zeros n text)

pub zfill-length : (width : ℕ) (text : Text) → width ≤ length (zfill width text)
unfolding zfill
zfill-length width text = omega (arith, length-zeros (width - length text) text)
