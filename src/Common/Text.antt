-- ===== src/Common/Text.antt =====
-- Texts as lists of code points, for the code that walks their characters.
use Prim.Native.Nat.{ℕ, ◌+◌, ◌-◌}
use Prim.Native.Char.{code}
use Prim.Native.String.{String}
use mathlib.Core.Path.{◌≡◌, refl}
use mathlib.Core.Logic.{◌≢◌, ◌↔◌}
use mathlib.Core.Bool.{Bool, true, false, ◌&&◌, ◌||◌}
use mathlib.Core.List.{List, [], ◌∷◌}
use native.Mathlib.Omega.{arith}
use lord_hermes.Common.Tests.{leb, if◌then◌else◌, and-split}
use lord_hermes.Common.Equality.{Eq, ◌==◌, nat_eq, contains}
use lord_hermes.Common.Lists.{All}

abbrev pub codes : String → List ℕ
codes String.[] = []
codes (String.◌∷◌ c s) = code c ∷ codes s

unfoldable pub is_lower : ℕ → Bool
is_lower c = leb b'a' c && leb c b'z'

unfoldable pub is_digit : ℕ → Bool
is_digit c = leb b'0' c && leb c b'9'

abbrev pub newline : ℕ
newline = 10

abbrev pub colon : ℕ
colon = 58

abbrev pub Text : Type 0
Text = List ℕ

unfoldable pub text_beq : Text → Text → Bool
text_beq [] [] = true
text_beq [] (d ∷ t) = false
text_beq (c ∷ s) [] = false
text_beq (c ∷ s) (d ∷ t) = c == d && text_beq s t

text_beq_sound : (s t : Text) → text_beq s t ≡ true → s ≡ t
unfolding text_beq
text_beq_sound [] [] h = refl
text_beq_sound [] (d ∷ t) h = cc
text_beq_sound (c ∷ s) [] h = cc
text_beq_sound (c ∷ s) (d ∷ t) h =
    let both = and-split (c == d) (text_beq s t) h in
    let head : c ≡ d = (nat_eq.beq_iff c d).0 both.0 in cc (head, text_beq_sound s t both.1)

text_beq_self : (s : Text) → text_beq s s ≡ true
unfolding text_beq
text_beq_self [] = refl
text_beq_self (c ∷ s) = ground (arith, text_beq_self s)

pub text_beq_iff : (s t : Text) → (text_beq s t ≡ true) ↔ (s ≡ t)
text_beq_iff s t = (text_beq_sound s t, λ e. rw e (text_beq_self t))

instance abbrev pub text_eq : Eq Text
text_eq = record { beq = text_beq; beq_iff = text_beq_iff }

-- `str.lower`, as far as a comparison with ASCII text can see it: U+212A (the Kelvin sign) and U+0130
-- are the characters beyond ASCII whose lower case has an ASCII letter.
unfoldable pub lower : Text → Text
lower [] = []
lower (c ∷ text) =
    let rest = lower text in
    if leb b'A' c && leb c b'Z'
    then (c + 32) ∷ rest
    else if c == 8490
    then 107 ∷ rest
    else if c == 304
    then 105 ∷ 775 ∷ rest
    else c ∷ rest

-- `str.upper` on ASCII, which is exact for a comparison with "ALL".
unfoldable pub upper : Text → Text
upper [] = []
upper (c ∷ text) = (if leb b'a' c && leb c b'z' then c - 32 else c) ∷ upper text

-- `str.isspace` of one character.
unfoldable pub is_space : ℕ → Bool
is_space c =
    (leb 9 c && leb c 13)
    || (leb 28 c && leb c 32)
    || (leb 8192 c && leb c 8202)
    || contains c (133 ∷ 160 ∷ 5760 ∷ 8232 ∷ 8233 ∷ 8239 ∷ 8287 ∷ 12288 ∷ [])

unfoldable pub strip_left : Text → Text
strip_left [] = []
strip_left (c ∷ text) = let rest = strip_left text in if is_space c then rest else c ∷ text

drop_blank : ℕ → Text → Text
drop_blank d [] = if is_space d then [] else d ∷ []
drop_blank d (e ∷ rest) = d ∷ e ∷ rest

strip_right : Text → Text
unfolding drop_blank
strip_right [] = []
strip_right (c ∷ text) = drop_blank c (strip_right text)

unfoldable pub strip : Text → Text
unfolding strip_right
strip text = strip_right (strip_left text)

-- A text that starts with a visible character is not blank.
pub strip-visible : (c : ℕ) (text : Text) → is_space c ≡ false → strip (c ∷ text) ≢ []
unfolding strip strip_right strip_left drop_blank
strip-visible c text h = rw h (kept (strip_right text))
  where
    kept : (rest : Text) → drop_blank c rest ≢ []
    kept [] = rw h (λ e. cc e)
    kept (d ∷ rest) = λ e. cc e

-- A text of visible characters is stripped already.
strip_right-AllVisible :
    (text : Text) → All (λ c. is_space c ≡ false) text → strip_right text ≡ text
unfolding strip_right drop_blank
strip_right-AllVisible [] h = refl
strip_right-AllVisible (c ∷ []) h = rw h.0 refl
strip_right-AllVisible (c ∷ d ∷ text) h = rw (strip_right-AllVisible (d ∷ text) h.1) refl

pub strip-AllVisible : (text : Text) → All (λ c. is_space c ≡ false) text → strip text ≡ text
unfolding strip strip_left
strip-AllVisible [] h = strip_right-AllVisible [] tt
strip-AllVisible (c ∷ text) h = rw h.0 (strip_right-AllVisible (c ∷ text) h)

unfoldable pub starts_with : Text → Text → Bool
starts_with text [] = true
starts_with [] (d ∷ prefix) = false
starts_with (c ∷ text) (d ∷ prefix) = c == d && starts_with text prefix

-- `part in text`
unfoldable pub has_part : Text → Text → Bool
has_part [] part = starts_with [] part
has_part (c ∷ text) part = starts_with (c ∷ text) part || has_part text part

-- text.split(c, 1)[1], where the character occurs.
unfoldable pub after_first : ℕ → Text → Text
after_first d [] = []
after_first d (c ∷ text) = let rest = after_first d text in if c == d then text else rest

-- `text.endswith(c)` for one character.
unfoldable pub ends_with : Text → ℕ → Bool
ends_with [] d = false
ends_with (c ∷ []) d = c == d
ends_with (c ∷ e ∷ text) d = ends_with (e ∷ text) d

abbrev pub NoColon : Text → Type 0
NoColon text = All (λ c. c ≢ colon) text

-- The order of texts, `a <= b`.
unfoldable pub text_leb : Text → Text → Bool
text_leb [] t = true
text_leb (c ∷ s) [] = false
text_leb (c ∷ s) (d ∷ t) = let rest = text_leb s t in if c == d then rest else leb c d
