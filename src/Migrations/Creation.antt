-- ===== src/Migrations/Creation.antt =====
-- python/apexquant-migrations/src/apexquant-migrations/discovery.py
-- Discovery after create_migration has written its file.
use lord_hermes.Common.{
  ℕ, ◌≤◌, ◌≡◌, ◌≢◌, refl, ◌∙◌, Bool, true, false, ◌&&◌, [], ◌∷◌, ◌++◌, leb, length, All,
  if◌then◌else◌, arith, ◌==◌, nat_eq, none, some,
}
use lord_hermes.Common.Text.{Text, text_eq, text_beq, is_digit, is_lower, newline}
use lord_hermes.Migrations.Discovery.{
  underscore, sql_suffix, is_slug_char, span, is_slug_tail, match_version, is_sql,
}

span-append :
    (test : ℕ → Bool) (run : Text) (c : ℕ) (rest : Text)
    → All (λ d. test d ≡ true) run
    → test c ≡ false
    → span test (run ++ c ∷ rest) ≡ (run, c ∷ rest)
unfolding span
span-append test [] c rest h e = rw e refl
span-append test (d ∷ run) c rest h e = rw (h.0, span-append test run c rest h.1 e) refl

pub is_sql-append : (text : Text) → is_sql (text ++ sql_suffix) ≡ true
unfolding is_sql text_beq
is_sql-append [] = refl
is_sql-append (c ∷ text) = ground (arith, is_sql-append text)

pub is_sql-prefix : (before text : Text) → is_sql text ≡ true → is_sql (before ++ text) ≡ true
unfolding is_sql
is_sql-prefix [] text h = h
is_sql-prefix (c ∷ before) text h = ground (arith, is_sql-prefix before text h)

-- A name of at least four digits, an underscore, and what follows.
match-digits :
    (digits rest : Text)
    → All (λ c. is_digit c ≡ true) digits
    → 4 ≤ length digits
    → match_version (digits ++ underscore ∷ rest)
      ≡ (if is_slug_tail (underscore ∷ rest) then some digits else none)
unfolding match_version is_digit
match-digits digits rest all_digits four =
    rw (span-append is_digit digits underscore rest all_digits refl, lt) refl
  where
    lt : leb 4 (length digits) ≡ true
    lt = ground arith

-- The tail after the digits, by what follows the slug's characters.
slug_tail :
    (slug : Text) (c : ℕ) (rest : Text)
    → All (λ d. is_slug_char d ≡ true) slug
    → is_slug_char c ≡ false
    → is_slug_tail (underscore ∷ (slug ++ c ∷ rest))
      ≡ (leb 1 (length slug) && (c ∷ rest) == sql_suffix)
unfolding is_slug_tail
slug_tail slug c rest h e = rw (span-append is_slug_char slug c rest h e) refl

pub match_version-slug :
    (digits slug : Text)
    → All (λ c. is_digit c ≡ true) digits
    → 4 ≤ length digits
    → All (λ c. is_slug_char c ≡ true) slug
    → slug ≢ []
    → match_version (digits ++ underscore ∷ (slug ++ sql_suffix)) ≡ some digits
unfolding is_slug_char is_lower is_digit text_beq
match_version-slug digits [] all_digits four all_slug ne = absurd (ne refl)
match_version-slug digits (c ∷ slug) all_digits four all_slug ne =
    match-digits digits ((c ∷ slug) ++ sql_suffix) all_digits four
    ∙ rw (slug_tail (c ∷ slug) 46 (115 ∷ 113 ∷ 108 ∷ []) all_slug refl, long) refl
  where
    long : leb 1 (length (c ∷ slug)) ≡ true
    long = ground arith

pub match_version-newline :
    (digits run : Text)
    → All (λ c. is_digit c ≡ true) digits
    → 4 ≤ length digits
    → All (λ c. is_slug_char c ≡ true) run
    → match_version (digits ++ underscore ∷ (run ++ newline ∷ sql_suffix)) ≡ none
unfolding is_slug_char is_lower is_digit text_beq
match_version-newline digits run all_digits four all_slug =
    match-digits digits (run ++ newline ∷ sql_suffix) all_digits four
    ∙ rw (slug_tail run newline sql_suffix all_slug refl) (ground arith)
