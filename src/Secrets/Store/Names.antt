-- ===== src/Secrets/Store/Names.antt =====
-- python/apexquant-secrets/store.py: which names a secret may have.
use lord_hermes.Common.{
  ℕ, zero, suc, ◌≤◌, ◌≡◌, refl, ◌↔◌, ◌⊎◌, inl, inr, Bool, true, false, ◌&&◌, ◌||◌, not, List, [],
  ◌∷◌, ◌++◌, arith, ◌==◌, nat_eq, All, length, is_nonempty, or-split, and-split, ap,
}
use lord_hermes.Common.Text.{is_lower, is_digit, newline}

-- [a-z0-9]
unfoldable pub is_name_start : ℕ → Bool
unfolding is_lower is_digit
is_name_start c = is_lower c || is_digit c

-- [a-z0-9._/-]
unfoldable pub is_name_char : ℕ → Bool
unfolding is_lower is_digit
is_name_char c = is_lower c || is_digit c || c == b'.' || c == b'_' || c == b'/' || c == b'-'

-- `[a-z0-9._/-]{0,k}$`: Python's `$` also matches before a newline that ends the text. A newline is
-- no name character, so the repetition stops there in any case.
matches_rest : ℕ → List ℕ → Bool
matches_rest k [] = true
matches_rest zero (c ∷ rest) = c == newline && not (is_nonempty rest)
matches_rest (suc k) (c ∷ rest) =
    (c == newline && not (is_nonempty rest)) || (is_name_char c && matches_rest k rest)

unfoldable pub matches_secret_name : List ℕ → Bool
unfolding matches_rest
matches_secret_name [] = false
matches_secret_name (c ∷ rest) = is_name_start c && matches_rest 254 rest

-- What the pattern is meant to say, without its treatment of line ends.
abbrev pub IsSecretName : List ℕ → Type 0
IsSecretName [] = ⊥
IsSecretName (c ∷ rest) =
    (is_name_start c ≡ true) × All (λ d. is_name_char d ≡ true) rest × (length rest ≤ 254)

abbrev IsRest : ℕ → List ℕ → Type 0
IsRest k rest = All (λ d. is_name_char d ≡ true) rest × (length rest ≤ k)

longer :
    (c : ℕ) (text rest : List ℕ)
    → (text ≡ rest) ⊎ (text ≡ rest ++ newline ∷ [])
    → (c ∷ text ≡ c ∷ rest) ⊎ (c ∷ text ≡ (c ∷ rest) ++ newline ∷ [])
longer c text rest (inl e) = inl (ap (◌∷◌ c) e)
longer c text rest (inr e) = inr (ap (◌∷◌ c) e)

last_newline :
    (c : ℕ) (text : List ℕ)
    → (c == newline && not (is_nonempty text)) ≡ true
    → c ∷ text ≡ newline ∷ []
last_newline c text h = ground arith

either : (a b c : Bool) → b ≡ true → c ≡ true → (a || (b && c)) ≡ true
either a b c h k = ground arith

IsRest-sound :
    (k : ℕ) (text : List ℕ)
    → matches_rest k text ≡ true
    → (rest : List ℕ) × IsRest k rest × ((text ≡ rest) ⊎ (text ≡ rest ++ newline ∷ []))
unfolding matches_rest
IsRest-sound k [] h = ([], (tt, omega arith), inl refl)
IsRest-sound zero (c ∷ []) h = ([], (tt, omega arith), inr (ground arith))
IsRest-sound zero (c ∷ d ∷ r) h = absurd (ground arith)
IsRest-sound (suc k) (c ∷ text) h = elim (or-split _ _ h) [
  | inl e ↦ ([], (tt, omega arith), inr (last_newline c text e))
  | inr e ↦
      let (rest, fits, same) = IsRest-sound k text (and-split (is_name_char c) _ e).1 in
      (
        c ∷ rest,
        (((and-split (is_name_char c) _ e).0, fits.0), omega arith),
        longer c text rest same,
      )
]

newline_starts_none : is_name_char newline ≡ false
unfolding is_name_char
newline_starts_none = refl

rest_complete :
    (k : ℕ) (rest : List ℕ)
    → IsRest k rest
    → (matches_rest k rest ≡ true) × (matches_rest k (rest ++ newline ∷ []) ≡ true)
unfolding matches_rest
rest_complete zero [] h = (refl, refl)
rest_complete (suc k) [] h = (refl, refl)
rest_complete zero (c ∷ rest) h = absurd (omega arith)
rest_complete (suc k) (c ∷ rest) h =
    let ih = rest_complete k rest (h.0.1, omega arith) in
    (either _ _ _ h.0.0 ih.0, either _ _ _ h.0.0 ih.1)

-- The pattern accepts exactly the well-formed names, and a well-formed name with a newline behind
-- it.
pub matches_secret_name_iff :
    (text : List ℕ)
    → (matches_secret_name text ≡ true)
      ↔ ((name : List ℕ) × IsSecretName name × ((text ≡ name) ⊎ (text ≡ name ++ newline ∷ [])))
unfolding matches_secret_name
matches_secret_name_iff text = (sound text, complete text)
  where
    sound :
        (text : List ℕ)
        → matches_secret_name text ≡ true
        → (name : List ℕ) × IsSecretName name × ((text ≡ name) ⊎ (text ≡ name ++ newline ∷ []))
    sound [] h = absurd (cc h)
    sound (c ∷ t) h =
        let (rest, fits, same) = IsRest-sound 254 t (and-split _ _ h).1 in
        (c ∷ rest, ((and-split _ _ h).0, fits.0, fits.1), longer c t rest same)

    accepted :
        (name : List ℕ)
        → IsSecretName name
        → (matches_secret_name name ≡ true) × (matches_secret_name (name ++ newline ∷ []) ≡ true)
    accepted [] h = absurd h
    accepted (c ∷ rest) h =
        let both = rest_complete 254 rest (h.1, h.2) in (rw h.0 both.0, rw h.0 both.1)

    complete :
        (text : List ℕ)
        → (name : List ℕ) × IsSecretName name × ((text ≡ name) ⊎ (text ≡ name ++ newline ∷ []))
        → matches_secret_name text ≡ true
    complete text (name, h, inl e) = rw e (accepted name h).0
    complete text (name, h, inr e) = rw e (accepted name h).1
