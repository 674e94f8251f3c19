-- ===== src/Versions/Kept.antt =====
-- python/apexquant-service-versioning/src/apexquant-service-versioning/semver.py
-- The loops of `highest_compatible` that test and parse the candidates.
use lord_hermes.Common.{
  ◌≡◌, refl, ap, subst, inl, inr, Bool, true, false, List, [], ◌∷◌, if◌then◌else◌, All, Any,
  All-map, map, Outcome, ok, err, ◌>>=◌,
}
use lord_hermes.Common.Text.{Text}
use lord_hermes.Versions.Semver.{
  SemVer, SemVerError, parse_version, is_backward_compatible, keep_compatible, parse_all,
}

-- A successful chain, taken apart.
pub bind_ok :
    {A B : Type 0} (m : Outcome SemVerError A) (f : A → Outcome SemVerError B) (b : B)
    → m >>= f ≡ ok b
    → (a : A) × (m ≡ ok a) × (f a ≡ ok b)
bind_ok (ok a) f b h = (a, refl, h)
bind_ok (err e) f b h = absurd (cc h)

pub ok_path : {A : Type 0} (a b : A) → ◌≡◌ {A = Outcome SemVerError A} (ok a) (ok b) → a ≡ b
ok_path a b e = cc e

abbrev pub Accepted : Text → Text → Type 0
Accepted minimum candidate = is_backward_compatible candidate minimum ≡ ok true

-- The comprehension keeps just the accepted candidates.
pub keep_compatible_sound :
    (candidates : List Text) (minimum : Text) (kept : List Text)
    → keep_compatible candidates minimum ≡ ok kept
    → All (λ k. Any (λ c. c ≡ k) candidates × Accepted minimum k) kept
unfolding keep_compatible
keep_compatible_sound [] minimum kept h =
    subst (All (λ k. Any (λ c. c ≡ k) [] × Accepted minimum k)) (ok_path [] kept h) tt
keep_compatible_sound (c ∷ rest) minimum kept h =
    let (b, tested, continued) = bind_ok (is_backward_compatible c minimum) _ kept h in
    let (others, found, done) = bind_ok (keep_compatible rest minimum) _ kept continued in
    subst (All (λ k. Any (λ d. d ≡ k) (c ∷ rest) × Accepted minimum k))
      (ok_path (if b then c ∷ others else others) kept done)
      (by_test others b tested (
        All-map _ _ others (λ k p. (inr p.0, p.1))
          (keep_compatible_sound rest minimum others found)))
  where
    by_test :
        (others : List Text) (b : Bool)
        → is_backward_compatible c minimum ≡ ok b
        → All (λ k. Any (λ d. d ≡ k) (c ∷ rest) × Accepted minimum k) others
        → All
            (λ k. Any (λ d. d ≡ k) (c ∷ rest) × Accepted minimum k)
            (if b then c ∷ others else others)
    by_test others true e all_others = ((inl refl, e), all_others)
    by_test others false e all_others = all_others

pub keep_compatible_complete :
    (candidates : List Text) (minimum : Text) (kept : List Text)
    → keep_compatible candidates minimum ≡ ok kept
    → All (λ c. Accepted minimum c → Any (λ k. k ≡ c) kept) candidates
unfolding keep_compatible
keep_compatible_complete [] minimum kept h = tt
keep_compatible_complete (c ∷ rest) minimum kept h =
    let (b, tested, continued) = bind_ok (is_backward_compatible c minimum) _ kept h in
    let (others, found, done) = bind_ok (keep_compatible rest minimum) _ kept continued in
    subst (λ ks. All (λ d. Accepted minimum d → Any (λ k. k ≡ d) ks) (c ∷ rest))
      (ok_path (if b then c ∷ others else others) kept done)
      (by_test others b tested (keep_compatible_complete rest minimum others found))
  where
    by_test :
        (others : List Text) (b : Bool)
        → is_backward_compatible c minimum ≡ ok b
        → All (λ d. Accepted minimum d → Any (λ k. k ≡ d) others) rest
        → All
            (λ d. Accepted minimum d → Any (λ k. k ≡ d) (if b then c ∷ others else others))
            (c ∷ rest)
    by_test others true e others_in =
        (λ _. inl refl, All-map _ _ rest (λ d f a. inr (f a)) others_in)
    by_test others false e others_in = (λ a. absurd (cc (e, a)), others_in)

abbrev pub Parsed : Text × SemVer → Type 0
Parsed item = parse_version item.0 ≡ ok item.1

-- Each text stands with its own version, in the same order.
pub parse_all-Parsed :
    (values : List Text) (parsed : List (Text × SemVer))
    → parse_all values ≡ ok parsed
    → All Parsed parsed × (map (λ i. i.0) parsed ≡ values)
unfolding parse_all
parse_all-Parsed [] parsed h =
    subst (λ ps. All Parsed ps × (map (λ i. i.0) ps ≡ [])) (ok_path [] parsed h) (tt, refl)
parse_all-Parsed (value ∷ rest) parsed h =
    let (version, one, continued) = bind_ok (parse_version value) _ parsed h in
    let (others, found, done) = bind_ok (parse_all rest) _ parsed continued in
    let both = parse_all-Parsed rest others found in
    subst (λ ps. All Parsed ps × (map (λ i. i.0) ps ≡ value ∷ rest))
      (ok_path ((value, version) ∷ others) parsed done)
      ((one, both.0), ap (λ vs. value ∷ vs) both.1)

pub Any-texts :
    (t : Text) (items : List (Text × SemVer))
    → Any (λ k. k ≡ t) (map (λ i. i.0) items)
    → Any (λ i. i.0 ≡ t) items
Any-texts t [] h = absurd h
Any-texts t (item ∷ rest) (inl h) = inl h
Any-texts t (item ∷ rest) (inr h) = inr (Any-texts t rest h)

pub All-texts :
    (P : Text → Type 0) (items : List (Text × SemVer))
    → All P (map (λ i. i.0) items)
    → All (λ i. P i.0) items
All-texts P [] h = tt
All-texts P (item ∷ rest) h = (h.0, All-texts P rest h.1)
