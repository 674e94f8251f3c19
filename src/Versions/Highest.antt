-- ===== src/Versions/Highest.antt =====
-- python/apexquant-service-versioning/src/apexquant-service-versioning/semver.py
-- What `highest_compatible` answers.
use lord_hermes.Common.{
  ◌≡◌, sym, ap, ◌∙◌, subst, true, false, List, [], ◌∷◌, Option, none, some, All, Any, All-map,
  Any-All, map, ok,
}
use lord_hermes.Common.Text.{Text}
use lord_hermes.Versions.Orders.{is_before}
use lord_hermes.Versions.Semver.{
  SemVer, parse_version, compare, is_backward_compatible, keep_compatible, parse_all,
  sort_descending, first_text, highest_compatible,
}
use lord_hermes.Versions.Sorted.{NotBefore, IsTopped, sort_descending-All, sort_descending-IsTopped}
use lord_hermes.Versions.Kept.{
  bind_ok, ok_path, Accepted, keep_compatible_sound, keep_compatible_complete, Parsed,
  parse_all-Parsed, Any-texts, All-texts,
}

-- The best of the candidates: one of them, accepted, and not before any accepted one.
pub record IsHighest (candidates : List Text) (minimum answer : Text) : Type 0 where
  pub version : SemVer
  pub parses : parse_version answer ≡ ok version
  pub candidate : Any (λ c. c ≡ answer) candidates
  pub accepted : is_backward_compatible answer minimum ≡ ok true
  pub highest :
      (other : Text) (w : SemVer)
      → Any (λ c. c ≡ other) candidates
      → is_backward_compatible other minimum ≡ ok true
      → parse_version other ≡ ok w
      → is_before (compare version w) ≡ false

abbrev pub IsAnswer : List Text → Text → Option Text → Type 0
IsAnswer candidates minimum none =
    All (λ c. is_backward_compatible c minimum ≡ ok true → ⊥) candidates
IsAnswer candidates minimum (some answer) = IsHighest candidates minimum answer

All-both :
    (P Q : Text × SemVer → Type 0) (items : List (Text × SemVer))
    → All P items
    → All Q items
    → All (λ i. P i × Q i) items
All-both P Q [] p q = tt
All-both P Q (i ∷ items) p q = ((p.0, q.0), All-both P Q items p.1 q.1)

-- An accepted candidate is among the parsed ones.
Accepted-parsed :
    (candidates kept : List Text) (minimum : Text) (parsed : List (Text × SemVer))
    → keep_compatible candidates minimum ≡ ok kept
    → map (λ i. i.0) parsed ≡ kept
    → All (λ c. Accepted minimum c → Any (λ i. i.0 ≡ c) parsed) candidates
Accepted-parsed candidates kept minimum parsed h m =
    All-map _ _ candidates
      (λ c f acc. Any-texts c parsed (subst (Any (λ k. k ≡ c)) (sym m) (f acc)))
      (keep_compatible_complete candidates minimum kept h)

IsAnswer-of :
    (candidates kept : List Text) (minimum : Text) (parsed sorted : List (Text × SemVer))
    → keep_compatible candidates minimum ≡ ok kept
    → map (λ i. i.0) parsed ≡ kept
    → All Parsed parsed
    → All Parsed sorted
    → All (λ i. Any (λ c. c ≡ i.0) candidates × Accepted minimum i.0) sorted
    → IsTopped sorted parsed
    → IsAnswer candidates minimum (first_text sorted)
IsAnswer-of candidates kept minimum parsed [] h m p q a t =
    All-map _ _ candidates (λ c f acc. nothing (Any-All _ (λ i. ⊥) parsed t (f acc)))
      (Accepted-parsed candidates kept minimum parsed h m)
  where
    nothing : {P : Text × SemVer → Type 0} → (i : Text × SemVer) × P i × ⊥ → ⊥
    nothing (i, x, e) = e
IsAnswer-of candidates kept minimum parsed (item ∷ rest) h m p q a t = record {
  version = item.1;
  parses = q.0;
  candidate = a.0.0;
  accepted = a.0.1;
  highest = λ other w c acc e.
      top other w acc e
        (Any-All _ _ candidates (Accepted-parsed candidates kept minimum parsed h m) c);
}
  where
    top :
        (other : Text) (w : SemVer)
        → Accepted minimum other
        → parse_version other ≡ ok w
        → (c : Text) × (c ≡ other) × (Accepted minimum c → Any (λ i. i.0 ≡ c) parsed)
        → is_before (compare item.1 w) ≡ false
    top other w acc e (c, same, f) = below (
        Any-All _ (λ i. Parsed i × NotBefore item.1 i) parsed
          (All-both Parsed (NotBefore item.1) parsed p t)
          (f (subst (Accepted minimum) (sym same) acc)))
      where
        below :
            (i : Text × SemVer) × (i.0 ≡ c) × (Parsed i × NotBefore item.1 i)
            → is_before (compare item.1 w) ≡ false
        below (i, text, (parses, top_of)) =
            subst (λ v. is_before (compare item.1 v) ≡ false)
              (ok_path i.1 w (sym parses ∙ ap parse_version (text ∙ same) ∙ e)) top_of

-- When `highest_compatible` gives a version, it is one of the candidates, compatible with the minimum,
-- and no compatible candidate comes after it; when it gives none, no candidate is compatible.
pub highest_compatible-IsAnswer :
    (candidates : List Text) (minimum : Text) (answer : Option Text)
    → highest_compatible candidates minimum ≡ ok answer
    → IsAnswer candidates minimum answer
unfolding highest_compatible
highest_compatible-IsAnswer candidates minimum answer h =
    let (kept, one, continued) = bind_ok (keep_compatible candidates minimum) _ answer h in
    let (parsed, two, done) = bind_ok (parse_all kept) _ answer continued in
    let texts = parse_all-Parsed kept parsed two in
    subst (IsAnswer candidates minimum) (ok_path (first_text (sort_descending parsed)) answer done)
      (IsAnswer-of candidates kept minimum parsed (sort_descending parsed) one texts.1 texts.0
        (sort_descending-All Parsed parsed texts.0)
        (sort_descending-All (λ i. Any (λ c. c ≡ i.0) candidates × Accepted minimum i.0) parsed
          (All-texts (λ k. Any (λ c. c ≡ k) candidates × Accepted minimum k) parsed
            (subst (All (λ k. Any (λ c. c ≡ k) candidates × Accepted minimum k)) (sym texts.1)
              (keep_compatible_sound candidates minimum kept one))))
        (sort_descending-IsTopped parsed))
