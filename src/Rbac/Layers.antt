-- ===== src/Rbac/Layers.antt =====
-- python/apexquant-auth/src/apexquant_auth/rbac.py
-- The three layers of the role checks side by side: granting, evaluation and the request.
use lord_hermes.Common.{
  ◌≡◌, ◌≢◌, refl, sym, inl, inr, ◌↔◌, Bool, true, false, ◌||◌, List, [], ◌∷◌, ◌++◌, String, ◌==◌,
  if◌then◌else◌, arith, All, Any, Any-map, subst, any, any-Any, Any-any, Outcome, ok, err,
  Bool-cases,
}
use lord_hermes.Rbac.Permissions.{
  Text, text_eq, wildcard, colon, split, RbacError, permission_forbidden, wildcard_forbidden,
  validate_permission, covers, overlaps,
}
use lord_hermes.Rbac.Checks.{
  Matrix, granted, invariant_violation, forbidden_patterns, is_restricted, violates, evaluate,
  authorize, check_forbidden, validate_grant,
}
use lord_hermes.Rbac.Covering.{NoColon, covers_domain_iff}

-- A request is authorized exactly when some grant covers it and, on a restricted plane, no forbidden
-- pattern covers it: a denial goes before every grant, the global wildcard included.
pub authorize_iff :
    (matrix : Matrix) (plane : String) (grants : List Text) (request : Text)
    → (authorize matrix plane grants request ≡ true) ↔ (
        Any (λ g. covers g request ≡ true) grants
        × (is_restricted matrix plane ≡ true
            → Any (λ d. covers d request ≡ true) (forbidden_patterns matrix plane)
            → ⊥))
unfolding authorize
authorize_iff matrix plane grants request = (forth, back)
  where
    denied : Bool
    denied = any (λ d. covers d request) (forbidden_patterns matrix plane)

    granting : Bool
    granting = any (λ g. covers g request) grants

    decision :
        (r d g : Bool)
        → ((if r then (if d then false else g) else g) ≡ true)
          ↔ ((g ≡ true) × (r ≡ true → d ≡ true → ⊥))
    decision true true g = (λ h. absurd (cc h), λ h. absurd (h.1 refl refl))
    decision true false g = (λ h. (h, λ r d. cc d), λ h. h.0)
    decision false d g = (λ h. (h, λ r. cc r), λ h. h.0)

    forth :
        authorize matrix plane grants request ≡ true
        → Any (λ g. covers g request ≡ true) grants
          × (is_restricted matrix plane ≡ true
              → Any (λ d. covers d request ≡ true) (forbidden_patterns matrix plane)
              → ⊥)
    forth h =
        let both = (decision (is_restricted matrix plane) denied granting).0 h in
        (
          any-Any (λ g. covers g request) grants both.0,
          λ r d. both.1 r (Any-any (λ d. covers d request) (forbidden_patterns matrix plane) d),
        )

    back :
        Any (λ g. covers g request ≡ true) grants
          × (is_restricted matrix plane ≡ true
              → Any (λ d. covers d request ≡ true) (forbidden_patterns matrix plane)
              → ⊥)
        → authorize matrix plane grants request ≡ true
    back (g, n) = (decision (is_restricted matrix plane) denied granting).1 (
      Any-any (λ g. covers g request) grants g,
      λ r d. n r (any-Any (λ d. covers d request) (forbidden_patterns matrix plane) d),
    )

check_forbidden-ok :
    (matrix : Matrix) (permission : Text) (patterns : List Text)
    → (check_forbidden matrix permission patterns ≡ ok tt)
      ↔ (any (overlaps permission) patterns ≡ false)
unfolding check_forbidden
check_forbidden-ok matrix permission [] = (λ _. refl, λ _. refl)
check_forbidden-ok matrix permission (d ∷ rest) =
    check_step (overlaps permission d) (check_forbidden matrix permission rest)
      (any (overlaps permission) rest) (permission_forbidden permission d)
      (check_forbidden-ok matrix permission rest)
  where
    check_step :
        (b : Bool) (next : Outcome RbacError (Unit {0})) (others : Bool) (e : RbacError)
        → (next ≡ ok tt) ↔ (others ≡ false)
        → ((if b then err e else next) ≡ ok tt) ↔ ((b || others) ≡ false)
    check_step true next others e h = (λ k. absurd (cc k), λ k. absurd (cc k))
    check_step false next others e h = h

-- One permission: granting it succeeds exactly when evaluation raises no violation for it.
validate_grant_iff :
    (matrix : Matrix) (plane : String) (permission : Text)
    → validate_permission matrix.grammar permission ≡ ok tt
    → is_restricted matrix plane ≡ true
    → (validate_grant matrix plane permission ≡ ok tt)
      ↔ (violates matrix (forbidden_patterns matrix plane) permission ≡ false)
unfolding validate_grant
validate_grant_iff matrix plane permission v r =
    rw (v, r)
      (by_wildcard (permission == wildcard)
        (check_forbidden-ok matrix permission (forbidden_patterns matrix plane)))
  where
    by_wildcard :
        (b : Bool) {next : Outcome RbacError (Unit {0})} {others : Bool}
        → (next ≡ ok tt) ↔ (others ≡ false)
        → ((if b then err (wildcard_forbidden permission) else next) ≡ ok tt)
          ↔ ((if b then true else others) ≡ false)
    by_wildcard true h = (λ k. absurd (cc k), λ k. absurd (cc k))
    by_wildcard false h = h

validate_grant_open :
    (matrix : Matrix) (plane : String) (permission : Text)
    → validate_permission matrix.grammar permission ≡ ok tt
    → is_restricted matrix plane ≡ false
    → validate_grant matrix plane permission ≡ ok tt
unfolding validate_grant
validate_grant_open matrix plane permission v r = rw (v, r) refl

any_step : {b c : Bool} → b ≡ false → c ≡ false → (b || c) ≡ false
any_step h k = ground arith

any_halves : (b c : Bool) → (b || c) ≡ false → (b ≡ false) × (c ≡ false)
any_halves b c h = ground arith

-- On a restricted plane, evaluation grants a list of well-formed permissions, of a principal that has
-- roles, exactly when each of them passes the check at the time of the grant: the two layers that
-- enforce the matrix agree.
pub evaluate-validate_grant :
    (matrix : Matrix) (plane : String) (permissions : List Text)
    → is_restricted matrix plane ≡ true
    → All (λ p. validate_permission matrix.grammar p ≡ ok tt) permissions
    → (evaluate matrix plane permissions true ≡ granted)
      ↔ All (λ p. validate_grant matrix plane p ≡ ok tt) permissions
unfolding evaluate
evaluate-validate_grant matrix plane permissions r v = rw r (forth, back)
  where
    bad : Text → Bool
    bad = violates matrix (forbidden_patterns matrix plane)

    clean_iff :
        (ps : List Text)
        → All (λ p. validate_permission matrix.grammar p ≡ ok tt) ps
        → (any bad ps ≡ false) ↔ All (λ p. validate_grant matrix plane p ≡ ok tt) ps
    clean_iff [] w = (λ _. tt, λ _. refl)
    clean_iff (p ∷ ps) (w, ws) = (
      λ h.
          let halves = any_halves (bad p) (any bad ps) h in
          ((validate_grant_iff matrix plane p w r).1 halves.0, (clean_iff ps ws).0 halves.1),
      λ h. any_step ((validate_grant_iff matrix plane p w r).0 h.0) ((clean_iff ps ws).1 h.1),
    )

    status : (b : Bool) → (if b then invariant_violation else granted) ≡ granted → b ≡ false
    status true h = cc
    status false h = refl

    forth :
        (if any bad permissions then invariant_violation else granted) ≡ granted
        → All (λ p. validate_grant matrix plane p ≡ ok tt) permissions
    forth h = (clean_iff permissions v).0 (status (any bad permissions) h)

    back :
        All (λ p. validate_grant matrix plane p ≡ ok tt) permissions
        → (if any bad permissions then invariant_violation else granted) ≡ granted
    back h = rw ((clean_iff permissions v).1 h) refl

-- When the matrix forbids a whole domain (the pattern `domain:*`) on a restricted plane, no request of
-- that domain is authorized there, whatever was granted, the global wildcard included.
pub forbidden_domain_denied :
    (matrix : Matrix) (plane : String) (domain : Text) (grants : List Text) (request : Text)
    → is_restricted matrix plane ≡ true
    → NoColon domain
    → domain ≢ wildcard
    → Any (λ d. d ≡ domain ++ colon ∷ wildcard) (forbidden_patterns matrix plane)
    → (rest : List Text) → split request ≡ domain ∷ rest
    → authorize matrix plane grants request ≡ false
forbidden_domain_denied matrix plane domain grants request r c w f rest e =
    elim (Bool-cases (authorize matrix plane grants request)) [
      | inl h ↦ absurd (
          ((authorize_iff matrix plane grants request).0 h).1 r (
            Any-map (forbidden_patterns matrix plane)
              (λ d q. subst (λ x. covers x request ≡ true) (sym q) covered) f))
      | inr h ↦ h
    ]
  where
    covered : covers (domain ++ colon ∷ wildcard) request ≡ true
    covered = (covers_domain_iff domain request c w).1 (rest, e)
