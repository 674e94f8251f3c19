-- ===== src/Rbac/Examples.antt =====
-- python/apexquant-auth/src/apexquant_auth/rbac.py
-- Runs of the role checks with a small matrix, and the theorems at them.
use lord_hermes.Common.{◌≡◌, refl, ◌↔◌, true, [], ◌∷◌, All, Any, arith, ok, err, get}
use lord_hermes.Common.Text.{codes, lower}
use lord_hermes.Rbac.Permissions.{
  Text, permission_forbidden, wildcard, split, validate_permission, covers, text_beq, overlaps,
  covers_segments,
}
use lord_hermes.Rbac.Checks.{
  Matrix, granted, forbidden_patterns, is_restricted, evaluate, authorize, validate_grant,
  check_forbidden,
}
use lord_hermes.Rbac.Covering.{NoColon}
use lord_hermes.Rbac.Layers.{authorize_iff, evaluate-validate_grant}

abbrev matrix : Matrix
matrix = record {
  grammar = record { min_segments = 2; max_segments = 3 };
  restricted_planes = "AI" ∷ [];
  forbidden = ("AI", codes "secrets:*" ∷ codes "trading:execute" ∷ []) ∷ [];
}

abbrev secrets : Text
secrets = codes "secrets"

secrets-NoColon : NoColon secrets
secrets-NoColon = (
  λ e. absurd (omega arith),
  (
    λ e. absurd (omega arith),
    (
      λ e. absurd (omega arith),
      (
        λ e. absurd (omega arith),
        (λ e. absurd (omega arith), (λ e. absurd (omega arith), (λ e. absurd (omega arith), tt))),
      ),
    ),
  ),
)

-- "secrets:read:db"
abbrev request : Text
request = codes "secrets:read:db"

refused_grant :
    validate_grant matrix "AI" (codes "trading:*")
    ≡ err (permission_forbidden (codes "trading:*") (codes "trading:execute"))
unfolding validate_grant validate_permission text_beq split is_restricted check_forbidden
    forbidden_patterns get overlaps covers covers_segments lower
refused_grant = refl

longer_target : covers (codes "secrets:read") request ≡ true
unfolding covers text_beq covers_segments split
longer_target = refl

authorize_iff_example : (authorize matrix "AI" (wildcard ∷ []) request ≡ true) ↔ (
    Any (λ g. covers g request ≡ true) (wildcard ∷ [])
    × (is_restricted matrix "AI" ≡ true
        → Any (λ d. covers d request ≡ true) (forbidden_patterns matrix "AI")
        → ⊥))
authorize_iff_example = authorize_iff matrix "AI" (wildcard ∷ []) request

evaluate-validate_grant_example :
    (evaluate matrix "AI" (codes "research:read" ∷ []) true ≡ granted)
    ↔ All (λ p. validate_grant matrix "AI" p ≡ ok tt) (codes "research:read" ∷ [])
unfolding is_restricted validate_permission text_beq split lower
evaluate-validate_grant_example =
    evaluate-validate_grant matrix "AI" (codes "research:read" ∷ []) refl (refl, tt)
