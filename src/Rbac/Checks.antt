-- ===== src/Rbac/Checks.antt =====
-- python/apexquant-auth/src/apexquant_auth/rbac.py: evaluation, authorization and grants, against
-- the matrix that `load_matrix` reads from data/rbac/forbidden_matrix.yaml.
use lord_hermes.Common.{
  Bool, true, false, not, List, [], ◌∷◌, Option, none, some, String, ◌==◌, string_eq, contains, get,
  any, if◌then◌else◌, Outcome, ok, err, ◌>>◌,
}
use lord_hermes.Rbac.Permissions.{
  Text, wildcard, text_eq, Grammar, RbacError, wildcard_forbidden, permission_forbidden,
  validate_permission, covers, overlaps,
}

pub record Matrix : Type 0 where
  pub grammar : Grammar
  pub restricted_planes : List String
  pub forbidden : List (String × List Text)

pub data EvaluationStatus : Type 0 where
  granted unprovisioned invariant_violation : EvaluationStatus

abbrev or_empty : Option (List Text) → List Text
or_empty none = []
or_empty (some patterns) = patterns

module _ (matrix : Matrix) where
  unfoldable pub forbidden_patterns : String → List Text
  forbidden_patterns plane = or_empty (get plane matrix.forbidden)

  unfoldable pub is_restricted : String → Bool
  is_restricted plane = contains plane matrix.restricted_planes

  -- Whether the loops of `evaluate` return a violation for the permission.
  abbrev pub violates : List Text → Text → Bool
  violates patterns g = if g == wildcard then true else any (overlaps g) patterns

  unfoldable pub evaluate : String → List Text → Bool → EvaluationStatus
  evaluate plane permissions has_roles =
      if not has_roles
      then unprovisioned
      else if is_restricted plane
      then (if any (violates (forbidden_patterns plane)) permissions
          then invariant_violation
          else granted)
      else granted

  unfoldable pub authorize : String → List Text → Text → Bool
  authorize plane grants request =
      if is_restricted plane
      then (if any (λ d. covers d request) (forbidden_patterns plane)
          then false
          else any (λ g. covers g request) grants)
      else any (λ g. covers g request) grants

  -- The loop of `validate_grant` over the forbidden patterns.
  unfoldable pub check_forbidden : Text → List Text → Outcome RbacError (Unit {0})
  check_forbidden permission [] = ok tt
  check_forbidden permission (d ∷ rest) =
      let next = check_forbidden permission rest in
      if overlaps permission d then err (permission_forbidden permission d) else next

  unfoldable pub validate_grant : String → Text → Outcome RbacError (Unit {0})
  validate_grant plane permission =
      validate_permission matrix.grammar permission
      >> (if is_restricted plane
          then (if permission == wildcard
              then err (wildcard_forbidden permission)
              else check_forbidden permission (forbidden_patterns plane))
          else ok tt)
