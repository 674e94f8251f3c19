-- ===== src/Rbac/Permissions.antt =====
-- python/apexquant-auth/src/apexquant_auth/rbac.py: the grammar of permissions, and patterns. A
-- permission is the list of its code points.
use lord_hermes.Common.{
  ℕ, Bool, true, false, ◌&&◌, ◌||◌, not, List, [], ◌∷◌, ◌==◌, nat_eq, leb, all, length, is_nonempty,
  if◌then◌else◌, Outcome, ok, ◌>>◌, guard,
}
use lord_hermes.Common.Text.{is_lower, is_digit, lower}
unfoldable pub use lord_hermes.Common.Text.{Text, text_beq}
pub use lord_hermes.Common.Text.{text_beq_iff, text_eq, colon}

-- "*"
abbrev pub wildcard : Text
wildcard = 42 ∷ []

abbrev pub cons_head : ℕ → List Text → List Text
cons_head c [] = (c ∷ []) ∷ []
cons_head c (seg ∷ segs) = (c ∷ seg) ∷ segs

-- text.split(":")
unfoldable pub split : Text → List Text
split [] = [] ∷ []
split (c ∷ rest) = let segs = split rest in if c == colon then [] ∷ segs else cons_head c segs

-- abcdefghijklmnopqrstuvwxyz0123456789_-
unfoldable pub is_segment_char : ℕ → Bool
unfolding is_lower is_digit
is_segment_char c = is_lower c || is_digit c || c == b'_' || c == b'-'

is_segment : Text → Bool
unfolding is_segment_char
is_segment seg = seg == wildcard || (is_nonempty seg && all is_segment_char seg)

pub data RbacError : Type 0 where
  invalid_permission : Text → RbacError
  wildcard_forbidden : Text → RbacError
  permission_forbidden : Text → Text → RbacError

pub record Grammar : Type 0 where
  pub min_segments : ℕ
  pub max_segments : ℕ

unfoldable pub validate_permission : Grammar → Text → Outcome RbacError (Unit {0})
unfolding is_segment
validate_permission grammar perm = if perm == wildcard then ok tt else do
  guard (is_nonempty perm) (invalid_permission perm)
  guard (perm == lower perm) (invalid_permission perm)
  let n = length (split perm)
  guard (leb grammar.min_segments n && leb n grammar.max_segments) (invalid_permission perm)
  guard (all is_segment (split perm)) (invalid_permission perm)

-- The loop of `covers`, over the segments that are left of the pattern and of the target.
unfoldable pub covers_segments : List Text → List Text → Bool
covers_segments [] t = true
covers_segments (seg ∷ p) [] = seg == wildcard && not (is_nonempty p)
covers_segments (seg ∷ p) (s ∷ t) =
    let rest = covers_segments p t in
    if seg == wildcard && not (is_nonempty p)
    then true
    else if seg == wildcard
    then rest
    else if not (seg == s)
    then false
    else rest

unfoldable pub covers : Text → Text → Bool
covers pattern target =
    if pattern == wildcard then true else covers_segments (split pattern) (split target)

unfoldable pub overlaps : Text → Text → Bool
overlaps a b = covers a b || covers b a
