-- ===== src/Versions/Compatible.antt =====
-- python/apexquant-service-versioning/src/apexquant-service-versioning/semver.py
-- What it means that a version is backward compatible with a minimum.
use lord_hermes.Common.{
  ℕ, ◌≡◌, sym, ◌∙◌, ◌↔◌, Bool, true, false, ◌&&◌, ◌||◌, not, ◌==◌, nat_eq, if◌then◌else◌, arith,
}
use lord_hermes.Versions.Orders.{is_before}
use lord_hermes.Versions.Semver.{SemVer, is_stable, compare, compatible_with}
use lord_hermes.Versions.Precedence.{at_least_trans}

-- A stable version of the same major, and before 1.0.0 of the same minor, that is not before the
-- minimum.
pub record IsCompatible (candidate minimum : SemVer) : Type 0 where
  pub stable : is_stable candidate ≡ true
  pub major : candidate.major ≡ minimum.major
  pub minor : candidate.major ≡ 0 → candidate.minor ≡ minimum.minor
  pub precedence : is_before (compare candidate minimum) ≡ false

-- The code's conditions, with the comparison as a Boolean.
tests :
    (stable : Bool) (cm mm cn mn : ℕ) (high : Bool)
    → ((if not stable
          then false
          else if cm == 0 || mm == 0
          then cm == mm && cn == mn && not high
          else cm == mm && not high)
        ≡ true)
      ↔ ((stable ≡ true) × (cm ≡ mm) × (cm ≡ 0 → cn ≡ mn) × (high ≡ false))
tests stable cm mm cn mn high = ground arith

-- `compatible_with` decides the relation.
pub compatible_with_iff :
    (candidate minimum : SemVer)
    → (compatible_with candidate minimum ≡ true) ↔ IsCompatible candidate minimum
unfolding compatible_with
compatible_with_iff candidate minimum = (
  λ h.
      let (s, m, n, p) = decided.0 h in record { stable = s; major = m; minor = n; precedence = p },
  λ c. decided.1 (c.stable, c.major, c.minor, c.precedence),
)
  where
    decided : (compatible_with candidate minimum ≡ true) ↔ (
        (is_stable candidate ≡ true)
        × (candidate.major ≡ minimum.major)
        × (candidate.major ≡ 0 → candidate.minor ≡ minimum.minor)
        × (is_before (compare candidate minimum) ≡ false))
    decided =
        tests (is_stable candidate) candidate.major minimum.major candidate.minor minimum.minor
          (is_before (compare candidate minimum))

-- What is compatible with a version that is compatible with a minimum is compatible with the minimum.
pub compatible_with_trans :
    (newer candidate minimum : SemVer)
    → compatible_with newer candidate ≡ true
    → compatible_with candidate minimum ≡ true
    → compatible_with newer minimum ≡ true
compatible_with_trans newer candidate minimum h k =
    let n = (compatible_with_iff newer candidate).0 h in
    let c = (compatible_with_iff candidate minimum).0 k in
    (compatible_with_iff newer minimum).1 (record {
      stable = n.stable;
      major = n.major ∙ c.major;
      minor = λ zero_major. n.minor zero_major ∙ c.minor (sym n.major ∙ zero_major);
      precedence = at_least_trans newer candidate minimum n.precedence c.precedence;
    })
