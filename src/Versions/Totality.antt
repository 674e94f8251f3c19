-- ===== src/Versions/Totality.antt =====
-- python/apexquant-service-versioning/src/apexquant-service-versioning/semver.py
-- When `highest_compatible` raises nothing.
use lord_hermes.Common.{◌≡◌, refl, Bool, List, [], ◌∷◌, Option, if◌then◌else◌, All, if-cases, ok}
use lord_hermes.Common.Text.{Text}
use lord_hermes.Versions.Semver.{
  SemVer, parse_version, compatible_with, is_backward_compatible, keep_compatible, parse_all,
  sort_descending, first_text, highest_compatible,
}

abbrev pub HasVersion : Text → Type 0
HasVersion value = (v : SemVer) × (parse_version value ≡ ok v)

is_backward_compatible_total :
    (candidate minimum : Text)
    → HasVersion candidate
    → HasVersion minimum
    → (b : Bool) × (is_backward_compatible candidate minimum ≡ ok b)
unfolding is_backward_compatible
is_backward_compatible_total candidate minimum (v, e) (w, g) = (compatible_with v w, rw (e, g) refl)

keep_compatible_total :
    (candidates : List Text) (minimum : Text)
    → All HasVersion candidates
    → HasVersion minimum
    → (kept : List Text) × (keep_compatible candidates minimum ≡ ok kept) × All HasVersion kept
unfolding keep_compatible
keep_compatible_total [] minimum h m = ([], refl, tt)
keep_compatible_total (c ∷ rest) minimum (h, hs) m =
    let (b, tested) = is_backward_compatible_total c minimum h m in
    let (others, found, all_others) = keep_compatible_total rest minimum hs m in
    (
      if b then c ∷ others else others,
      rw (tested, found) refl,
      if-cases (All HasVersion) b (h, all_others) all_others,
    )

parse_all_total :
    (values : List Text)
    → All HasVersion values
    → (parsed : List (Text × SemVer)) × (parse_all values ≡ ok parsed)
unfolding parse_all
parse_all_total [] h = ([], refl)
parse_all_total (value ∷ rest) ((v, e), hs) =
    let (others, found) = parse_all_total rest hs in ((value, v) ∷ others, rw (e, found) refl)

-- When the minimum and every candidate are versions, `highest_compatible` answers.
pub highest_compatible_total :
    (candidates : List Text) (minimum : Text)
    → All HasVersion candidates
    → HasVersion minimum
    → (answer : Option Text) × (highest_compatible candidates minimum ≡ ok answer)
unfolding highest_compatible
highest_compatible_total candidates minimum h m =
    let (kept, one, all_kept) = keep_compatible_total candidates minimum h m in
    let (parsed, two) = parse_all_total kept all_kept in
    (first_text (sort_descending parsed), rw (one, two) refl)
