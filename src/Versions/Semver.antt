-- ===== src/Versions/Semver.antt =====
-- python/apexquant-service-versioning/src/apexquant-service-versioning/semver.py, on ASCII texts.
use lord_hermes.Common.{
  ℕ, ◌+◌, ◌*◌, ◌-◌, Bool, false, ◌&&◌, ◌||◌, not, List, [], ◌∷◌, map, Option, none, some, ◌==◌,
  nat_eq, leb, all, is_none, is_nonempty, if◌then◌else◌, Outcome, ok, err, ◌>>=◌, ◌>>◌, guard,
}
use lord_hermes.Common.Text.{Text, is_lower, is_digit, strip}
use lord_hermes.Versions.Orders.{Order, before, level, after, then_by, nat_order, lex, is_before}

pub record SemVer : Type 0 where
  pub major : ℕ
  pub minor : ℕ
  pub patch : ℕ
  pub prerelease : Option Text
  pub build : Option Text

pub data SemVerError : Type 0 where
  invalid_version : Text → SemVerError

-- [0-9A-Za-z-]
unfoldable pub is_identifier_char : ℕ → Bool
unfolding is_lower is_digit
is_identifier_char c = is_lower c || is_digit c || (leb b'A' c && leb c b'Z') || c == b'-'

abbrev pub cons_head : ℕ → List Text → List Text
cons_head c [] = (c ∷ []) ∷ []
cons_head c (seg ∷ segs) = (c ∷ seg) ∷ segs

-- text.split(".")
unfoldable pub split_dots : Text → List Text
split_dots [] = [] ∷ []
split_dots (c ∷ rest) =
    let segs = split_dots rest in if c == b'.' then [] ∷ segs else cons_head c segs

-- The longest start whose characters pass, and what follows.
unfoldable pub span : (ℕ → Bool) → Text → Text × Text
span test [] = ([], [])
span test (c ∷ rest) =
    let more = span test rest in if test c then (c ∷ more.0, more.1) else ([], c ∷ rest)

-- int(text)
unfoldable pub to_int : ℕ → Text → ℕ
to_int n [] = n
to_int n (c ∷ rest) = to_int (n * 10 + (c - 48)) rest

-- 0|[1-9]\d*
unfoldable pub is_number : Text → Bool
is_number [] = false
is_number (c ∷ rest) = not (c == 48) || not (is_nonempty rest)

unfoldable pub read_number : SemVerError → Text → Outcome SemVerError (ℕ × Text)
unfolding is_digit
read_number e text = do
  let found = span is_digit text
  guard (is_number found.0) e
  ok (to_int 0 found.0, found.1)

unfoldable pub read_char : SemVerError → ℕ → Text → Outcome SemVerError Text
read_char e c [] = err e
read_char e c (d ∷ rest) = if c == d then ok rest else err e

-- [0-9A-Za-z-]+(?:\.[0-9A-Za-z-]+)*
unfoldable pub is_dotted : Text → Bool
is_dotted text = all (λ seg. is_nonempty seg && all is_identifier_char seg) (split_dots text)

-- (?:\+(...))?$
unfoldable pub read_build : SemVerError → Text → Outcome SemVerError (Option Text)
read_build e [] = ok none
read_build e (c ∷ rest) =
    if c == b'+' then (if is_dotted rest then ok (some rest) else err e) else err e

-- (?:-(...))? and the build: a plus sign is no identifier character, so it ends the prerelease.
unfoldable pub read_tail : SemVerError → Text → Outcome SemVerError (Option Text × Option Text)
read_tail e [] = ok (none, none)
read_tail e (c ∷ rest) =
    if c == b'-'
    then (do
      let found = span (λ d. not (d == b'+')) rest
      guard (is_dotted found.0) e
      build ← read_build e found.1
      ok (some found.0, build))
    else (do build ← read_build e (c ∷ rest); ok (none, build))

unfoldable pub parse_version : Text → Outcome SemVerError SemVer
parse_version value = do
  let e = invalid_version value
  major ← read_number e (strip value)
  rest ← read_char e b'.' major.1
  minor ← read_number e rest
  rest2 ← read_char e b'.' minor.1
  patch ← read_number e rest2
  tail ← read_tail e patch.1
  ok (record {
    major = major.0;
    minor = minor.0;
    patch = patch.0;
    prerelease = tail.0;
    build = tail.1;
  })

abbrev pub is_stable : SemVer → Bool
is_stable v = is_none v.prerelease

abbrev pub numeric_tuple : SemVer → List ℕ
numeric_tuple v = v.major ∷ v.minor ∷ v.patch ∷ []

pub data Identifier : Type 0 where
  numeric : ℕ → Identifier
  word : Text → Identifier

-- identifier.isdigit()
unfoldable pub identifier_of : Text → Identifier
identifier_of text =
    if is_nonempty text && all is_digit text then numeric (to_int 0 text) else word text

unfoldable pub prerelease_identifiers : Option Text → List Identifier
prerelease_identifiers none = []
prerelease_identifiers (some text) = map identifier_of (split_dots text)

-- The body of the loop of `compare`.
abbrev pub identifier_order : Identifier → Identifier → Order
identifier_order (numeric x) (numeric y) = nat_order x y
identifier_order (numeric x) (word y) = before
identifier_order (word x) (numeric y) = after
identifier_order (word x) (word y) = lex nat_order x y

abbrev pub prerelease_order : Option Text → Option Text → Order
prerelease_order none none = level
prerelease_order none (some right) = after
prerelease_order (some left) none = before
prerelease_order (some left) (some right) =
    lex identifier_order (prerelease_identifiers (some left)) (prerelease_identifiers (some right))

unfoldable pub compare : SemVer → SemVer → Order
compare a b =
    then_by (lex nat_order (numeric_tuple a) (numeric_tuple b))
      (prerelease_order a.prerelease b.prerelease)

-- self >= other
abbrev pub at_least : SemVer → SemVer → Bool
at_least a b = not (is_before (compare a b))

unfoldable pub compatible_with : SemVer → SemVer → Bool
compatible_with candidate minimum =
    if not (is_stable candidate)
    then false
    else if candidate.major == 0 || minimum.major == 0
    then candidate.major == minimum.major
      && candidate.minor == minimum.minor
      && at_least candidate minimum
    else candidate.major == minimum.major && at_least candidate minimum

unfoldable pub is_backward_compatible : Text → Text → Outcome SemVerError Bool
is_backward_compatible candidate minimum = do
  candidate_version ← parse_version candidate
  minimum_version ← parse_version minimum
  ok (compatible_with candidate_version minimum_version)

-- The list comprehension of `highest_compatible`.
unfoldable pub keep_compatible : List Text → Text → Outcome SemVerError (List Text)
keep_compatible [] minimum = ok []
keep_compatible (candidate ∷ rest) minimum = do
  compatible ← is_backward_compatible candidate minimum
  others ← keep_compatible rest minimum
  ok (if compatible then candidate ∷ others else others)

-- The keys of `sorted`, each beside its text.
unfoldable pub parse_all : List Text → Outcome SemVerError (List (Text × SemVer))
parse_all [] = ok []
parse_all (value ∷ rest) = do
  version ← parse_version value
  others ← parse_all rest
  ok ((value, version) ∷ others)

-- `sorted(..., reverse=True)` keeps the order of what compares level.
unfoldable pub insert_descending : Text × SemVer → List (Text × SemVer) → List (Text × SemVer)
insert_descending item [] = item ∷ []
insert_descending item (next ∷ rest) =
    let later = insert_descending item rest in
    if is_before (compare item.1 next.1) then next ∷ later else item ∷ next ∷ rest

unfoldable pub sort_descending : List (Text × SemVer) → List (Text × SemVer)
sort_descending [] = []
sort_descending (item ∷ rest) = insert_descending item (sort_descending rest)

abbrev pub first_text : List (Text × SemVer) → Option Text
first_text [] = none
first_text (item ∷ rest) = some item.0

unfoldable pub highest_compatible : List Text → Text → Outcome SemVerError (Option Text)
highest_compatible candidates minimum = do
  compatible ← keep_compatible candidates minimum
  parsed ← parse_all compatible
  ok (first_text (sort_descending parsed))
