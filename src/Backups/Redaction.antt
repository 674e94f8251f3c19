-- ===== src/Backups/Redaction.antt =====
-- python/apexquant-backup-recovery/src/apexquant-backup-recovery/redaction.py
-- urlparse, as far as redact_url reads it: ASCII texts, no address in brackets, and a port that is
-- a number. What follows the authority is kept as one text.
use lord_hermes.Common.{
  ℕ, Bool, true, false, not, ◌&&◌, ◌||◌, List, [], ◌∷◌, ◌++◌, Option, none, some, ◌==◌, nat_eq,
  if◌then◌else◌, is_nonempty, all, leb, drop,
}
use lord_hermes.Common.Text.{Text, codes, starts_with, has_part, lower, is_lower, is_digit, text_eq}
use lord_hermes.Common.Decimal.{int, str}

-- text.partition(c): what stands before the first c, and after it if it is there.
unfoldable pub partition : ℕ → Text → Text × Option Text
partition d [] = ([], none)
partition d (c ∷ text) =
    let (head, tail) = partition d text in if c == d then ([], some text) else (c ∷ head, tail)

-- text.rpartition(c), with the part before the last c, if it is there.
unfoldable pub rpartition : ℕ → Text → Option Text × Text
rpartition d [] = (none, [])
rpartition d (c ∷ text) = extend c (c == d) (rpartition d text)
  where
    extend : ℕ → Bool → Option Text × Text → Option Text × Text
    extend c found (some head, tail) = (some (c ∷ head), tail)
    extend c true (none, tail) = (some [], tail)
    extend c false (none, tail) = (none, c ∷ tail)

unfoldable pub is_letter : ℕ → Bool
unfolding is_lower
is_letter c = is_lower c || (leb b'A' c && leb c b'Z')

unfoldable pub is_scheme_char : ℕ → Bool
unfolding is_letter is_digit
is_scheme_char c = is_letter c || is_digit c || c == b'+' || c == b'-' || c == b'.'

unfoldable pub is_scheme : Text → Bool
unfolding is_letter is_scheme_char
is_scheme [] = false
is_scheme (c ∷ text) = is_letter c && all is_scheme_char text

-- The authority ends at the first of "/", "?" and "#".
unfoldable pub split_netloc : Text → Text × Text
split_netloc [] = ([], [])
split_netloc (c ∷ text) =
    let (netloc, rest) = split_netloc text in
    if c == b'/' || c == b'?' || c == b'#' then ([], c ∷ text) else (c ∷ netloc, rest)

pub record ParsedUrl : Type 0 where
  pub scheme : Text
  pub netloc : Text
  pub rest : Text

abbrev pub with_netloc : Text → Text → ParsedUrl
with_netloc scheme text =
    let (netloc, rest) = split_netloc (drop 2 text) in
    if starts_with text (codes "//")
    then record { scheme = scheme; netloc = netloc; rest = rest }
    else record { scheme = scheme; netloc = []; rest = text }

abbrev pub with_scheme : Text → Text × Option Text → ParsedUrl
with_scheme url (head, none) = with_netloc [] url
with_scheme url (head, some tail) =
    if is_scheme head then with_netloc (lower head) tail else with_netloc [] url

unfoldable pub urlparse : Text → ParsedUrl
urlparse url = with_scheme url (partition b':' url)

-- parsed.password and parsed.username, "" for None.
unfoldable pub credentials : ParsedUrl → Text × Text
credentials parsed = of_userinfo (rpartition b'@' parsed.netloc).0
  where
    of_userinfo : Option Text → Text × Text
    of_userinfo none = ([], [])
    of_userinfo (some userinfo) =
        let (username, password) = partition b':' userinfo in
        (username, elim password [ none ↦ [] | some p ↦ p ])

-- The host in lower case, and the port unless it is absent or 0.
unfoldable pub host_port : ParsedUrl → Text × Option ℕ
host_port parsed =
    let (host, port) = partition b':' (rpartition b'@' parsed.netloc).1 in
    (lower host, nonzero port)
  where
    nonzero : Option Text → Option ℕ
    nonzero none = none
    nonzero (some text) = if int text == 0 then none else some (int text)

abbrev port_suffix : Option ℕ → Text
port_suffix none = []
port_suffix (some port) = b':' ∷ str port

abbrev scheme_prefix : Text → Text
scheme_prefix [] = []
scheme_prefix (c ∷ scheme) = c ∷ scheme ++ b':' ∷ []

unfoldable pub redact_url : Text → Text
redact_url value =
    let parsed = urlparse value in
    let (username, password) = credentials parsed in
    let (hostname, port) = host_port parsed in
    if not (is_nonempty password)
    then value
    else scheme_prefix parsed.scheme
      ++ codes "//"
      ++ username
      ++ codes ":***@"
      ++ hostname
      ++ port_suffix port
      ++ parsed.rest

unfoldable pub redact_command : List Text → List Text
redact_command [] = []
redact_command (arg ∷ command) =
    (if has_part arg (codes "://") then redact_url arg else arg) ∷ redact_command command
