-- ===== src/Migrations/Discovery.antt =====
-- python/apexquant-migrations/src/apexquant-migrations/discovery.py
-- The migration tree is the value `Root`: the directories at whatever depth under the root, each by
-- its path from the root, with the files in it. Paths are ASCII and normal: names joined by single
-- slashes, none of them empty, "." or "..". A file stands only in a directory under the root, and
-- not where create_migration makes a directory. Files are readable, and `digest` is SHA-256 of their
-- bytes, as hex.
use lord_hermes.Common.{
  ◌≡◌, ◌≢◌, contains, ℕ, ◌+◌, Bool, true, false, not, ◌&&◌, ◌||◌, List, [], ◌∷◌, ◌++◌, Option, none,
  some, String, ◌==◌, nat_eq, ltb, leb, length, keep, any, sort_by, if◌then◌else◌, Outcome, ok, err,
  ◌>>=◌,
}
use lord_hermes.Common.Text.{Text, codes, text_eq, text_leb, is_digit, is_lower, newline}
use lord_hermes.Common.Decimal.{int, str, zfill}
use lord_hermes.Migrations.Models.{MigrationEngine, postgres, clickhouse, engine_eq, MigrationFile}

-- A directory under the root: its path from there, and its files with their contents.
pub record Domain : Type 0 where
  pub name : Text
  pub entries : List (Text × Text)

pub data Root : Type 0 where
  missing : Root
  not_dir : Root
  dir : List Domain → Root

abbrev pub underscore : ℕ
underscore = 95

-- ".sql" and "/"
abbrev pub sql_suffix : Text
sql_suffix = 46 ∷ 115 ∷ 113 ∷ 108 ∷ []

abbrev pub slash : ℕ
slash = 47

unfoldable pub is_slug_char : ℕ → Bool
unfolding is_lower is_digit
is_slug_char c = is_lower c || is_digit c || c == underscore

-- The longest prefix of characters that pass, and what follows it.
unfoldable pub span : (ℕ → Bool) → Text → Text × Text
span test [] = ([], [])
span test (c ∷ text) =
    let (run, rest) = span test text in if test c then (c ∷ run, rest) else ([], c ∷ text)

-- What follows the digits in FILENAME_PATTERN: an underscore, a slug, and ".sql".
unfoldable pub is_slug_tail : Text → Bool
is_slug_tail [] = false
is_slug_tail (c ∷ text) =
    let (slug, rest) = span is_slug_char text in
    c == underscore && leb 1 (length slug) && rest == sql_suffix

-- FILENAME_PATTERN.match(name), and its group 1.
unfoldable pub match_version : Text → Option Text
match_version name =
    let (digits, rest) = span is_digit name in
    if leb 4 (length digits) && is_slug_tail rest then some digits else none

-- SLUG_PATTERN.match(slug): `$` also matches before a newline that ends the text.
unfoldable pub matches_slug : Text → Bool
matches_slug slug =
    let (run, rest) = span is_slug_char slug in
    leb 1 (length run) && (rest == [] || rest == newline ∷ [])

unfoldable pub is_sql : Text → Bool
is_sql [] = false
is_sql (c ∷ text) = (c ∷ text) == sql_suffix || is_sql text

abbrev pub engine_value : MigrationEngine → Text
engine_value postgres = 112 ∷ 111 ∷ 115 ∷ 116 ∷ 103 ∷ 114 ∷ 101 ∷ 115 ∷ []
engine_value clickhouse = 99 ∷ 108 ∷ 105 ∷ 99 ∷ 107 ∷ 104 ∷ 111 ∷ 117 ∷ 115 ∷ 101 ∷ []

abbrev pub name_leb : Domain → Domain → Bool
name_leb a b = text_leb a.name b.name

abbrev pub entry_leb : Text × Text → Text × Text → Bool
entry_leb a b = text_leb a.0 b.0

abbrev pub is_direct : Text → Bool
is_direct path = not (contains slash path)

-- One name of a directory, which stands for a child of the root.
abbrev pub IsName : Text → Type 0
IsName domain =
    (is_direct domain ≡ true) × (domain ≢ []) × (domain ≢ codes ".") × (domain ≢ codes "..")

-- The key of the last sort: domain, int(version), filename.
unfoldable pub file_leb : MigrationFile → MigrationFile → Bool
file_leb a b =
    if a.domain == b.domain
    then (if int a.version == int b.version
        then text_leb a.filename b.filename
        else ltb (int a.version) (int b.version))
    else text_leb a.domain b.domain

module _ (digest : Text → Text) (path : Text) (engine : MigrationEngine) where
  abbrev pub found_file : Text → Text → Text → Text → MigrationFile
  found_file domain name content version = record {
    engine = engine;
    domain = domain;
    filename = name;
    path = path ++ slash ∷ (domain ++ slash ∷ name);
    version = version;
    migration_id = engine_value engine ++ slash ∷ (domain ++ slash ∷ name);
    checksum_sha256 = digest content;
  }

  -- The body of the inner loop: a file whose name does not match raises.
  unfoldable pub read_entry : Text → Text × Text → Outcome String MigrationFile
  read_entry domain (name, content) = elim (match_version name) [
    | none ↦ err "invalid migration filename"
    | some version ↦ ok (found_file domain name content version)
  ]

  unfoldable pub read_entries : Text → List (Text × Text) → Outcome String (List MigrationFile)
  read_entries domain [] = ok []
  read_entries domain (entry ∷ rest) = do
    file ← read_entry domain entry
    files ← read_entries domain rest
    ok (file ∷ files)

  abbrev passes_filter : Option Text → Text → Bool
  passes_filter none name = true
  passes_filter (some domain) name = name == domain

  -- A child of the root, as iterdir lists them, that the filter lets through.
  abbrev pub is_wanted : Option Text → Text → Bool
  is_wanted filter name = is_direct name && passes_filter filter name

  -- sorted(domain_dir.glob("*.sql"))
  abbrev pub sql_entries : Domain → List (Text × Text)
  sql_entries d = sort_by entry_leb (keep (λ e. is_sql e.0) d.entries)

  unfoldable pub read_domains : Option Text → List Domain → Outcome String (List MigrationFile)
  read_domains filter [] = ok []
  read_domains filter (d ∷ rest) = do
    files ← (if is_wanted filter d.name then read_entries d.name (sql_entries d) else ok [])
    others ← read_domains filter rest
    ok (files ++ others)

  unfoldable pub discover_migrations : Option Text → Root → Outcome String (List MigrationFile)
  discover_migrations filter missing = err "migration root does not exist"
  discover_migrations filter not_dir = err "migration root is not a directory"
  discover_migrations filter (dir domains) = do
    files ← read_domains filter (sort_by name_leb domains)
    ok (sort_by file_leb files)

unfoldable pub highest_version : List MigrationFile → ℕ
highest_version [] = 0
highest_version (file ∷ rest) =
    let highest = highest_version rest in
    if ltb highest (int file.version) then int file.version else highest

unfoldable pub next_version : List MigrationFile → Text
next_version [] = b'0' ∷ b'0' ∷ b'0' ∷ b'1' ∷ []
next_version (file ∷ rest) =
    let next_value = highest_version (file ∷ rest) + 1 in
    let width = if ltb 4 (length (str next_value)) then length (str next_value) else 4 in
    zfill width (str next_value)

-- The paths of a directory and of those above it, below the root.
unfoldable pub dirs_of : Text → Text → List Text
dirs_of before [] = before ∷ []
dirs_of before (c ∷ path) =
    let others = dirs_of (before ++ c ∷ []) path in if c == slash then before ∷ others else others

unfoldable pub add_dir : Text → List Domain → List Domain
add_dir path domains =
    if any (λ d. d.name == path) domains
    then domains
    else domains ++ record { name = path; entries = [] } ∷ []

unfoldable pub add_dirs : List Text → List Domain → List Domain
add_dirs [] domains = domains
add_dirs (path ∷ rest) domains = add_dirs rest (add_dir path domains)

-- domain_dir.mkdir(parents=True, exist_ok=True); below a root that is a file it raises.
unfoldable pub make_domain : Text → Root → Outcome String (List Domain)
make_domain domain missing = ok (add_dirs (dirs_of [] domain) [])
make_domain domain not_dir = err "not a directory"
make_domain domain (dir domains) = ok (add_dirs (dirs_of [] domain) domains)

-- path.write_text: a new file in the directory of the domain.
unfoldable pub write_entry : Text → Text × Text → List Domain → List Domain
write_entry domain entry [] = []
write_entry domain entry (d ∷ rest) =
    (if d.name == domain then record d { entries = d.entries ++ entry ∷ [] } else d)
    ∷ write_entry domain entry rest

unfoldable pub has_entry : Text → Text → List Domain → Bool
has_entry domain name [] = false
has_entry domain name (d ∷ rest) =
    (d.name == domain && any (λ e. e.0 == name) d.entries) || has_entry domain name rest

abbrev join_lines : List Text → Text
join_lines [] = []
join_lines (line ∷ []) = line
join_lines (line ∷ next ∷ rest) = line ++ newline ∷ join_lines (next ∷ rest)

abbrev template_body : MigrationEngine → List Text
template_body postgres = codes "BEGIN;" ∷ [] ∷ codes "SELECT 1;" ∷ [] ∷ codes "COMMIT;" ∷ [] ∷ []
template_body clickhouse = codes "SELECT 1;" ∷ [] ∷ []

-- The slug and the version, which the template takes and does not use, are left out.
unfoldable pub render_template : MigrationEngine → Text → Text → Text
render_template engine domain filename = join_lines (
    codes "-- ApexQuant Ultra"
    ∷ (codes "-- Domain: " ++ domain)
    ∷ (codes "-- Migration: " ++ filename)
    ∷ codes "-- Generated by apexquant-migrate."
    ∷ []
    ∷ template_body engine)

-- The result is the filename, and the tree is as it is when the operation raises.
abbrev pub Created : Type 0
Created = Outcome String Text × Root

module _ (digest : Text → Text) (path : Text) where
  abbrev pub create_file : MigrationEngine → Text → Text → List Domain → Bool → Created
  create_file engine domain filename domains true = (err "migration already exists", dir domains)
  create_file engine domain filename domains false = (
    ok filename,
    dir (write_entry domain (filename, render_template engine domain filename) domains),
  )

  abbrev pub create_in :
      MigrationEngine → Text → Text → List Domain → Outcome String (List MigrationFile) → Created
  create_in engine domain slug domains (err e) = (err e, dir domains)
  create_in engine domain slug domains (ok existing) =
      let filename = next_version existing ++ underscore ∷ (slug ++ sql_suffix) in
      create_file engine domain filename domains (has_entry domain filename domains)

  abbrev pub create_below :
      MigrationEngine → Text → Text → Root → Outcome String (List Domain) → Created
  create_below engine domain slug root (err e) = (err e, root)
  create_below engine domain slug root (ok domains) =
      create_in engine domain slug domains
        (discover_migrations digest path engine (some domain) (dir domains))

  unfoldable pub create_migration : MigrationEngine → Text → Text → Root → Created
  create_migration engine domain slug root =
      if not (matches_slug slug)
      then (err "migration slug may only contain lowercase letters, digits, and underscores", root)
      else create_below engine domain slug root (make_domain domain root)
