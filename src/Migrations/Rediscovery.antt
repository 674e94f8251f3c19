-- ===== src/Migrations/Rediscovery.antt =====
-- python/apexquant-migrations/src/apexquant-migrations/discovery.py
-- What discovery makes of the tree that create_migration leaves.
use lord_hermes.Common.{
  if-cases, Any-append-left, ◌≡◌, ◌≢◌, refl, sym, ap, ◌∙◌, subst, Bool, true, false, not, List, [],
  ◌∷◌, ◌++◌, All, Any, any, any-Any, Any-map, Any-append-right, Any-All, Outcome-cases,
  if◌then◌else◌, ◌==◌, nat_eq, none, some, is_none, String, inl, inr, Outcome, ok, err, is_ok,
  Bool-cases,
}
use mathlib.Core.List.{append_assoc, append-nil}
use lord_hermes.Common.Text.{Text, text_eq, newline}
use lord_hermes.Migrations.Models.{MigrationEngine, MigrationFile}
use lord_hermes.Migrations.Discovery.{
  Domain, Root, missing, not_dir, dir, underscore, sql_suffix, is_slug_char, matches_slug, is_sql,
  match_version, next_version, discover_migrations, make_domain, slash, dirs_of, add_dir, add_dirs,
  IsName, write_entry, has_entry, render_template, create_file, create_in, create_below,
  create_migration, sql_entries,
}
use lord_hermes.Migrations.Numbering.{next_version-length, next_version-All}
use lord_hermes.Migrations.Creation.{
  is_sql-append, is_sql-prefix, match_version-slug, match_version-newline,
}
use lord_hermes.Migrations.Trees.{
  Matches, IsReadable, HasName, discover-IsReadable, IsReadable-discover, write_entry-IsReadable,
  write_entry-HasName,
}

-- The directory itself is the last of its paths.
dirs_of-Any : (before path : Text) → Any (λ p. p ≡ before ++ path) (dirs_of before path)
unfolding dirs_of
dirs_of-Any before [] = inl (sym (append-nil before))
dirs_of-Any before (c ∷ path) = by_test (c == slash) (
    Any-map (dirs_of (before ++ c ∷ []) path) (λ p e. e ∙ append_assoc before (c ∷ []) path)
      (dirs_of-Any (before ++ c ∷ []) path))
  where
    by_test :
        (b : Bool)
        → Any (λ p. p ≡ before ++ c ∷ path) (dirs_of (before ++ c ∷ []) path)
        → Any
            (λ p. p ≡ before ++ c ∷ path)
            (if b
              then before ∷ dirs_of (before ++ c ∷ []) path
              else dirs_of (before ++ c ∷ []) path)
    by_test true h = inr h
    by_test false h = h

add_dir-keeps :
    (P : Domain → Type 0) (path : Text) (domains : List Domain)
    → Any P domains
    → Any P (add_dir path domains)
unfolding add_dir
add_dir-keeps P path domains h =
    if-cases (Any P) (any (λ d. d.name == path) domains) h (Any-append-left P domains _ h)

add_dir-Any :
    (path : Text) (domains : List Domain) → Any (λ d. d.name ≡ path) (add_dir path domains)
unfolding add_dir
add_dir-Any path domains = elim (Bool-cases (any (λ d. d.name == path) domains)) [
  | inl there ↦ subst (Any (λ d. d.name ≡ path)) (sym (same there)) (
      Any-map domains (λ d. (text_eq.beq_iff d.name path).0)
        (any-Any (λ d. d.name == path) domains there))
  | inr absent ↦
      subst (Any (λ d. d.name ≡ path)) (sym (added absent))
        (Any-append-right (λ d. d.name ≡ path) domains _ (inl refl))
]
  where
    same : any (λ d. d.name == path) domains ≡ true → add_dir path domains ≡ domains
    same e = rw e refl

    added :
        any (λ d. d.name == path) domains ≡ false
        → add_dir path domains ≡ domains ++ record { name = path; entries = [] } ∷ []
    added e = rw e refl

add_dirs-keeps :
    (P : Domain → Type 0) (paths : List Text) (domains : List Domain)
    → Any P domains
    → Any P (add_dirs paths domains)
unfolding add_dirs
add_dirs-keeps P [] domains h = h
add_dirs-keeps P (path ∷ rest) domains h =
    add_dirs-keeps P rest (add_dir path domains) (add_dir-keeps P path domains h)

add_dirs-Any :
    (wanted : Text) (paths : List Text) (domains : List Domain)
    → Any (λ p. p ≡ wanted) paths
    → Any (λ d. d.name ≡ wanted) (add_dirs paths domains)
unfolding add_dirs
add_dirs-Any wanted [] domains h = absurd h
add_dirs-Any wanted (path ∷ rest) domains (inl e) =
    add_dirs-keeps (λ d. d.name ≡ wanted) rest (add_dir path domains)
      (subst (λ w. Any (λ d. d.name ≡ w) (add_dir path domains)) e (add_dir-Any path domains))
add_dirs-Any wanted (path ∷ rest) domains (inr h) =
    add_dirs-Any wanted rest (add_dir path domains) h

make_domain-Any :
    (domain : Text) (root : Root) (domains : List Domain)
    → make_domain domain root ≡ ok domains
    → Any (λ d. d.name ≡ domain) domains
unfolding make_domain
make_domain-Any domain not_dir domains h = absurd (cc h)
make_domain-Any domain missing domains h =
    subst (Any (λ d. d.name ≡ domain)) {x = add_dirs (dirs_of [] domain) []} {y = domains} (cc h)
      (add_dirs-Any domain (dirs_of [] domain) [] (dirs_of-Any [] domain))
make_domain-Any domain (dir old) domains h =
    subst (Any (λ d. d.name ≡ domain)) {x = add_dirs (dirs_of [] domain) old} {y = domains} (cc h)
      (add_dirs-Any domain (dirs_of [] domain) old (dirs_of-Any [] domain))

module _ (digest : Text → Text) (path : Text) (engine : MigrationEngine) (domain slug : Text)
    (root : Root) (filename : Text) (after : Root)
    (created : create_migration digest path engine domain slug root ≡ (ok filename, after)) where
  -- What a creation that succeeds has gone through.
  abbrev Went : Type 0
  Went =
      (domains : List Domain) × (existing : List MigrationFile) × (make_domain domain root
        ≡ ok domains)
      × (discover_migrations digest path engine (some domain) (dir domains) ≡ ok existing)
      × (filename ≡ next_version existing ++ underscore ∷ (slug ++ sql_suffix))
      × (after
          ≡ dir (write_entry domain (filename, render_template engine domain filename) domains))

  went : Went
  unfolding create_migration
  went = by_slug (matches_slug slug) created
    where
      by_files :
          (domains : List Domain)
          → make_domain domain root ≡ ok domains
          → (found : Outcome String (List MigrationFile))
          → discover_migrations digest path engine (some domain) (dir domains) ≡ found
          → create_in digest path engine domain slug domains found ≡ (ok filename, after)
          → Went
      by_files domains made (err e) q h = absurd (cc h)
      by_files domains made (ok existing) q h = by_entry (has_entry domain name domains) h
        where
          name : Text
          name = next_version existing ++ underscore ∷ (slug ++ sql_suffix)

          by_entry :
              (b : Bool)
              → create_file digest path engine domain name domains b ≡ (ok filename, after)
              → Went
          by_entry true k = absurd (cc k)
          by_entry false k =
              let named : name ≡ filename = cc k in
              (
                domains,
                existing,
                made,
                q,
                sym named,
                sym (ap (λ r. r.1) k)
                    ∙ ap
                        (λ n. dir (write_entry domain (n, render_template engine domain n) domains))
                        named,
              )

      by_domain :
          (o : Outcome String (List Domain))
          → make_domain domain root ≡ o
          → create_below digest path engine domain slug root o ≡ (ok filename, after)
          → Went
      by_domain (err e) q h = absurd (cc h)
      by_domain (ok domains) q h = by_files domains q _ refl h

      by_slug :
          (b : Bool)
          → ◌≡◌ {A = Outcome String Text × Root}
              (if not b
                then (
                  err "migration slug may only contain lowercase letters, digits, and underscores",
                  root,
                )
                else create_below digest path engine domain slug root (make_domain domain root))
              (ok filename, after)
          → Went
      by_slug false h = absurd (cc h)
      by_slug true h = by_domain (make_domain domain root) refl h

  -- A domain that is one name, and a slug of the characters that the pattern allows: the tree is
  -- readable again, and the new file is found.
  pub create-discover :
      IsName domain
      → All (λ c. is_slug_char c ≡ true) slug
      → slug ≢ []
      → (files : List MigrationFile) × (discover_migrations digest path engine (some domain) after
          ≡ ok files)
        × Any (λ f. f.filename ≡ filename) files
  create-discover one_name all_slug ne =
      let (domains, existing, made, found, named, left) = went in
      let content = render_template engine domain filename in
      let matches : Matches (filename, content) =
        ap (λ n. is_none (match_version n)) named
        ∙ ap is_none (
            match_version-slug (next_version existing) slug (next_version-All existing)
              (next_version-length existing) all_slug ne) in
      let sql : is_sql filename ≡ true =
        ap is_sql named
        ∙ is_sql-prefix (next_version existing) (underscore ∷ (slug ++ sql_suffix))
            (is_sql-append (underscore ∷ slug)) in
      let (files, read, names) =
        IsReadable-discover digest path engine (some domain)
          (write_entry domain (filename, content) domains)
          (write_entry-IsReadable digest path engine domain filename content (some domain) domains
            sql matches
            (discover-IsReadable digest path engine (some domain) domains existing found)) in
      (
        files,
        ap (discover_migrations digest path engine (some domain)) left ∙ read,
        names filename (
            write_entry-HasName digest path engine domain filename content domains one_name.0 sql
              (make_domain-Any domain root domains made)),
      )

  -- The pattern also lets a slug through that ends in a newline: for a domain that is one name the
  -- tree cannot be read again.
  pub newline_breaks_discovery :
      (run : Text)
      → IsName domain
      → All (λ c. is_slug_char c ≡ true) run
      → slug ≡ run ++ newline ∷ []
      → is_ok (discover_migrations digest path engine (some domain) after) ≡ false
  newline_breaks_discovery run one_name all_run ends =
      let (domains, existing, made, found, named, left) = went in
      let content = render_template engine domain filename in
      let unmatched : match_version filename ≡ none =
        ap match_version (named ∙ ap (λ t. next_version existing ++ underscore ∷ t) (joined ends))
        ∙ match_version-newline (next_version existing) run (next_version-All existing)
            (next_version-length existing) all_run in
      let sql : is_sql filename ≡ true =
        ap is_sql named
        ∙ is_sql-prefix (next_version existing) (underscore ∷ (slug ++ sql_suffix))
            (is_sql-append (underscore ∷ slug)) in
      let written = write_entry domain (filename, content) domains in
      let named_there =
        write_entry-HasName digest path engine domain filename content domains one_name.0 sql
          (make_domain-Any domain root domains made) in
      elim (Outcome-cases (discover_migrations digest path engine (some domain) (dir written))) [
        | inl (files, q) ↦
            let readable = discover-IsReadable digest path engine (some domain) written files q in
            let (d, has, reads) =
              Any-All (HasName digest path engine (some domain) filename)
                (IsReadable digest path engine (some domain)) written readable named_there in
            let (e, is_name, matches) =
              Any-All (λ e. e.0 ≡ filename) Matches (sql_entries digest path engine d) (reads has.0)
                has.1 in
            absurd (clash (sym (ap is_none (ap match_version is_name ∙ unmatched)) ∙ matches))
        | inr (x, q) ↦ ap is_ok (ap (discover_migrations digest path engine (some domain)) left ∙ q)
      ]
    where
      joined : slug ≡ run ++ newline ∷ [] → slug ++ sql_suffix ≡ run ++ newline ∷ sql_suffix
      joined e = ap (λ t. t ++ sql_suffix) e ∙ append_assoc run (newline ∷ []) sql_suffix

      clash : true ≡ false → ⊥
      clash h = cc h
