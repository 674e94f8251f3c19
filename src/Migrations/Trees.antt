-- ===== src/Migrations/Trees.antt =====
-- python/apexquant-migrations/src/apexquant-migrations/discovery.py
-- When the names of a tree are read, and which files are found.
use lord_hermes.Common.{
  ◌≡◌, refl, sym, ap, ◌∙◌, subst, Bool, true, false, List, [], ◌∷◌, ◌++◌, keep, sort_by, All, Any,
  if◌then◌else◌, if-cases, arith, ◌==◌, nat_eq, Option, some, is_none, String, inl, inr, ◌⊎◌,
  Outcome, ok, sort_by-All, All-sort_by, sort_by-Any, Bool-cases, keep-append, All-append,
  Any-append-left, Option-cases, Outcome-cases, Any-append-right,
}
use lord_hermes.Common.Text.{Text, text_eq}
use lord_hermes.Migrations.Models.{MigrationEngine, MigrationFile}
use lord_hermes.Migrations.Discovery.{
  Domain, dir, is_sql, match_version, entry_leb, name_leb, file_leb, read_entry, read_entries,
  is_direct, is_wanted, sql_entries, found_file, read_domains, discover_migrations, write_entry,
}

abbrev pub Matches : Text × Text → Type 0
Matches e = is_none (match_version e.0) ≡ false

module _ (digest : Text → Text) (path : Text) (engine : MigrationEngine) where
  -- A list of files that is read: its files, which have a file of each name.
  abbrev Reads : Text → List (Text × Text) → Type 0
  Reads domain entries =
      (files : List MigrationFile) × (read_entries digest path engine domain entries ≡ ok files)
      × ((name : Text) → Any (λ e. e.0 ≡ name) entries → Any (λ f. f.filename ≡ name) files)

  matching_read :
      (domain : Text) (entries : List (Text × Text)) → All Matches entries → Reads domain entries
  unfolding read_entries read_entry
  matching_read domain [] h = ([], refl, λ name k. absurd k)
  matching_read domain ((name, content) ∷ rest) h = elim (Option-cases (match_version name)) [
    | inl e ↦ absurd (ground (arith, e, h.0))
    | inr (version, e) ↦
        let (files, read, names) = matching_read domain rest h.1 in
        (
          found_file digest path engine domain name content version ∷ files,
          ground (arith, e, read),
          λ wanted k. by_place files names wanted k,
        )
  ]
    where
      by_place :
          (files : List MigrationFile)
          → ((n : Text) → Any (λ e. e.0 ≡ n) rest → Any (λ f. f.filename ≡ n) files)
          → (n : Text) → (name ≡ n) ⊎ Any (λ e. e.0 ≡ n) rest
          → (name ≡ n) ⊎ Any (λ f. f.filename ≡ n) files
      by_place files names n (inl p) = inl p
      by_place files names n (inr k) = inr (names n k)

  read_matching :
      (domain : Text) (entries : List (Text × Text)) (files : List MigrationFile)
      → read_entries digest path engine domain entries ≡ ok files
      → All Matches entries
  unfolding read_entries read_entry
  read_matching domain [] files h = tt
  read_matching domain ((name, content) ∷ rest) files h = elim (Option-cases (match_version name)) [
    | inl e ↦ absurd (ground (arith, e, h))
    | inr (version, e) ↦ elim (Outcome-cases (read_entries digest path engine domain rest)) [
      | inl (others, q) ↦ (ap is_none e, read_matching domain rest others q)
      | inr (x, q) ↦ absurd (ground (arith, e, q, h))
    ]
  ]

  -- A directory is skipped, or its names match.
  abbrev pub IsReadable : Option Text → Domain → Type 0
  IsReadable filter d =
      is_wanted digest path engine filter d.name ≡ true
      → All Matches (sql_entries digest path engine d)

  abbrev pub HasName : Option Text → Text → Domain → Type 0
  HasName filter name d =
      (is_wanted digest path engine filter d.name ≡ true)
      × Any (λ e. e.0 ≡ name) (sql_entries digest path engine d)

  abbrev pub Finds : Option Text → List Domain → Outcome String (List MigrationFile) → Type 0
  Finds filter domains found =
      (files : List MigrationFile) × (found ≡ ok files)
      × ((name : Text) → Any (HasName filter name) domains → Any (λ f. f.filename ≡ name) files)

  IsReadable-found :
      (filter : Option Text) (domains : List Domain)
      → All (IsReadable filter) domains
      → Finds filter domains (read_domains digest path engine filter domains)
  unfolding read_domains
  IsReadable-found filter [] h = ([], refl, λ name k. absurd k)
  IsReadable-found filter (d ∷ rest) h =
      let (others, read, names) = IsReadable-found filter rest h.1 in
      elim (Bool-cases (is_wanted digest path engine filter d.name)) [
        | inl wanted ↦
            let (files, here, here_names) =
              matching_read d.name (sql_entries digest path engine d) (h.0 wanted) in
            (
              files ++ others,
              rw (wanted, here, read) refl,
              λ name k. elim k [
                | inl p ↦
                    Any-append-left (λ f. f.filename ≡ name) files others (here_names name p.1)
                | inr l ↦ Any-append-right (λ f. f.filename ≡ name) files others (names name l)
              ],
            )
        | inr skipped ↦ (
          others,
          rw (skipped, read) refl,
          λ name k. elim k [ inl p ↦ absurd (clash skipped p.0) | inr l ↦ names name l ],
        )
      ]
    where
      clash : {b : Bool} → b ≡ false → b ≡ true → ⊥
      clash p q = cc

  found-IsReadable :
      (filter : Option Text) (domains : List Domain) (files : List MigrationFile)
      → read_domains digest path engine filter domains ≡ ok files
      → All (IsReadable filter) domains
  unfolding read_domains
  found-IsReadable filter [] files h = tt
  found-IsReadable filter (d ∷ rest) files h =
      elim (Outcome-cases (read_domains digest path engine filter rest)) [
        | inl (others, read) ↦ (
          λ wanted.
              elim (Outcome-cases
                (read_entries digest path engine d.name (sql_entries digest path engine d))) [
                  | inl (here, q) ↦ read_matching d.name (sql_entries digest path engine d) here q
                  | inr (x, q) ↦ absurd (ground (arith, wanted, q, h))
                ],
          found-IsReadable filter rest others read,
        )
        | inr (x, q) ↦ absurd (ground (arith, q, h))
      ]

  -- Discovery succeeds exactly on trees whose wanted names match.
  pub discover-IsReadable :
      (filter : Option Text) (domains : List Domain) (files : List MigrationFile)
      → discover_migrations digest path engine filter (dir domains) ≡ ok files
      → All (IsReadable filter) domains
  unfolding discover_migrations
  discover-IsReadable filter domains files h =
      elim (Outcome-cases (read_domains digest path engine filter (sort_by name_leb domains))) [
        | inl (found, q) ↦
            All-sort_by name_leb (IsReadable filter) domains
              (found-IsReadable filter (sort_by name_leb domains) found q)
        | inr (x, q) ↦ absurd (ground (arith, q, h))
      ]

  pub IsReadable-discover :
      (filter : Option Text) (domains : List Domain)
      → All (IsReadable filter) domains
      → Finds filter domains (discover_migrations digest path engine filter (dir domains))
  unfolding discover_migrations
  IsReadable-discover filter domains h =
      let (files, read, names) =
        IsReadable-found filter (sort_by name_leb domains)
          (sort_by-All name_leb (IsReadable filter) domains h) in
      (
        sort_by file_leb files,
        rw read refl,
        λ name k.
            sort_by-Any file_leb (λ f. f.filename ≡ name) files
              (names name (sort_by-Any name_leb (HasName filter name) domains k)),
      )

  -- A file written to the directory of a domain.
  module _ (domain name content : Text) where
    sql_entries-append :
        (d : Domain)
        → is_sql name ≡ true
        → sql_entries digest path engine (record d { entries = d.entries ++ (name, content) ∷ [] })
          ≡ sort_by entry_leb (keep (λ e. is_sql e.0) d.entries ++ (name, content) ∷ [])
    sql_entries-append d sql =
        ap (sort_by entry_leb)
          (keep-append (λ e. is_sql e.0) d.entries ((name, content) ∷ []) ∙ rw sql refl)

    pub write_entry-IsReadable :
        (filter : Option Text) (domains : List Domain)
        → is_sql name ≡ true
        → Matches (name, content)
        → All (IsReadable filter) domains
        → All (IsReadable filter) (write_entry domain (name, content) domains)
    unfolding write_entry
    write_entry-IsReadable filter [] sql new h = tt
    write_entry-IsReadable filter (d ∷ rest) sql new h = (
      if-cases (IsReadable filter) (d.name == domain)
          (λ wanted. subst (All Matches) (sym (sql_entries-append d sql)) (
            sort_by-All entry_leb Matches _ (
              All-append Matches (keep (λ e. is_sql e.0) d.entries) _
                (All-sort_by entry_leb Matches (keep (λ e. is_sql e.0) d.entries) (h.0 wanted))
                (new, tt))))
          h.0,
      write_entry-IsReadable filter rest sql new h.1,
    )

    -- The name is there, if the directory is.
    pub write_entry-HasName :
        (domains : List Domain)
        → is_direct domain ≡ true
        → is_sql name ≡ true
        → Any (λ d. d.name ≡ domain) domains
        → Any (HasName (some domain) name) (write_entry domain (name, content) domains)
    unfolding write_entry
    write_entry-HasName [] direct sql h = h
    write_entry-HasName (d ∷ rest) direct sql (inl same) = inl (
        subst (HasName (some domain) name) (sym (written ((text_eq.beq_iff d.name domain).1 same)))
          (
            wanted,
            subst (Any (λ e. e.0 ≡ name)) (sym (sql_entries-append d sql)) (
                sort_by-Any entry_leb (λ e. e.0 ≡ name) _
                  (Any-append-right (λ e. e.0 ≡ name) (keep (λ e. is_sql e.0) d.entries) _
                    (inl refl))),
          ))
      where
        wanted : is_wanted digest path engine (some domain) d.name ≡ true
        wanted =
            rw
              (
                subst (λ n. is_direct n ≡ true) (sym same) direct,
                (text_eq.beq_iff d.name domain).1 same,
              )
              refl

        written :
            (d.name == domain) ≡ true
            → (if d.name == domain
                then record d { entries = d.entries ++ (name, content) ∷ [] }
                else d)
              ≡ record d { entries = d.entries ++ (name, content) ∷ [] }
        written e = rw e refl
    write_entry-HasName (d ∷ rest) direct sql (inr h) = inr (write_entry-HasName rest direct sql h)
