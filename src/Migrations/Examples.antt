-- ===== src/Migrations/Examples.antt =====
-- python/apexquant-migrations: runs of the migrators, and the theorems at concrete inputs.
use lord_hermes.Common.{
  ◌<◌, ◌≤◌, ◌≡◌, ◌≢◌, ◌↔◌, refl, true, false, List, [], ◌∷◌, ◌++◌, none, some, String, ◌==◌,
  string_eq, get, values, length, All, Any, if◌then◌else◌, is_ok, ok, err, put, insert, sort_by,
}
use lord_hermes.Common.Text.{
  is_space, starts_with, ends_with, strip, strip_left, Text, codes, text_eq, text_beq, is_digit,
  is_lower,
}
use lord_hermes.Common.Decimal.{int, str, zfill}
use lord_hermes.Migrations.Models.{
  MigrationFile, MigrationRunReport, MigrationPlan, clickhouse, postgres, Mode, applied_one,
}
use lord_hermes.Migrations.Planner.{build_plan, sort_files, sort_file}
use lord_hermes.Migrations.Registry.{
  row_of, place, insert_row, get_applied, is_valid_row, is_checksum, is_hex, is_blank,
}
use lord_hermes.Migrations.Planned.{is_pending}
use lord_hermes.Migrations.Loop.{apply_pending}
use lord_hermes.Migrations.Postgres.{
  Database, Host, failed, plan, verify, migrate, record_file, apply, apply_locked, baseline,
  acquire_lock, release_lock, close, running, success, failure,
}
use lord_hermes.Migrations.Applied.{history_kept}
use lord_hermes.Migrations.Success.{planned, apply-verify, apply_twice}
use lord_hermes.Migrations.Failure.{apply_failure, failed_run}
use lord_hermes.Migrations.Statements.{
  split_sql, splitlines, split_lines, statement_of, is_line_break,
}
use lord_hermes.Migrations.ClickHouse
use lord_hermes.Migrations.ClickHouse.{Engine, Warehouse}
use lord_hermes.Migrations.Leaks.{lock_kept_iff}
use lord_hermes.Migrations.Discovery.{
  Root, dir, discover_migrations, read_domains, read_entries, read_entry, match_version, span,
  is_slug_tail, is_slug_char, matches_slug, is_sql, highest_version, next_version, make_domain,
  dirs_of, add_dir, add_dirs, IsName, write_entry, has_entry, render_template, create_migration,
}
use lord_hermes.Migrations.Numbering.{next_version_above}
use lord_hermes.Migrations.Rediscovery.{create-discover, newline_breaks_discovery}

abbrev checksum : Text
checksum = codes "00112233445566778899aabbccddeeff00112233445566778899aabbccddeeff"

abbrev file : Text → Text → MigrationFile
file version path = record {
  engine = postgres;
  domain = codes "core";
  filename = path;
  path = path;
  version = version;
  migration_id = path;
  checksum_sha256 = checksum;
}

abbrev first : MigrationFile
first = file (codes "0001") (codes "0001_init.sql")

abbrev second : MigrationFile
second = file (codes "0002") (codes "0002_next.sql")

-- The schema is the scripts that have run; a script called "bad" fails.
abbrev host : Host (List String)
host = record {
  read_text = λ path. ok (if path == first.path then "create" else "bad");
  execute = λ sql schema.
      if sql == "bad"
      then (err ("syntax error", false), schema)
      else if sql == "begin"
      then (err ("deadlock", true), schema)
      else (ok tt, schema ++ sql ∷ []);
  clock = λ f. 7;
  before = λ a b. true;
}

abbrev empty : Database (List String)
empty = record { schema = []; registry = []; runs = []; locked = false; aborted = false }

abbrev migrated : Database (List String)
migrated = record {
  schema = "create" ∷ [];
  registry = (first.migration_id, row_of first 7) ∷ [];
  runs =
      (
        "r1",
        record {
          status = success;
          planned_count = 1;
          applied_count = 1;
          failed_count = 0;
          error = none;
        },
      )
      ∷ [];
  locked = false;
  aborted = false;
}

abbrev report : MigrationRunReport
report = record {
  engine = postgres;
  mode = Mode.apply;
  ok = true;
  planned = 1;
  applied = 1;
  skipped = 0;
  failed = 0;
  details = applied_one first.migration_id ∷ [];
}

applies_first : apply host "r1" false (ok (first ∷ [])) empty ≡ (ok report, migrated)
unfolding apply plan apply_locked build_plan sort_files sort_file get_applied apply_pending migrate
    record_file insert_row place row_of is_valid_row is_checksum is_hex is_blank is_digit
    acquire_lock release_lock close get put text_beq
applies_first = refl

apply-verify_example :
    (found : MigrationRunReport) × (verify (ok (first ∷ [])) migrated ≡ ok found)
    × (found.ok ≡ true)
apply-verify_example =
    apply-verify host "r1" (first ∷ []) empty report migrated applies_first tt
      (((λ _. refl), tt), tt)

apply_twice_example :
    (again : MigrationRunReport) × (last : Database (List String)) × (apply host "r2" false
        (ok (first ∷ []))
        migrated
      ≡ (ok again, last))
    × (again.applied ≡ 0)
    × (last.schema ≡ migrated.schema)
    × (last.registry ≡ migrated.registry)
apply_twice_example =
    apply_twice host "r1" "r2" (first ∷ []) empty report migrated tt (((λ _. refl), tt), tt)
      applies_first

abbrev broken : Database (List String)
broken = record migrated {
  runs =
      (
        "r3",
        record {
          status = failure;
          planned_count = 2;
          applied_count = 1;
          failed_count = 1;
          error = some "syntax error";
        },
      )
      ∷ [];
}

second_fails :
    apply host "r3" false (ok (first ∷ second ∷ [])) empty ≡ (err (failed "syntax error"), broken)
unfolding apply plan apply_locked build_plan sort_files sort_file get_applied apply_pending migrate
    record_file insert_row place row_of is_valid_row is_checksum is_hex is_blank is_digit
    acquire_lock release_lock close get put text_beq
second_fails = refl

apply_failure_example :
    (done : List MigrationFile) × (rest : List MigrationFile) × ((planned host "r3"
        (first ∷ second ∷ [])
        empty).pending
      ≡ done ++ rest)
    × (rest ≢ [])
    × All (λ f. is_pending broken.registry f ≡ false) done
    × (get "r3" broken.runs
        ≡ some (
            failed_run host "r3"
              (first ∷ second ∷ [])
              empty
              "syntax error"
              broken
              second_fails
              (length done)))
apply_failure_example =
    apply_failure host "r3" (first ∷ second ∷ []) empty "syntax error" broken second_fails

-- The second script begins a transaction of its own, and fails in it.
abbrev locking : Host (List String)
locking = record host { read_text = λ path. ok (if path == first.path then "create" else "begin") }

abbrev left_running : Database (List String)
left_running = record migrated {
  runs =
      (
        "r4",
        record {
          status = running;
          planned_count = 2;
          applied_count = 0;
          failed_count = 0;
          error = none;
        },
      )
      ∷ [];
}

recorded : get first.migration_id migrated.registry ≡ some (row_of first 7)
unfolding get text_beq
recorded = refl

history_kept_example :
    (get first.migration_id (apply host "r2" false (ok (first ∷ second ∷ [])) migrated).1.registry
      ≡ some (row_of first 7))
    × (get first.migration_id (baseline host true (ok (first ∷ second ∷ [])) migrated).1.registry
        ≡ some (row_of first 7))
history_kept_example =
    history_kept host first.migration_id (row_of first 7) "r2" false true (ok (first ∷ second ∷ []))
      migrated recorded

next_version_above_example :
    All (λ f. int f.version < int (next_version (first ∷ second ∷ []))) (first ∷ second ∷ [])
    × (4 ≤ length (next_version (first ∷ second ∷ [])))
    × All (λ c. is_digit c ≡ true) (next_version (first ∷ second ∷ []))
next_version_above_example = next_version_above (first ∷ second ∷ [])

third_is_numbered : next_version (first ∷ second ∷ []) ≡ codes "0003"
unfolding next_version highest_version int str zfill
third_is_numbered = refl

abbrev digest : Text → Text
digest content = checksum

abbrev tree : Root
tree =
    dir
      (record { name = codes "core"; entries = (codes "0001_init.sql", codes "create") ∷ [] } ∷ [])

abbrev root_path : Text
root_path = codes "migrations"

abbrev tree_after : Text → Root
tree_after filename = dir (
    record {
      name = codes "core";
      entries =
          (codes "0001_init.sql", codes "create")
          ∷ (filename, render_template postgres (codes "core") filename)
          ∷ [];
    }
    ∷ [])

creates_next :
    create_migration digest root_path postgres (codes "core") (codes "next") tree
    ≡ (ok (codes "0002_next.sql"), tree_after (codes "0002_next.sql"))
unfolding create_migration matches_slug span is_slug_char is_lower is_digit make_domain dirs_of
    add_dir add_dirs discover_migrations read_domains read_entries read_entry match_version
    is_slug_tail is_sql insert sort_by next_version highest_version int str zfill has_entry
    write_entry text_beq
creates_next = refl

is_slug : All (λ c. is_slug_char c ≡ true) (codes "next")
unfolding is_slug_char is_lower is_digit
is_slug = (refl, (refl, (refl, (refl, tt))))

one-IsName : IsName (codes "core")
one-IsName = (refl, (λ e. cc e), (λ e. cc e), λ e. cc e)

create-discover_example :
    (files : List MigrationFile) × (discover_migrations digest root_path postgres
        (some (codes "core"))
        (tree_after (codes "0002_next.sql"))
      ≡ ok files)
    × Any (λ f. f.filename ≡ codes "0002_next.sql") files
create-discover_example =
    create-discover digest root_path postgres (codes "core") (codes "next") tree
      (codes "0002_next.sql") (tree_after (codes "0002_next.sql")) creates_next one-IsName is_slug
      (λ e. cc e)

creates_newline :
    create_migration digest root_path postgres (codes "core") (codes "next\n") tree
    ≡ (ok (codes "0002_next\n.sql"), tree_after (codes "0002_next\n.sql"))
unfolding create_migration matches_slug span is_slug_char is_lower is_digit make_domain dirs_of
    add_dir add_dirs discover_migrations read_domains read_entries read_entry match_version
    is_slug_tail is_sql insert sort_by next_version highest_version int str zfill has_entry
    write_entry text_beq
creates_newline = refl

newline_breaks_discovery_example :
    is_ok (
      discover_migrations digest root_path postgres
        (some (codes "core"))
        (tree_after (codes "0002_next\n.sql")))
    ≡ false
newline_breaks_discovery_example =
    newline_breaks_discovery digest root_path postgres (codes "core") (codes "next\n") tree
      (codes "0002_next\n.sql") (tree_after (codes "0002_next\n.sql")) creates_newline
      (codes "next") one-IsName is_slug refl

-- A warehouse whose second client does not connect.
abbrev unreachable : Engine (List Text)
unreachable = record {
  read_text = λ path. ok (codes "SELECT 1;");
  command = λ statement schema. (ok tt, schema ++ statement ∷ []);
  clock = λ f. 7;
  plan_client = ok tt;
  apply_client = err "connection refused";
}

abbrev warehouse : Warehouse (List Text)
warehouse = record { schema = []; registry = []; runs = []; locked = false }

abbrev found_plan : MigrationPlan
found_plan = record {
  engine = clickhouse;
  ok = true;
  pending = first ∷ [];
  applied = [];
  drift = [];
}

plans : ClickHouse.plan unreachable (ok (first ∷ [])) warehouse ≡ ok found_plan
unfolding ClickHouse.plan build_plan sort_files sort_file ClickHouse.get_applied get values
plans = refl

lock_kept_iff_example :
    ((ClickHouse.apply unreachable (codes "r1") false (ok (first ∷ [])) warehouse).1.locked ≡ false)
    ↔ (false ≡ true)
lock_kept_iff_example =
    lock_kept_iff unreachable (codes "r1") (ok (first ∷ [])) warehouse found_plan plans refl

abbrev script : Text
script = codes "-- two tables\nCREATE TABLE a;\nCREATE\nTABLE b ;\n"

splits : split_sql script ≡ codes "CREATE TABLE a" ∷ codes "CREATE\nTABLE b" ∷ []
unfolding split_sql splitlines split_lines statement_of is_line_break strip strip_left is_space
    starts_with ends_with
splits = refl
