-- ===== src/Versions/Examples.antt =====
-- python/apexquant-service-versioning/src/apexquant-service-versioning
-- Versions compared and chosen, and the theorems at them.
use lord_hermes.Common.{
  String, true, values, ◌↔◌, All, ℕ, get, put, ◌≡◌, refl, List, [], ◌∷◌, Option, none, some, ok,
  err,
}
use lord_hermes.Common.Text.{Text, codes, strip, strip_left, is_space, is_digit}
use lord_hermes.Versions.Semver.{
  SemVer, SemVerError, parse_version, compare, compatible_with, is_backward_compatible,
  highest_compatible, split_dots, span, to_int, is_number, read_number, read_char, read_tail,
  read_build, is_dotted, is_identifier_char, identifier_of, prerelease_identifiers, keep_compatible,
  parse_all, insert_descending, sort_descending,
}
use lord_hermes.Versions.Highest.{IsAnswer, highest_compatible-IsAnswer}
use lord_hermes.Versions.Repository.{
  VersionRecord, get_released_versions, sort_by_numbers, insert_by_numbers, InMemoryRepository,
  released, LifecycleStatus-discrete, insert_event, insert_version, set_dependencies,
  update_version_release, update_version_status,
}
use lord_hermes.Versions.Service.{
  ServiceVersion, Fresh, VersionCreate, release_version, releasable, get_version, deprecate_version,
  has_status, create_version, creatable, check_dependencies, retire_version,
}
use lord_hermes.Versions.Lifecycle.{Moves, status_at}
use lord_hermes.Versions.Traces.{
  Request, create, release, deprecate, handle, handle_all, handle-Moves,
}
use lord_hermes.Versions.Listing.{CompatibilityReport, check_compatibility, resolve_dependencies}
use lord_hermes.Versions.Compatibility.{IsMet, check_compatibility_iff}
use lord_hermes.Versions.Totality.{highest_compatible_total}

abbrev version : ℕ → ℕ → Option Text → Option Text → SemVer
version minor patch prerelease build = record {
  major = 1;
  minor = minor;
  patch = patch;
  prerelease = prerelease;
  build = build;
}

parses :
    parse_version (codes "1.2.3-rc.1+b7 ")
    ≡ ok (version 2 3 (some (codes "rc.1")) (some (codes "b7")))
unfolding parse_version read_number is_number span strip strip_left is_space read_char read_tail
    is_dotted split_dots is_identifier_char read_build to_int
parses = refl

refuses : parse_version (codes "1.02.3") ≡ err (SemVerError.invalid_version (codes "1.02.3"))
unfolding parse_version read_number is_number span strip strip_left is_space read_char read_tail
    is_dotted split_dots is_identifier_char read_build to_int
refuses = refl

abbrev candidates : List Text
candidates = codes "1.2.0" ∷ codes "1.10.0" ∷ codes "2.0.0" ∷ codes "1.11.0-rc.1" ∷ []

chosen : highest_compatible candidates (codes "1.1.0") ≡ ok (some (codes "1.10.0"))
unfolding highest_compatible keep_compatible is_backward_compatible parse_all compatible_with
    compare is_digit insert_descending sort_descending prerelease_identifiers identifier_of
    parse_version read_number is_number span strip strip_left is_space read_char read_tail is_dotted
    split_dots is_identifier_char read_build to_int
chosen = refl

highest_compatible-IsAnswer_example : IsAnswer candidates (codes "1.1.0") (some (codes "1.10.0"))
highest_compatible-IsAnswer_example =
    highest_compatible-IsAnswer candidates (codes "1.1.0") (some (codes "1.10.0")) chosen

abbrev parsed : (minor patch : ℕ) → SemVer
parsed minor patch = version minor patch none none

highest_compatible_total_example :
    (answer : Option Text) × (highest_compatible (codes "1.2.0" ∷ []) (codes "1.1.0") ≡ ok answer)
unfolding parse_version read_number is_number span strip strip_left is_space read_char read_tail
    is_dotted split_dots is_identifier_char read_build to_int
highest_compatible_total_example =
    highest_compatible_total (codes "1.2.0" ∷ []) (codes "1.1.0") ((parsed 2 0, refl), tt)
      (parsed 1 0, refl)

abbrev fresh : Fresh
fresh = record { now = 7; version_id = "v"; event_id = "e" }

abbrev payload : VersionCreate Unit
payload = record {
  version = "1.0.0";
  git_sha = none;
  image_tag = none;
  api_version = "v1";
  min_compatible_version = none;
  dependencies = [];
  metadata = tt;
}

abbrev registered : InMemoryRepository Unit
registered = record {
  services =
      (
        "svc",
        record {
          service_name = "svc";
          plane = codes "CONTROL";
          description = "";
          created_at = 1;
          updated_at = 1;
        },
      )
      ∷ [];
  versions = [];
  dependencies = [];
  events = [];
}

abbrev requests : List (Request Unit)
requests =
    create fresh "svc" payload
    ∷ deprecate fresh "svc" "1.0.0" "ann" ""
    ∷ release fresh "svc" "1.0.0" "abcdef0" "svc:1.0.0" "00" "ann" ""
    ∷ []

handle-Moves_example :
    Moves
      (status_at "svc:1.0.0" registered)
      (status_at "svc:1.0.0" (handle (create fresh "svc" payload) registered))
handle-Moves_example = handle-Moves (create fresh "svc" payload) "svc:1.0.0" registered

released_at_last : status_at "svc:1.0.0" (handle_all requests registered) ≡ some released
unfolding handle_all handle release_version releasable get_version deprecate_version has_status
    create_version creatable check_dependencies retire_version get put is_digit
    LifecycleStatus-discrete insert_event insert_version set_dependencies update_version_release
    update_version_status parse_version read_number is_number span strip strip_left is_space
    read_char read_tail is_dotted split_dots is_identifier_char read_build to_int
released_at_last = refl

abbrev released_record : String → String → String → ℕ → ℕ → VersionRecord Unit
released_record id service_name version major minor = record {
  version_id = id;
  service_name = service_name;
  version = version;
  major = major;
  minor = minor;
  patch = 0;
  prerelease = none;
  build_metadata = none;
  git_sha = none;
  image_tag = none;
  api_version = "v1";
  min_compatible_version = none;
  status = released;
  checksum_sha256 = none;
  metadata = tt;
  created_at = 1;
  released_at = none;
  deprecated_at = none;
  retired_at = none;
  updated_at = 1;
}

abbrev dependent : InMemoryRepository Unit
dependent = record {
  services = [];
  versions =
      ("app:1.0.0", released_record "v1" "app" "1.0.0" 1 0)
      ∷ ("db:2.1.0", released_record "v2" "db" "2.1.0" 2 1)
      ∷ [];
  dependencies = ("v1", record { service_name = "db"; min_version = "2.0.0" } ∷ []) ∷ [];
  events = [];
}

abbrev app : ServiceVersion Unit
app = record {
  stored = released_record "v1" "app" "1.0.0" 1 0;
  dependencies = record { service_name = "db"; min_version = "2.0.0" } ∷ [];
}

app_there : get_version "app" "1.0.0" dependent ≡ ok app
unfolding get_version get
app_there = refl

abbrev app_report : CompatibilityReport
app_report = record {
  service_name = "app";
  version = "1.0.0";
  ok = true;
  dependencies =
      record {
        service_name = "db";
        min_version = "2.0.0";
        resolved_version = some (codes "2.1.0");
        compatible = true;
        reason = "compatible released version found";
      }
      ∷ [];
}

app_checked : check_compatibility "app" "1.0.0" dependent ≡ ok app_report
unfolding LifecycleStatus-discrete check_compatibility get_version get values resolve_dependencies
    highest_compatible get_released_versions keep_compatible is_backward_compatible compatible_with
    compare parse_all sort_descending parse_version read_number is_number span strip strip_left
    is_space is_digit read_char read_tail is_dotted split_dots is_identifier_char read_build to_int
    sort_by_numbers insert_by_numbers insert_descending
app_checked = refl

check_compatibility_iff_example :
    (true ≡ true)
    ↔ All (IsMet dependent) (record { service_name = "db"; min_version = "2.0.0" } ∷ [])
check_compatibility_iff_example =
    check_compatibility_iff dependent "app" "1.0.0" app app_report app_there app_checked
