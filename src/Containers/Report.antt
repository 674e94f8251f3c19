-- ===== src/Containers/Report.antt =====
-- python/apexquant-container-policy/src/apexquant_container_policy/policy.py
-- What the report of `verify_document` says of the services.
use lord_hermes.Common.{◌≡◌, refl, true, false, List, nat_eq, length}
use lord_hermes.Common.Text.{Text}
use lord_hermes.Containers.Compose.{Violation, ComposeService}
use lord_hermes.Containers.Policy.{verify_all, sorted_items, verify_document}
use lord_hermes.Containers.Severities.{Errors, verify_all-Errors, count_errors, count_warnings}
use lord_hermes.Containers.Compliance.{Compliant, SaysTrue, HasNoPort}

-- The service is managed only if it is compliant.
abbrev pub Meets : Text × ComposeService → Type 0
Meets item = SaysTrue "apexquant.managed" item.1 → Compliant item.1

abbrev pub NoPort : Text × ComposeService → Type 0
NoPort item = HasNoPort item.1

-- No check reports a warning: the strict mode decides as the other does, and the error count is the
-- number of violations.
pub strict_mode_is_idle :
    (services : List (Text × ComposeService))
    → ((verify_document services true).ok ≡ (verify_document services false).ok)
      × (((verify_document services true).warnings_count ≡ 0)
          × ((verify_document services true).errors_count
              ≡ length (verify_document services true).violations))
unfolding verify_document
strict_mode_is_idle services = (same, (count_warnings found errors, count_errors found errors))
  where
    found : List Violation
    found = verify_all (sorted_items services)

    errors : Errors found
    errors = verify_all-Errors (sorted_items services)

    same : (verify_document services true).ok ≡ (verify_document services false).ok
    same = rw (count_warnings found errors) refl
