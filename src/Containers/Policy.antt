-- ===== src/Containers/Policy.antt =====
-- python/apexquant-container-policy/src/apexquant_container_policy/policy.py. A check returns the
-- violations that it appends, in order. Every violation of a check is an error.
use lord_hermes.Common.{
  ℕ, Bool, true, false, ◌&&◌, ◌||◌, not, List, [], ◌∷◌, ◌++◌, map, Option, none, some, String, ◌==◌,
  string_eq, nat_eq, contains, get, any, keep, flatten, length, is_nonempty, if◌then◌else◌,
}
use lord_hermes.Common.Text.{
  Text, text_eq, codes, colon, lower, upper, strip, starts_with, has_part, after_first, ends_with,
  text_leb,
}
use lord_hermes.Containers.Compose.{
  Severity, error, warning, severity_eq, Violation, VerificationReport, HealthcheckTest, no_test,
  shell, exec, ComposeHealthcheck, Value, null, scalar, sequence, mapping, Fields, end, field,
  ComposeService,
}

abbrev pub managed_label : String
managed_label = "apexquant.managed"

abbrev pub read_only_exempt_label : String
read_only_exempt_label = "apexquant.container.read_only_exempt"

abbrev pub healthcheck_exempt_label : String
healthcheck_exempt_label = "apexquant.container.healthcheck_exempt"

abbrev pub required_labels : List String
required_labels =
    "apexquant.service.name" ∷ "apexquant.service.plane" ∷ "apexquant.environment"
    ∷ "apexquant.feature" ∷ "apexquant.version" ∷ "apexquant.fail_closed_policy" ∷ []

abbrev pub secret_key_markers : List Text
secret_key_markers =
    map codes
      ("password" ∷ "secret" ∷ "token" ∷ "api_key" ∷ "apikey" ∷ "private_key" ∷ "credential" ∷ [])

abbrev pub root_users : List Text
root_users = map codes ("root" ∷ "0" ∷ "0:0" ∷ "uid=0" ∷ "uid=0 gid=0" ∷ [])

-- service.labels.get(label) == "true"
abbrev pub label_is_true : Option Text → Bool
label_is_true none = false
label_is_true (some value) = value == codes "true"

unfoldable pub has_label : String → ComposeService → Bool
has_label label service = label_is_true (get label service.labels)

abbrev pub violation : ComposeService → String → Text → List Violation
violation service code message =
    record { service_name = service.name; code = code; severity = error; message = message } ∷ []

unfoldable pub check_label : ComposeService → String → Option Text → List Violation
check_label service label none =
    violation service "MISSING_LABEL" (codes "required label is missing: " ++ codes label)
check_label service label (some value) =
    if is_nonempty (strip value)
    then []
    else violation service "EMPTY_LABEL" (codes "required label is empty: " ++ codes label)

-- The loop of `_verify_labels` over the labels that are left.
unfoldable pub verify_labels : ComposeService → List String → List Violation
verify_labels service [] = []
verify_labels service (label ∷ rest) =
    check_label service label (get label service.labels) ++ verify_labels service rest

unfoldable pub check_tag : ComposeService → Text → List Violation
check_tag service tag =
    if not (is_nonempty (strip tag))
    then violation service "EMPTY_IMAGE_TAG" (codes "image tag must not be empty")
    else if tag == codes "latest"
    then violation service "LATEST_IMAGE_TAG_FORBIDDEN" (codes "latest image tag is forbidden")
    else []

unfoldable pub verify_image : ComposeService → Option Text → List Violation
verify_image service none =
    violation service "MISSING_IMAGE" (codes "managed services must declare an explicit image")
verify_image service (some image) =
    if not (is_nonempty image)
    then violation service "MISSING_IMAGE" (codes "managed services must declare an explicit image")
    else if has_part image (codes "@sha256:")
    then []
    else if not (contains colon image)
    then violation service "MISSING_IMAGE_TAG" (codes "image must include an explicit version tag")
    else check_tag service (after_first colon image)

unfoldable pub verify_user : ComposeService → Option Text → List Violation
verify_user service none =
    violation service "MISSING_USER"
      (codes "managed services must run as an explicit non-root user")
verify_user service (some user) =
    if not (is_nonempty user)
    then violation service "MISSING_USER"
        (codes "managed services must run as an explicit non-root user")
    else if contains (lower (strip user)) root_users
    then violation service "ROOT_USER_FORBIDDEN" (codes "managed services must not run as root")
    else []

-- `if test: violations.append(...)`
unfoldable pub when : Bool → List Violation → List Violation
when test found = if test then found else []

unfoldable pub verify_privilege : ComposeService → List Violation
verify_privilege service =
    when service.privileged
      (violation service "PRIVILEGED_FORBIDDEN" (codes "privileged containers are forbidden"))
    ++ when (not (contains "no-new-privileges:true" service.security_opt)) (
        violation service "NO_NEW_PRIVILEGES_MISSING"
          (codes "security_opt must include no-new-privileges:true"))

-- cap.upper() == "ALL"
unfoldable pub is_all : Text → Bool
is_all name = upper name == codes "ALL"

unfoldable pub verify_capabilities : ComposeService → List Violation
verify_capabilities service =
    when (not (any is_all service.cap_drop))
      (violation service "CAP_DROP_ALL_MISSING" (codes "cap_drop must include ALL"))
    ++ when (not service.read_only && not (has_label read_only_exempt_label service)) (
        violation service "READ_ONLY_REQUIRED"
          (codes "managed services must use a read-only root filesystem"))

-- bool(healthcheck.test)
unfoldable pub has_test : HealthcheckTest → Bool
has_test no_test = false
has_test (shell command) = is_nonempty command
has_test (exec arguments) = is_nonempty arguments

unfoldable pub check_healthcheck : ComposeService → Option ComposeHealthcheck → List Violation
check_healthcheck service none =
    violation service "HEALTHCHECK_MISSING" (codes "managed services must define a healthcheck")
check_healthcheck service (some healthcheck) =
    when (not (has_test healthcheck.test))
      (violation service "INVALID_HEALTHCHECK" (codes "healthcheck test must not be empty"))

unfoldable pub verify_healthcheck : ComposeService → List Violation
verify_healthcheck service =
    if has_label healthcheck_exempt_label service
    then []
    else check_healthcheck service service.healthcheck

unfoldable pub verify_networks : ComposeService → List Violation
verify_networks service =
    if not (is_nonempty service.networks)
    then violation service "NETWORKS_MISSING"
        (codes "managed services must attach to explicit networks")
    else when (contains "default" service.networks) (
        violation service "DEFAULT_NETWORK_FORBIDDEN"
          (codes "managed services must not use the default network"))

-- mapping.get(key)
unfoldable pub find : String → Fields → Value
find key end = null
find key (field name value rest) = let other = find key rest in if name == key then value else other

unfoldable pub is_null : Value → Bool
is_null null = true
is_null (scalar text) = false
is_null (sequence items) = false
is_null (mapping fields) = false

unfoldable pub mapping_of : Value → Option Fields
mapping_of null = none
mapping_of (scalar text) = none
mapping_of (sequence items) = none
mapping_of (mapping fields) = some fields

unfoldable pub check_limits : ComposeService → Option Fields → List Violation
check_limits service none =
    violation service "RESOURCE_LIMITS_MISSING" (codes "deploy.resources.limits must be defined")
check_limits service (some limits) =
    when (is_null (find "memory" limits))
      (violation service "MEMORY_LIMIT_MISSING" (codes "memory limit must be defined"))
    ++ when (is_null (find "cpus" limits))
        (violation service "CPU_LIMIT_MISSING" (codes "CPU limit must be defined"))

unfoldable pub check_resources : ComposeService → Option Fields → List Violation
check_resources service none =
    violation service "RESOURCE_LIMITS_MISSING" (codes "deploy.resources must be defined")
check_resources service (some resources) =
    check_limits service (mapping_of (find "limits" resources))

unfoldable pub verify_resource_limits : ComposeService → Option Fields → List Violation
verify_resource_limits service none =
    violation service "RESOURCE_LIMITS_MISSING"
      (codes "managed services must define deploy resource limits")
verify_resource_limits service (some deploy) =
    check_resources service (mapping_of (find "resources" deploy))

unfoldable pub is_literal_secret : Text → Text → Bool
is_literal_secret key value =
    any (has_part (lower key)) secret_key_markers
    && (is_nonempty value && not (starts_with value (codes "${") && ends_with value 125))

-- The loop of `_verify_environment_secrets`.
unfoldable pub verify_environment_secrets : ComposeService → List (Text × Text) → List Violation
verify_environment_secrets service [] = []
verify_environment_secrets service ((key, value) ∷ rest) =
    when (is_literal_secret key value) (
      violation service "LITERAL_SECRET_IN_ENVIRONMENT"
        (codes "environment variable " ++ key ++ codes " appears to contain a literal secret"))
    ++ verify_environment_secrets service rest

-- The calls of `_verify_service`, in order.
abbrev pub checks : ComposeService → List (List Violation)
checks service =
    verify_labels service required_labels
    ∷ verify_image service service.image
    ∷ verify_user service service.user
    ∷ verify_privilege service
    ∷ verify_capabilities service
    ∷ verify_healthcheck service
    ∷ verify_networks service
    ∷ verify_resource_limits service service.deploy
    ∷ verify_environment_secrets service service.environment
    ∷ []

unfoldable pub verify_service : ComposeService → List Violation
verify_service service = flatten (checks service)

-- sorted(document.services.keys()), each name with its service: the keys of a `dict` are distinct.
unfoldable pub insert_item :
    Text × ComposeService → List (Text × ComposeService) → List (Text × ComposeService)
insert_item item [] = item ∷ []
insert_item item (next ∷ rest) =
    let after = insert_item item rest in
    if text_leb item.0 next.0 then item ∷ next ∷ rest else next ∷ after

unfoldable pub sorted_items : List (Text × ComposeService) → List (Text × ComposeService)
sorted_items [] = []
sorted_items (item ∷ rest) = insert_item item (sorted_items rest)

unfoldable pub is_managed : Text × ComposeService → Bool
is_managed item = has_label managed_label item.1

unfoldable pub verify_all : List (Text × ComposeService) → List Violation
verify_all [] = []
verify_all (item ∷ rest) =
    (if is_managed item then verify_service item.1 else []) ++ verify_all rest

unfoldable pub count_severity : Severity → List Violation → ℕ
count_severity severity violations = length (keep (λ v. v.severity == severity) violations)

unfoldable pub verify_document : List (Text × ComposeService) → Bool → VerificationReport
verify_document services strict_warnings =
    let items = sorted_items services in
    let violations = verify_all items in
    let errors_count = count_severity error violations in
    let warnings_count = count_severity warning violations in
    record {
      ok = errors_count == 0 && (not strict_warnings || warnings_count == 0);
      errors_count = errors_count;
      warnings_count = warnings_count;
      services_checked = map (λ item. item.0) (keep is_managed items);
      violations = violations;
    }
