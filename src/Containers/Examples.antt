-- ===== src/Containers/Examples.antt =====
-- python/apexquant-container-policy/src/apexquant_container_policy/policy.py
-- A compliant service, one that is not, and the theorems at them.
use lord_hermes.Common.{nat_eq, ◌≡◌, refl, true, false, List, [], ◌∷◌, some, String, map, get}
use lord_hermes.Common.Text.{
  Text, codes, lower, upper, strip, strip_left, is_space, has_part, starts_with, after_first,
  ends_with, text_leb, text_beq,
}
use lord_hermes.Containers.Compose.{
  Severity-discrete, exec, scalar, mapping, Fields, end, field, ComposeService,
}
use lord_hermes.Containers.Policy.{
  verify_document, verify_all, sorted_items, insert_item, is_managed, has_label, verify_service,
  verify_labels, check_label, verify_image, check_healthcheck, check_limits, check_resources,
  check_tag, count_severity, find, has_test, is_all, is_literal_secret, is_null, mapping_of,
  verify_capabilities, verify_environment_secrets, verify_healthcheck, verify_networks,
  verify_privilege, verify_resource_limits, verify_user, when, managed_label,
}

abbrev label : String → String × Text
label name = (name, codes "test")

abbrev limits : Fields
limits = field "memory" (scalar "256M") (field "cpus" (scalar "0.5") end)

abbrev service : Text → ComposeService
service image = record {
  name = codes "test-service";
  image = some image;
  user = some (codes "10001:10001");
  read_only = true;
  privileged = false;
  security_opt = "no-new-privileges:true" ∷ [];
  cap_drop = codes "ALL" ∷ [];
  healthcheck = some (record { test = exec ("CMD" ∷ "true" ∷ []) });
  environment = (codes "DB_PASSWORD", codes "${DB_PASSWORD}") ∷ [];
  networks = "internal" ∷ [];
  labels =
      (managed_label, codes "true")
      ∷ label "apexquant.service.name"
      ∷ label "apexquant.service.plane"
      ∷ label "apexquant.environment"
      ∷ label "apexquant.feature"
      ∷ label "apexquant.version"
      ∷ label "apexquant.fail_closed_policy"
      ∷ [];
  deploy = some (field "resources" (mapping (field "limits" (mapping limits) end)) end);
}

abbrev services : List (Text × ComposeService)
services =
    (codes "web", service (codes "apexquant/web:0.1.0"))
    ∷ (codes "api", service (codes "apexquant/api:latest"))
    ∷ []

codes_found :
    map (λ v. v.code) (verify_document services false).violations
    ≡ "LATEST_IMAGE_TAG_FORBIDDEN" ∷ []
unfolding verify_document verify_all sorted_items insert_item text_leb is_managed has_label get
    text_beq verify_service verify_labels check_label strip strip_left is_space verify_image
    has_part starts_with after_first ends_with lower upper Severity-discrete check_healthcheck
    check_limits check_resources check_tag count_severity find has_test is_all is_literal_secret
    is_null mapping_of verify_capabilities verify_environment_secrets verify_healthcheck
    verify_networks verify_privilege verify_resource_limits verify_user when
codes_found = refl

checked_in_order :
    (verify_document services false).services_checked ≡ codes "api" ∷ codes "web" ∷ []
unfolding verify_document sorted_items insert_item text_leb is_managed has_label get text_beq
checked_in_order = refl
