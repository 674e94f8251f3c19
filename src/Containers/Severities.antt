-- ===== src/Containers/Severities.antt =====
-- python/apexquant-container-policy/src/apexquant_container_policy/policy.py
-- The severity of what the checks report.
use lord_hermes.Common.{
  ◌≡◌, refl, Bool, not, List, [], ◌∷◌, ◌++◌, Option, none, some, String, ◌==◌, get, length,
  is_nonempty, if-cases, All, All-append, All-flatten, contains, suc, ap, string_eq, nat_eq,
}
use lord_hermes.Common.Text.{Text, text_eq, codes, colon, lower, strip, after_first, has_part}
use lord_hermes.Containers.Compose.{
  error, warning, severity_eq, Severity-discrete, Violation, ComposeHealthcheck, Fields,
  ComposeService,
}
use lord_hermes.Containers.Policy.{
  when, check_label, verify_labels, check_tag, verify_image, verify_user, verify_privilege,
  verify_capabilities, check_healthcheck, verify_healthcheck, verify_networks, check_limits,
  check_resources, verify_resource_limits, verify_environment_secrets, verify_service, checks,
  is_managed, verify_all, count_severity, required_labels, mapping_of, find, has_label,
  healthcheck_exempt_label, root_users,
}

abbrev pub Errors : List Violation → Type 0
Errors found = All (λ v. v.severity ≡ error) found

when-Errors : (test : Bool) (found : List Violation) → Errors found → Errors (when test found)
unfolding when
when-Errors test found h = if-cases Errors test h tt

then_Errors : (xs ys : List Violation) → Errors xs → Errors ys → Errors (xs ++ ys)
then_Errors xs ys h k = All-append _ xs ys h k

labels : (s : ComposeService) (names : List String) → Errors (verify_labels s names)
unfolding verify_labels check_label
labels s [] = tt
labels s (name ∷ rest) = then_Errors _ _ (label name (get name s.labels)) (labels s rest)
  where
    label : (name : String) (value : Option Text) → Errors (check_label s name value)
    label name none = (refl, tt)
    label name (some value) = if-cases Errors (is_nonempty (strip value)) tt (refl, tt)

image : (s : ComposeService) (i : Option Text) → Errors (verify_image s i)
unfolding verify_image check_tag
image s none = (refl, tt)
image s (some i) =
    if-cases Errors (not (is_nonempty i)) (refl, tt)
      (if-cases Errors (has_part i (codes "@sha256:")) tt (
        if-cases Errors (not (contains colon i)) (refl, tt)
          (if-cases Errors (not (is_nonempty (strip (after_first colon i)))) (refl, tt)
            (if-cases Errors (after_first colon i == codes "latest") (refl, tt) tt))))

user : (s : ComposeService) (u : Option Text) → Errors (verify_user s u)
unfolding verify_user
user s none = (refl, tt)
user s (some u) =
    if-cases Errors (not (is_nonempty u)) (refl, tt)
      (if-cases Errors (contains (lower (strip u)) root_users) (refl, tt) tt)

healthcheck : (s : ComposeService) (h : Option ComposeHealthcheck) → Errors (check_healthcheck s h)
unfolding check_healthcheck
healthcheck s none = (refl, tt)
healthcheck s (some h) = when-Errors _ _ (refl, tt)

limits : (s : ComposeService) (f : Option Fields) → Errors (check_limits s f)
unfolding check_limits
limits s none = (refl, tt)
limits s (some f) = then_Errors _ _ (when-Errors _ _ (refl, tt)) (when-Errors _ _ (refl, tt))

resources : (s : ComposeService) (f : Option Fields) → Errors (check_resources s f)
unfolding check_resources
resources s none = (refl, tt)
resources s (some f) = limits s (mapping_of (find "limits" f))

resource_limits : (s : ComposeService) (f : Option Fields) → Errors (verify_resource_limits s f)
unfolding verify_resource_limits
resource_limits s none = (refl, tt)
resource_limits s (some f) = resources s (mapping_of (find "resources" f))

environment :
    (s : ComposeService) (e : List (Text × Text)) → Errors (verify_environment_secrets s e)
unfolding verify_environment_secrets
environment s [] = tt
environment s ((key, value) ∷ rest) =
    then_Errors _ _ (when-Errors _ _ (refl, tt)) (environment s rest)

privilege : (s : ComposeService) → Errors (verify_privilege s)
unfolding verify_privilege
privilege s = then_Errors _ _ (when-Errors _ _ (refl, tt)) (when-Errors _ _ (refl, tt))

capabilities : (s : ComposeService) → Errors (verify_capabilities s)
unfolding verify_capabilities
capabilities s = then_Errors _ _ (when-Errors _ _ (refl, tt)) (when-Errors _ _ (refl, tt))

healthchecks : (s : ComposeService) → Errors (verify_healthcheck s)
unfolding verify_healthcheck
healthchecks s =
    if-cases Errors (has_label healthcheck_exempt_label s) tt (healthcheck s s.healthcheck)

networks : (s : ComposeService) → Errors (verify_networks s)
unfolding verify_networks
networks s = if-cases Errors (not (is_nonempty s.networks)) (refl, tt) (when-Errors _ _ (refl, tt))

verify_service-Errors : (s : ComposeService) → Errors (verify_service s)
unfolding verify_service
verify_service-Errors s = All-flatten _ (checks s) (
  labels s required_labels,
  (
    image s s.image,
    (
      user s s.user,
      (
        privilege s,
        (
          capabilities s,
          (
            healthchecks s,
            (networks s, (resource_limits s s.deploy, (environment s s.environment, tt))),
          ),
        ),
      ),
    ),
  ),
)

pub verify_all-Errors : (items : List (Text × ComposeService)) → Errors (verify_all items)
unfolding verify_all
verify_all-Errors [] = tt
verify_all-Errors (i ∷ rest) =
    then_Errors _ _ (if-cases Errors (is_managed i) (verify_service-Errors i.1) tt)
      (verify_all-Errors rest)

pub count_errors :
    (found : List Violation) → Errors found → count_severity error found ≡ length found
unfolding count_severity Severity-discrete
count_errors [] h = refl
count_errors (v ∷ found) (h, k) = rw h (ap suc (count_errors found k))

pub count_warnings : (found : List Violation) → Errors found → count_severity warning found ≡ 0
unfolding count_severity Severity-discrete
count_warnings [] h = refl
count_warnings (v ∷ found) (h, k) = rw h (count_warnings found k)
