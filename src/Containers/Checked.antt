-- ===== src/Containers/Checked.antt =====
-- python/apexquant-container-policy/src/apexquant_container_policy/policy.py
-- The checks of the container policy against the requirements.
use lord_hermes.Common.{
  ap, sym, ◌∙◌, Any-map, ◌≡◌, ◌≢◌, refl, ◌↔◌, ◌⊎◌, inl, inr, Bool, true, false, ◌&&◌, not, List, [],
  ◌∷◌, Option, none, some, String, ◌==◌, nat_eq, string_eq, contains, get, any, is_nonempty, All,
  Any, any-Any, Any-any, append_nil_iff, flatten_nil_iff,
}
use lord_hermes.Common.Text.{
  upper, NoColon, Text, text_eq, codes, colon, lower, strip, has_part, after_first,
}
use lord_hermes.Containers.Compose.{
  severity_eq, HealthcheckTest, no_test, shell, exec, ComposeHealthcheck, Value, null, scalar,
  sequence, mapping, Fields, ComposeService,
}
use lord_hermes.Containers.Policy.{
  check_label, verify_labels, check_tag, verify_image, verify_user, verify_privilege,
  verify_capabilities, check_healthcheck, verify_healthcheck, verify_networks, check_limits,
  check_resources, verify_resource_limits, verify_environment_secrets, verify_service, checks,
  required_labels, mapping_of, find, has_label, label_is_true, healthcheck_exempt_label, root_users,
  is_all, is_null, has_test, is_literal_secret, read_only_exempt_label,
}
use lord_hermes.Containers.Silence.{
  iff_trans, pair_iff, sum_iff, when_nil, two_nil, else_nil, skip_nil, report_nil, accept_nil,
  unless_iff, not-false, nonempty_iff, nonempty_true_iff, differs_iff, same_iff, some_iff, none_iff,
}
use lord_hermes.Containers.Texts.{has_part_iff, tag_iff, literal_iff}
use lord_hermes.Containers.Compliance.{
  HasPart, HasLabel, IsImage, IsUser, HasLimits, HasResources, HasDeploy, Compliant, HasCommand,
  SaysTrue, IsTag, IsTolerable, HasNoPort,
}

label_iff :
    (s : ComposeService) (label : String) (value : Option Text)
    → (check_label s label value ≡ []) ↔ ((v : Text) × (value ≡ some v) × (strip v ≢ []))
unfolding check_label
label_iff s label none = none_iff (λ v. strip v ≢ []) _
label_iff s label (some v) =
    iff_trans (accept_nil (is_nonempty (strip v)) _)
      (iff_trans (nonempty_true_iff (strip v)) (some_iff (λ w. strip w ≢ []) v))

labels_iff :
    (s : ComposeService) (names : List String)
    → (verify_labels s names ≡ []) ↔ All (HasLabel s) names
unfolding verify_labels
labels_iff s [] = (λ _. tt, λ _. refl)
labels_iff s (name ∷ rest) =
    iff_trans (append_nil_iff (check_label s name (get name s.labels)) (verify_labels s rest))
      (pair_iff (label_iff s name (get name s.labels)) (labels_iff s rest))

image_iff :
    (s : ComposeService) (image : Option Text)
    → ((i : Text) → image ≡ some i → HasPart i (codes "@sha256:") ⊎ NoColon (after_first colon i))
    → (verify_image s image ≡ []) ↔ ((i : Text) × (image ≡ some i) × IsImage i)
unfolding verify_image check_tag
image_iff s none single = none_iff IsImage _
image_iff s (some i) single = iff_trans (else_nil (not (is_nonempty i)) _ _) (
    iff_trans
      (pair_iff (nonempty_iff i) (
        iff_trans (skip_nil (has_part i (codes "@sha256:")) _) (
          iff_trans (sum_iff (has_part_iff i (codes "@sha256:")) same_iff) (
            unless_iff (single i refl) (λ one. iff_trans (else_nil (not (contains colon i)) _ _) (
              iff_trans
                (pair_iff (not-false (contains colon i)) (
                  iff_trans (else_nil (not (is_nonempty (strip (after_first colon i)))) _ _) (
                    pair_iff (nonempty_iff (strip (after_first colon i))) (
                      iff_trans (report_nil (after_first colon i == codes "latest") _)
                        (differs_iff (after_first colon i) (codes "latest"))))))
                (tag_iff IsTag i one)))))))
      (some_iff IsImage i))

pub has_label_iff :
    (label : String) (s : ComposeService) → (has_label label s ≡ true) ↔ SaysTrue label s
unfolding has_label
has_label_iff label s = by_value (get label s.labels)
  where
    by_value : (o : Option Text) → (label_is_true o ≡ true) ↔ (o ≡ some (codes "true"))
    by_value none = (λ h. absurd (cc h), λ h. absurd (cc h))
    by_value (some value) = (
      λ h. ap some ((text_eq.beq_iff value (codes "true")).0 h),
      λ h. (text_eq.beq_iff value (codes "true")).1 (cc h),
    )

is_all_iff :
    (names : List Text) → Any (λ c. is_all c ≡ true) names ↔ Any (λ c. upper c ≡ codes "ALL") names
unfolding is_all
is_all_iff names = (
  Any-map names (λ c. (text_eq.beq_iff (upper c) (codes "ALL")).0),
  Any-map names (λ c. (text_eq.beq_iff (upper c) (codes "ALL")).1),
)

has_test_iff : (test : HealthcheckTest) → (has_test test ≡ true) ↔ HasCommand test
unfolding has_test
has_test_iff no_test = (
  λ h. absurd (cc h),
  λ h. elim h [ inl (command, e, ne) ↦ absurd (cc e) | inr (arguments, e, ne) ↦ absurd (cc e) ],
)
has_test_iff (shell command) = (
  λ h. inl (command, refl, (nonempty_true_iff command).0 h),
  λ h. elim h [
    | inl (other, e, ne) ↦ (nonempty_true_iff command).1 (λ q. ne (sym (same e) ∙ q))
    | inr (arguments, e, ne) ↦ absurd (cc e)
  ],
)
  where
    same : {other : Text} → shell command ≡ shell other → command ≡ other
    same e = cc e
has_test_iff (exec arguments) = (
  λ h. inr (arguments, refl, (nonempty_true_iff arguments).0 h),
  λ h. elim h [
    | inl (command, e, ne) ↦ absurd (cc e)
    | inr (other, e, ne) ↦ (nonempty_true_iff arguments).1 (λ q. ne (sym (same e) ∙ q))
  ],
)
  where
    same : {other : List String} → exec arguments ≡ exec other → arguments ≡ other
    same e = cc e

user_iff :
    (s : ComposeService) (user : Option Text)
    → (verify_user s user ≡ []) ↔ ((u : Text) × (user ≡ some u) × IsUser u)
unfolding verify_user
user_iff s none = none_iff IsUser _
user_iff s (some u) = iff_trans (else_nil (not (is_nonempty u)) _ _) (
    iff_trans (pair_iff (nonempty_iff u) (report_nil (contains (lower (strip u)) root_users) _))
      (some_iff IsUser u))

environment_iff :
    (s : ComposeService) (vars : List (Text × Text))
    → (verify_environment_secrets s vars ≡ []) ↔ All (λ e. IsTolerable e.0 e.1) vars
unfolding verify_environment_secrets
environment_iff s [] = (λ _. tt, λ _. refl)
environment_iff s ((key, value) ∷ rest) =
    iff_trans (append_nil_iff _ (verify_environment_secrets s rest)) (
      pair_iff (iff_trans (when_nil (is_literal_secret key value) _) (literal_iff key value))
        (environment_iff s rest))

healthcheck_iff :
    (s : ComposeService) (h : Option ComposeHealthcheck)
    → (check_healthcheck s h ≡ []) ↔ ((c : ComposeHealthcheck) × (h ≡ some c) × HasCommand c.test)
unfolding check_healthcheck
healthcheck_iff s none = none_iff (λ c. HasCommand c.test) _
healthcheck_iff s (some c) = iff_trans (when_nil (not (has_test c.test)) _) (
    iff_trans (iff_trans (not-false (has_test c.test)) (has_test_iff c.test))
      (some_iff (λ d. HasCommand d.test) c))

mapping_iff :
    (P : Fields → Type 0) (value : Value)
    → ((f : Fields) × (mapping_of value ≡ some f) × P f)
      ↔ ((f : Fields) × (value ≡ mapping f) × P f)
unfolding mapping_of
mapping_iff P null = (λ (f, e, p). absurd (cc e), λ (f, e, p). absurd (cc e))
mapping_iff P (scalar t) = (λ (f, e, p). absurd (cc e), λ (f, e, p). absurd (cc e))
mapping_iff P (sequence t) = (λ (f, e, p). absurd (cc e), λ (f, e, p). absurd (cc e))
mapping_iff P (mapping g) = (λ (f, e, p). (f, cc e, p), λ (f, e, p). (f, cc e, p))

is_null_iff : (value : Value) → (is_null value ≡ false) ↔ (value ≢ null)
unfolding is_null
is_null_iff null = (λ h. absurd (cc h), λ h. absurd (h refl))
is_null_iff (scalar t) = (λ h e. cc e, λ h. refl)
is_null_iff (sequence t) = (λ h e. cc e, λ h. refl)
is_null_iff (mapping t) = (λ h e. cc e, λ h. refl)

limits_iff :
    (s : ComposeService) (f : Option Fields)
    → (check_limits s f ≡ []) ↔ ((l : Fields) × (f ≡ some l) × HasLimits l)
unfolding check_limits
limits_iff s none = none_iff HasLimits _
limits_iff s (some l) =
    iff_trans (two_nil (is_null (find "memory" l)) (is_null (find "cpus" l)) _ _) (
      iff_trans (pair_iff (is_null_iff (find "memory" l)) (is_null_iff (find "cpus" l)))
        (some_iff HasLimits l))

resources_iff :
    (s : ComposeService) (f : Option Fields)
    → (check_resources s f ≡ []) ↔ ((r : Fields) × (f ≡ some r) × HasResources r)
unfolding check_resources
resources_iff s none = none_iff HasResources _
resources_iff s (some r) =
    iff_trans (limits_iff s (mapping_of (find "limits" r)))
      (iff_trans (mapping_iff HasLimits (find "limits" r)) (some_iff HasResources r))

deploy_iff :
    (s : ComposeService) (f : Option Fields)
    → (verify_resource_limits s f ≡ []) ↔ ((d : Fields) × (f ≡ some d) × HasDeploy d)
unfolding verify_resource_limits
deploy_iff s none = none_iff HasDeploy _
deploy_iff s (some d) =
    iff_trans (resources_iff s (mapping_of (find "resources" d)))
      (iff_trans (mapping_iff HasResources (find "resources" d)) (some_iff HasDeploy d))

privilege_iff :
    (s : ComposeService)
    → (verify_privilege s ≡ [])
      ↔ ((s.privileged ≡ false) × (contains "no-new-privileges:true" s.security_opt ≡ true))
unfolding verify_privilege
privilege_iff s =
    iff_trans (two_nil s.privileged (not (contains "no-new-privileges:true" s.security_opt)) _ _)
      (pair_iff same_iff (not-false (contains "no-new-privileges:true" s.security_opt)))

neither : (b c : Bool) → ((not b && not c) ≡ false) ↔ ((b ≡ true) ⊎ (c ≡ true))
neither true c = (λ _. inl refl, λ _. refl)
neither false true = (λ _. inr refl, λ _. refl)
neither false false =
    (λ h. absurd (cc h), λ h. elim h [ inl e ↦ absurd (cc e) | inr e ↦ absurd (cc e) ])

capabilities_iff :
    (s : ComposeService)
    → (verify_capabilities s ≡ []) ↔ (
        Any (λ c. upper c ≡ codes "ALL") s.cap_drop
        × ((s.read_only ≡ true) ⊎ SaysTrue read_only_exempt_label s))
unfolding verify_capabilities
capabilities_iff s =
    iff_trans
      (two_nil (not (any is_all s.cap_drop))
        (not s.read_only && not (has_label read_only_exempt_label s)) _ _)
      (pair_iff
        (iff_trans (not-false (any is_all s.cap_drop)) (
          iff_trans (any-Any is_all s.cap_drop, Any-any is_all s.cap_drop) (is_all_iff s.cap_drop)))
        (iff_trans (neither s.read_only (has_label read_only_exempt_label s))
          (sum_iff same_iff (has_label_iff read_only_exempt_label s))))

healthchecks_iff :
    (s : ComposeService)
    → (verify_healthcheck s ≡ []) ↔ (
        SaysTrue healthcheck_exempt_label s
        ⊎ ((h : ComposeHealthcheck) × (s.healthcheck ≡ some h) × HasCommand h.test))
unfolding verify_healthcheck
healthchecks_iff s =
    iff_trans (skip_nil (has_label healthcheck_exempt_label s) _)
      (sum_iff (has_label_iff healthcheck_exempt_label s) (healthcheck_iff s s.healthcheck))

networks_iff :
    (s : ComposeService)
    → (verify_networks s ≡ []) ↔ ((s.networks ≢ []) × (contains "default" s.networks ≡ false))
unfolding verify_networks
networks_iff s =
    iff_trans (else_nil (not (is_nonempty s.networks)) _ _)
      (pair_iff (nonempty_iff s.networks) (when_nil (contains "default" s.networks) _))

-- The checks report nothing about a service exactly when it is compliant.
pub verify_service_iff : (s : ComposeService) → HasNoPort s → (verify_service s ≡ []) ↔ Compliant s
unfolding verify_service
verify_service_iff s single =
    (λ h. forth ((flatten_nil_iff (checks s)).0 h), λ c. (flatten_nil_iff (checks s)).1 (back c))
  where
    forth : All (λ found. found ≡ []) (checks s) → Compliant s
    forth (l, (i, (u, (p, (c, (h, (n, (r, (e, _))))))))) = record {
      labels = (labels_iff s required_labels).0 l;
      image = (image_iff s s.image single).0 i;
      user = (user_iff s s.user).0 u;
      unprivileged = ((privilege_iff s).0 p).0;
      no_new_privileges = ((privilege_iff s).0 p).1;
      drops_all = ((capabilities_iff s).0 c).0;
      read_only = ((capabilities_iff s).0 c).1;
      healthcheck = (healthchecks_iff s).0 h;
      networks = (networks_iff s).0 n;
      limits = (deploy_iff s s.deploy).0 r;
      secrets = (environment_iff s s.environment).0 e;
    }

    back : Compliant s → All (λ found. found ≡ []) (checks s)
    back c = (
      (labels_iff s required_labels).1 c.labels,
      (
        (image_iff s s.image single).1 c.image,
        (
          (user_iff s s.user).1 c.user,
          (
            (privilege_iff s).1 (c.unprivileged, c.no_new_privileges),
            (
              (capabilities_iff s).1 (c.drops_all, c.read_only),
              (
                (healthchecks_iff s).1 c.healthcheck,
                (
                  (networks_iff s).1 c.networks,
                  (
                    (deploy_iff s s.deploy).1 c.limits,
                    ((environment_iff s s.environment).1 c.secrets, tt),
                  ),
                ),
              ),
            ),
          ),
        ),
      ),
    )
