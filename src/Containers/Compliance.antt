-- ===== src/Containers/Compliance.antt =====
-- python/apexquant-container-policy/src/apexquant_container_policy/policy.py
-- What a managed service must be, stated without the code's checks and lists.
use lord_hermes.Common.{
  ◌≡◌, ◌≢◌, ◌⊎◌, true, false, List, [], ◌∷◌, ◌++◌, some, String, nat_eq, string_eq, contains, get,
  All, Any,
}
use lord_hermes.Common.Text.{Text, text_eq, codes, colon, lower, upper, strip, NoColon, after_first}
use lord_hermes.Containers.Compose.{
  HealthcheckTest, shell, exec, ComposeHealthcheck, null, mapping, Fields, ComposeService,
}
use lord_hermes.Containers.Policy.{find}

abbrev pub HasPart : Text → Text → Type 0
HasPart text part = (before : Text) × (after : Text) × (text ≡ before ++ (part ++ after))

-- The label says true.
abbrev pub SaysTrue : String → ComposeService → Type 0
SaysTrue label s = get label s.labels ≡ some (codes "true")

-- A tag that is there, and does not float.
abbrev pub IsTag : Text → Type 0
IsTag tag = (strip tag ≢ []) × (tag ≢ codes "latest")

-- The image ends in a colon and a tag with the property.
abbrev pub NamesTag : (Text → Type 0) → Text → Type 0
NamesTag P image =
    (name : Text) × (tag : Text) × (image ≡ name ++ colon ∷ tag) × NoColon tag × P tag

-- An image with a digest, or with a tag that is not `latest`.
abbrev pub IsImage : Text → Type 0
IsImage image = (image ≢ []) × (HasPart image (codes "@sha256:") ⊎ NamesTag IsTag image)

-- The image names no port of a registry: it has a digest, or one colon at most.
abbrev pub HasNoPort : ComposeService → Type 0
HasNoPort s =
    (image : Text)
    → s.image ≡ some image
    → HasPart image (codes "@sha256:") ⊎ NoColon (after_first colon image)

abbrev pub HasLabel : ComposeService → String → Type 0
HasLabel s label = (value : Text) × (get label s.labels ≡ some value) × (strip value ≢ [])

abbrev pub IsUser : Text → Type 0
IsUser user =
    (user ≢ [])
    × (contains (lower (strip user))
          (codes "root" ∷ codes "0" ∷ codes "0:0" ∷ codes "uid=0" ∷ codes "uid=0 gid=0" ∷ [])
        ≡ false)

abbrev pub HasLimits : Fields → Type 0
HasLimits limits = (find "memory" limits ≢ null) × (find "cpus" limits ≢ null)

abbrev pub HasResources : Fields → Type 0
HasResources resources =
    (limits : Fields) × (find "limits" resources ≡ mapping limits) × HasLimits limits

abbrev pub HasDeploy : Fields → Type 0
HasDeploy deploy =
    (resources : Fields) × (find "resources" deploy ≡ mapping resources) × HasResources resources

abbrev pub HasCommand : HealthcheckTest → Type 0
HasCommand test =
    ((command : Text) × (test ≡ shell command) × (command ≢ []))
    ⊎ ((arguments : List String) × (test ≡ exec arguments) × (arguments ≢ []))

-- "${...}"
abbrev pub IsReference : Text → Type 0
IsReference value = (inner : Text) × (value ≡ codes "${" ++ (inner ++ 125 ∷ []))

-- A name that speaks of a secret.
abbrev pub IsSensitive : Text → Type 0
IsSensitive key = Any (HasPart (lower key)) (
    codes "password"
    ∷ codes "secret"
    ∷ codes "token"
    ∷ codes "api_key"
    ∷ codes "apikey"
    ∷ codes "private_key"
    ∷ codes "credential"
    ∷ [])

abbrev pub IsTolerable : Text → Text → Type 0
IsTolerable key value = IsSensitive key → (value ≡ []) ⊎ IsReference value

pub record Compliant (s : ComposeService) : Type 0 where
  pub labels : All (HasLabel s) (
      "apexquant.service.name" ∷ "apexquant.service.plane" ∷ "apexquant.environment"
      ∷ "apexquant.feature" ∷ "apexquant.version" ∷ "apexquant.fail_closed_policy" ∷ [])
  pub image : (i : Text) × (s.image ≡ some i) × IsImage i
  pub user : (u : Text) × (s.user ≡ some u) × IsUser u
  pub unprivileged : s.privileged ≡ false
  pub no_new_privileges : contains "no-new-privileges:true" s.security_opt ≡ true
  pub drops_all : Any (λ c. upper c ≡ codes "ALL") s.cap_drop
  pub read_only : (s.read_only ≡ true) ⊎ SaysTrue "apexquant.container.read_only_exempt" s
  pub healthcheck :
      SaysTrue "apexquant.container.healthcheck_exempt" s
      ⊎ ((h : ComposeHealthcheck) × (s.healthcheck ≡ some h) × HasCommand h.test)
  pub networks : (s.networks ≢ []) × (contains "default" s.networks ≡ false)
  pub limits : (deploy : Fields) × (s.deploy ≡ some deploy) × HasDeploy deploy
  pub secrets : All (λ e. IsTolerable e.0 e.1) s.environment
