-- ===== src/Containers/Compose.antt =====
-- python/apexquant-container-policy/src/apexquant_container_policy/{models,compose}.py: the data. A text
-- that the policy looks into is the list of its code points. Of a healthcheck and of a service only
-- what the policy reads is kept.
use lord_hermes.Common.{ℕ, refl, Bool, List, Option, String, Eq, enum_eq}
use lord_hermes.Common.Text.{Text}

pub data Severity : Type 0 where
  error warning : Severity

unfoldable pub Severity-discrete : Discrete Severity
Severity-discrete error error = yes refl
Severity-discrete error warning = no (λ e. cc)
Severity-discrete warning error = no (λ e. cc)
Severity-discrete warning warning = yes refl

instance abbrev pub severity_eq : Eq Severity
severity_eq = enum_eq Severity-discrete

pub record Violation : Type 0 where
  pub service_name : Text
  pub code : String
  pub severity : Severity
  pub message : Text

pub record VerificationReport : Type 0 where
  pub ok : Bool
  pub errors_count : ℕ
  pub warnings_count : ℕ
  pub services_checked : List Text
  pub violations : List Violation

-- `str | list[str] | None`
pub data HealthcheckTest : Type 0 where
  no_test : HealthcheckTest
  shell : Text → HealthcheckTest
  exec : List String → HealthcheckTest

pub record ComposeHealthcheck : Type 0 where
  pub test : HealthcheckTest

-- A value of the `deploy` mapping.
mutual
  pub data Value : Type 0 where
    null : Value
    scalar : String → Value
    sequence : Values → Value
    mapping : Fields → Value

  pub data Values : Type 0 where
    last : Values
    item : Value → Values → Values

  pub data Fields : Type 0 where
    end : Fields
    field : String → Value → Fields → Fields

pub record ComposeService : Type 0 where
  pub name : Text
  pub image : Option Text
  pub user : Option Text
  pub read_only : Bool
  pub privileged : Bool
  pub security_opt : List String
  pub cap_drop : List Text
  pub healthcheck : Option ComposeHealthcheck
  pub environment : List (Text × Text)
  pub networks : List String
  pub labels : List (String × Text)
  pub deploy : Option Fields
