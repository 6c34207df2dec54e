-- ===== src/Webhook.antt =====
-- pkg/webhook/webhook.go: the validating webhook, which admits a Service or a Stack only if the
-- user may grant every permission that it asks for. Kubernetes' rule resolver and its escalation
-- check are parameters; so are the decoders of the raw object.
mod Convert
pub mod Escalation
pub mod Security
unfoldable pub use Convert.*
use rio.Prelude.{
  Text, str, text_eq, Bool, true, false, ◌&&◌, Option, none, some, List, [], if◌then◌else◌,
}
use rio.Api.Service.{Service}
use rio.Kube.{PolicyRule, RoleRef}

-- AdmissionRequest: the fields that the handler reads.
pub record AdmissionRequest : Type 0 where
  pub username : Text
  pub operation : Text
  pub sub_resource : Text
  pub kind : Text
  pub namespace : Text
  pub object : Text

-- The response's `Allowed`, and whether an error is returned beside it.
pub record Verdict : Type 0 where
  pub allowed : Bool
  pub error : Bool

abbrev allow : Verdict
allow = record { allowed = true; error = false }

abbrev fail : Verdict
fail = record { allowed = false; error = true }

-- What the handler calls: `yaml.Unmarshal` into a Service or a Stack, the rules of a role
-- (GetRoleReferenceRules), and ConfirmNoEscalation for a request's user in a namespace.
pub record Cluster : Type 0 where
  pub decode_service : Text → Option Service
  pub decode_stack : Text → Option Stack
  pub role_rules : RoleRef → Text → Option (List PolicyRule)
  pub may_grant : AdmissionRequest → Text → List PolicyRule → Bool

module _ (k : Cluster) (ignore_service_account : Text) where
  -- The rules that the object asks for: cluster-wide ones, and those of its namespace.
  unfoldable pub requested_rules : AdmissionRequest → Option (List PolicyRule × List PolicyRule)
  requested_rules request =
      if text_eq request.kind (str "Service")
      then elim (k.decode_service request.object) [
        | none ↦ none
        | some service ↦ convert_service_to_rule k.role_rules service
      ]
      else if text_eq request.kind (str "Stack")
      then elim (k.decode_stack request.object) [
        | none ↦ none
        | some stack ↦ convert_stack_to_rule k.role_rules stack
      ]
      else some ([], [])

  confirm : AdmissionRequest → Option (List PolicyRule × List PolicyRule) → Verdict
  confirm request none = fail
  confirm request (some (global_rules, rules)) =
      if k.may_grant request [] global_rules && k.may_grant request request.namespace rules
      then allow
      else fail

  unfoldable pub validate_auth : AdmissionRequest → Verdict
  unfolding confirm
  validate_auth request =
      if text_eq request.username ignore_service_account
      then allow
      else if text_eq request.operation (str "UPDATE")
          && text_eq request.sub_resource (str "status")
      then allow
      else confirm request (requested_rules request)
