-- ===== src/Webhook/Escalation.antt =====
-- The webhook against the controller: what modules/service/controllers/service/populate/rbac
-- grants to an admitted service was checked by pkg/webhook.
mod Covered
mod Granted
pub use Granted.{IsChecked}
use rio.Prelude.{
  Text, str, text_eq, ◌≡◌, refl, true, false, ◌&&◌, Option, none, some, List, [], ◌++◌, arith, All,
  All-append,
}
use rio.Api.Service.{Service}
use rio.Kube.{PolicyRule}
use rio.Rbac
use rio.Webhook.Convert.{convert_service_to_rule}
use rio.Webhook.{AdmissionRequest, Cluster, requested_rules, confirm, validate_auth}
use rio.Webhook.Escalation.Covered.{convert_service_to_rule-IsCovered}
use rio.Webhook.Escalation.Granted.{populate-IsChecked, populate_cluster-IsChecked}

confirm-allowed :
    (k : Cluster) (account : Text) (request : AdmissionRequest)
    (o : Option (List PolicyRule × List PolicyRule))
    → (confirm k account request o).allowed ≡ true
    → (global_rules : List PolicyRule) × (rules : List PolicyRule) × (o
        ≡ some (global_rules, rules))
      × (k.may_grant request [] global_rules ≡ true)
      × (k.may_grant request request.namespace rules ≡ true)
unfolding confirm
confirm-allowed k account request none h = cc
confirm-allowed k account request (some (global_rules, rules)) h =
    (global_rules, rules, refl, ground arith, ground arith)

-- A request for a Service that is neither by the exempt account nor an update of the status.
pub record IsServiceRequest (k : Cluster) (account : Text) (request : AdmissionRequest)
    (service : Service) : Type 0 where
  pub by_user : text_eq request.username account ≡ false
  pub no_status :
      text_eq request.operation (str "UPDATE") && text_eq request.sub_resource (str "status")
      ≡ false
  pub kind : text_eq request.kind (str "Service") ≡ true
  pub decoded : k.decode_service request.object ≡ some service

-- If the webhook admits a user's request for a Service, then there are cluster-wide rules and
-- rules in the request's namespace that the user was found able to grant, such that every object
-- that the controller's Populate and PopulateCluster add for the service gives only those: the
-- rules of each Role and ClusterRole are among them, and each binding is to the service's own role
-- or to one all of whose rules are among them.
pub admitted-IsChecked :
    (k : Cluster) (account : Text) (safe_concat_name : List Text → Text)
    (request : AdmissionRequest) (service : Service)
    → IsServiceRequest k account request service
    → (validate_auth k account request).allowed ≡ true
    → (global_rules : List PolicyRule) × (rules : List PolicyRule) × (k.may_grant request []
          global_rules
        ≡ true)
      × (k.may_grant request request.namespace rules ≡ true)
      × All
          (IsChecked k safe_concat_name service global_rules rules)
          (Rbac.populate safe_concat_name service ++ Rbac.populate_cluster safe_concat_name service)
unfolding validate_auth requested_rules
admitted-IsChecked k account safe_concat_name request service q h =
    let passed : (confirm k account request (requested_rules k account request)).allowed ≡ true =
      ground arith in
    let (global_rules, rules, asked, may_global, may) =
      confirm-allowed k account request (requested_rules k account request) passed in
    let converted : convert_service_to_rule k.role_rules service ≡ some (global_rules, rules) =
      ground arith in
    let (global_covered, covered) =
      convert_service_to_rule-IsCovered k.role_rules service global_rules rules converted in
    (
      global_rules,
      rules,
      may_global,
      may,
      All-append (IsChecked k safe_concat_name service global_rules rules)
          (Rbac.populate safe_concat_name service) (Rbac.populate_cluster safe_concat_name service)
          (populate-IsChecked k safe_concat_name service global_rules rules covered)
          (populate_cluster-IsChecked k safe_concat_name service global_rules rules global_covered),
    )
