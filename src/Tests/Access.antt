-- ===== src/Tests/Access.antt =====
-- Labels, roles and the webhook.
use rio.Prelude.{
  str, text_eq, any, ◌≡◌, refl, Bool, true, false, none, some, List, [], ◌∷◌, ◌++◌, inl, inr, ◌↔◌,
  All,
}
use rio.Api.Service.{Service, ContainerPort, NamedContainer}
use rio.Kube.{PolicyRule}
use rio.Stringers.ContainerPort.{zero_port}
use rio.Rbac
use rio.Webhook.{AdmissionRequest, Cluster, validate_auth, requested_rules}
use rio.Webhook.{
  convert_service_to_rule, convert_security_policy_rule, perms_to_rules, perm_to_policy_rule,
  containers_of, uses_host_port, uses_host_path, uses_privileged,
}
use rio.Webhook.Escalation.{IsServiceRequest, IsChecked, admitted-IsChecked}
use rio.Webhook.Security.{Needs, IsAsked, security-IsAsked}
use rio.Tests.Data.{plain, plain_container, with_permissions, join}

-- A cluster whose user may grant at most three rules at once, and where each role has one rule.
abbrev edit : PolicyRule
edit = record {
  verbs = str "edit" ∷ [];
  api_groups = [];
  resources = [];
  resource_names = [];
  non_resource_urls = [];
}

abbrev few : List PolicyRule → Bool
few (a ∷ b ∷ c ∷ d ∷ rules) = false
few rules = true

abbrev cluster : Cluster
cluster = record {
  decode_service = λ raw. some with_permissions;
  decode_stack = λ raw. none;
  role_rules = λ ref namespace. some (edit ∷ []);
  may_grant = λ request namespace rules. few rules;
}

abbrev create : AdmissionRequest
create = record {
  username = str "ann";
  operation = str "CREATE";
  sub_resource = [];
  kind = str "Service";
  namespace = str "default";
  object = [];
}

create-IsServiceRequest : IsServiceRequest cluster (str "admin") create with_permissions
unfolding text_eq str
create-IsServiceRequest = record { by_user = refl; no_status = refl; kind = refl; decoded = refl }

create_allowed : (validate_auth cluster (str "admin") create).allowed ≡ true
unfolding validate_auth requested_rules convert_service_to_rule perms_to_rules perm_to_policy_rule
    convert_security_policy_rule text_eq str containers_of uses_host_port uses_host_path
    uses_privileged any
create_allowed = refl

admitted-IsChecked_example :
    (global_rules : List PolicyRule) × (rules : List PolicyRule) × (few global_rules ≡ true)
    × (few rules ≡ true)
    × All
        (IsChecked cluster join with_permissions global_rules rules)
        (Rbac.populate join with_permissions ++ Rbac.populate_cluster join with_permissions)
admitted-IsChecked_example =
    admitted-IsChecked cluster (str "admin") join create with_permissions create-IsServiceRequest
      create_allowed

-- A service of which a sidecar has a port of the host.
abbrev exposed_port : ContainerPort
exposed_port = record zero_port { host_port = true }

abbrev exposing_sidecar : NamedContainer
exposing_sidecar = record {
  name = str "side";
  init = false;
  container = record plain_container { ports = exposed_port ∷ [] };
}

abbrev exposing : Service
exposing = record plain { spec = record plain.spec { sidecars = exposing_sidecar ∷ [] } }

security-IsAsked_example :
    IsAsked exposing (str "rio-hostport") ↔ Needs exposing (str "rio-hostport")
security-IsAsked_example = security-IsAsked exposing (str "rio-hostport")

sidecar-IsAsked : IsAsked exposing (str "rio-hostport")
sidecar-IsAsked = (security-IsAsked exposing (str "rio-hostport")).1 (
    Needs.host_port exposing_sidecar.container exposed_port refl
      (inr (exposing_sidecar, inl refl, refl)) (inl refl) refl)
