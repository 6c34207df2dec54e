-- ===== src/Webhook/Convert.antt =====
-- The conversions of pkg/webhook/webhook.go: from the permissions and the security settings of a
-- Service, or the permissions of a Stack, to the policy rules that are checked.
use rio.Prelude.{
  Text, str, is_empty, Bool, true, false, not, Option, none, some, List, [], ◌∷◌, ◌++◌, map, any,
  is_some, if◌then◌else◌,
}
use rio.Api.Service.{Service, Container, ContainerPort, NamedContainer, Permission, Volume}
use rio.Kube.{PolicyRule, RoleRef}

-- Stack, of stack.go: the fields that the webhook reads.
pub record Stack : Type 0 where
  pub namespace : Text
  pub permissions : List Permission

-- Rules or an error.
infixl 5 ◌>>=◌
abbrev pub ◌>>=◌ : {A B : Type 0} → Option A → (A → Option B) → Option B
none >>= f = none
some a >>= f = f a

abbrev pub no_rule : PolicyRule
no_rule = record {
  verbs = [];
  api_groups = [];
  resources = [];
  resource_names = [];
  non_resource_urls = [];
}

-- `[]string{s}` where s is set
abbrev pub singleton_if_set : Text → List Text
singleton_if_set s = if is_empty s then [] else s ∷ []

-- The rule that a permission without a role asks for.
unfoldable pub policy_rule : Permission → PolicyRule
policy_rule perm =
    if is_empty perm.url
    then record no_rule {
      verbs = perm.verbs;
      api_groups = perm.api_group ∷ [];
      resources = singleton_if_set perm.resource;
      resource_names = singleton_if_set perm.resource_name;
    }
    else record no_rule { verbs = perm.verbs; non_resource_urls = perm.url ∷ [] }

abbrev pub role_ref : Text → Bool → RoleRef
role_ref name global = record {
  api_group = str "rbac.authorization.k8s.io";
  kind = if global then str "ClusterRole" else str "Role";
  name = name;
}

module _ (role_rules : RoleRef → Text → Option (List PolicyRule)) where
  unfoldable pub perm_to_policy_rule : Permission → Bool → Text → Option (List PolicyRule)
  perm_to_policy_rule perm global namespace =
      if not (is_empty perm.role)
      then role_rules (role_ref perm.role global) namespace
      else some (policy_rule perm ∷ [])

  -- The loop over a list of permissions: the first error ends it.
  unfoldable pub perms_to_rules : List Permission → Bool → Text → Option (List PolicyRule)
  perms_to_rules [] global namespace = some []
  perms_to_rules (p ∷ ps) global namespace = do
    rules ← perm_to_policy_rule p global namespace
    rest ← perms_to_rules ps global namespace
    some (rules ++ rest)

unfoldable pub new_policy_rule : Service → PolicyRule
new_policy_rule service = record no_rule {
  api_groups = str "rio.cattle.io" ∷ [];
  resources = str "services" ∷ [];
  resource_names = service.name ∷ [];
}

unfoldable pub uses_host_port : Container → Bool
uses_host_port con = any (λ (p : ContainerPort). p.host_port) con.ports

unfoldable pub uses_host_path : Container → Bool
uses_host_path con = any (λ (v : Volume). not (is_empty v.host_path)) con.volumes

-- The service's own container, then the sidecars'.
unfoldable pub containers_of : Service → List Container
containers_of service =
    service.spec.container ∷ map (λ (c : NamedContainer). c.container) service.spec.sidecars

unfoldable pub uses_privileged : Container → Bool
uses_privileged con = elim con.security_context [
  | none ↦ false
  | some context ↦ elim context.privileged [ some b ↦ b | none ↦ false ]
]

-- One rule for `verb` if `used`.
abbrev pub rule_for : Service → Bool → Text → List PolicyRule
rule_for service used verb =
    if used then record (new_policy_rule service) { verbs = verb ∷ [] } ∷ [] else []

unfoldable pub convert_security_policy_rule : Service → List PolicyRule
convert_security_policy_rule service =
    rule_for service (any uses_host_port (containers_of service)) (str "rio-hostport")
    ++ rule_for service service.spec.host_network (str "rio-hostnetwork")
    ++ rule_for service (any uses_host_path (containers_of service)) (str "rio-hostpath")
    ++ rule_for service (uses_privileged service.spec.container) (str "rio-privileged")
    ++ rule_for service (is_some service.spec.service_mesh) (str "rio-servicemesh")

module _ (role_rules : RoleRef → Text → Option (List PolicyRule)) where
  unfoldable pub convert_service_to_rule : Service → Option (List PolicyRule × List PolicyRule)
  convert_service_to_rule service = do
    global_rules ← perms_to_rules role_rules service.spec.global_permissions true []
    rules ← perms_to_rules role_rules service.spec.permissions false service.namespace
    some (global_rules, rules ++ convert_security_policy_rule service)

  unfoldable pub convert_stack_to_rule : Stack → Option (List PolicyRule × List PolicyRule)
  convert_stack_to_rule stack = do
    rules ← perms_to_rules role_rules stack.permissions false stack.namespace
    some ([], rules)
