-- ===== src/Rbac.antt =====
-- modules/service/controllers/service/populate/rbac/role.go: the service account, the roles and
-- the bindings that give a service the permissions that it asks for. SafeConcatName of package
-- wrangler is a parameter.
use rio.Prelude.{
  Text, str, is_empty, Bool, true, false, not, ◌&&◌, ◌||◌, Option, none, some, List, [], ◌∷◌, ◌++◌,
  is_cons, if◌then◌else◌,
}
use rio.Prelude.Maps.{insert}
use rio.Api.Service.{Service, Permission}
use rio.Kube.{
  PolicyRule, RoleRef, Subject, ObjectMeta, Object, service_account, role, cluster_role,
  role_binding, cluster_role_binding,
}
use rio.Labels.{service_labels}

-- `service.Spec.ServiceMesh != nil && !*service.Spec.ServiceMesh`
abbrev mesh_off : Option Bool → Bool
mesh_off none = false
mesh_off (some b) = not b

unfoldable pub service_account_name : Service → Text
service_account_name service =
    if not (is_cons service.spec.permissions)
      && not (is_cons service.spec.global_permissions)
      && mesh_off service.spec.service_mesh
    then []
    else service.name

unfoldable pub subject : Service → Option Subject
unfolding service_account_name
subject service =
    let name = service_account_name service in
    let found : Option Subject =
      some (record { kind = str "ServiceAccount"; name = name; namespace = service.namespace }) in
    if is_empty name then none else found

-- `policyRule, valid`
unfoldable pub perm_to_policy_rule : Permission → PolicyRule × Bool
perm_to_policy_rule perm =
    let zero_rule : PolicyRule = record {
      verbs = [];
      api_groups = [];
      resources = [];
      resource_names = [];
      non_resource_urls = [];
    } in
    let by_resource : PolicyRule = record {
      verbs = perm.verbs;
      api_groups = perm.api_group ∷ [];
      resources = if is_empty perm.resource then [] else perm.resource ∷ [];
      resource_names = if is_empty perm.resource_name then [] else perm.resource_name ∷ [];
      non_resource_urls = [];
    } in
    let by_url : PolicyRule = record {
      verbs = perm.verbs;
      api_groups = [];
      resources = [];
      resource_names = [];
      non_resource_urls = perm.url ∷ [];
    } in
    if not (is_empty perm.role)
    then (zero_rule, false)
    else if is_empty perm.url
    then (by_resource, not (is_empty perm.resource_name) || not (is_empty perm.resource))
    else (by_url, true)

-- The loop that fills `role.Rules`.
unfoldable pub rules_of : List Permission → List PolicyRule
unfolding perm_to_policy_rule
rules_of [] = []
rules_of (perm ∷ perms) =
    let rest = rules_of perms in
    let (rule, valid) = perm_to_policy_rule perm in
    if not (is_empty perm.role) then rest else if valid then rule ∷ rest else rest

abbrev ref_to : Text → Text → RoleRef
ref_to kind name = record { api_group = str "rbac.authorization.k8s.io"; kind = kind; name = name }

abbrev meta : Text → Text → List (Text × Text) → ObjectMeta
meta namespace name labels = record { name = name; namespace = namespace; labels = labels }

module _ (safe_concat_name : List Text → Text) where
  unfoldable pub role_name : Service → Text
  role_name service = safe_concat_name (str "rio" ∷ service.name ∷ [])

  unfoldable pub cluster_role_name : Service → Text
  cluster_role_name service = safe_concat_name (str "rio" ∷ service.namespace ∷ service.name ∷ [])

  -- One round of the loop of `addRoles`.
  unfoldable pub binding_to : List (Text × Text) → Subject → Service → Permission → List Object
  binding_to labels subject service perm =
      let name = safe_concat_name (str "rio" ∷ service.name ∷ perm.role ∷ []) in
      if is_empty perm.role
      then []
      else role_binding (meta service.namespace name labels) subject (ref_to (str "Role") perm.role)
        ∷ []

  unfoldable pub add_roles : List (Text × Text) → Subject → Service → List Permission → List Object
  unfolding binding_to
  add_roles labels subject service [] = []
  add_roles labels subject service (perm ∷ perms) =
      binding_to labels subject service perm ++ add_roles labels subject service perms

  unfoldable pub cluster_binding_to :
      List (Text × Text) → Subject → Service → Permission → List Object
  cluster_binding_to labels subject service perm =
      let name = safe_concat_name (str "rio" ∷ service.namespace ∷ service.name ∷ perm.role ∷ []) in
      if is_empty perm.role
      then []
      else cluster_role_binding (meta [] name labels) subject (ref_to (str "ClusterRole") perm.role)
        ∷ []

  unfoldable pub add_cluster_roles :
      List (Text × Text) → Subject → Service → List Permission → List Object
  unfolding cluster_binding_to
  add_cluster_roles labels subject service [] = []
  add_cluster_roles labels subject service (perm ∷ perms) =
      cluster_binding_to labels subject service perm
      ++ add_cluster_roles labels subject service perms

  unfoldable pub add_rules : List (Text × Text) → Subject → Service → List Object
  unfolding rules_of role_name
  add_rules labels subject service =
      let rules = rules_of service.spec.permissions in
      let name = role_name service in
      let bound = safe_concat_name (str "rio" ∷ service.name ∷ name ∷ []) in
      if is_cons rules
      then role (meta service.namespace name labels) rules
        ∷ role_binding (meta service.namespace bound labels) subject (ref_to (str "Role") name)
        ∷ []
      else []

  unfoldable pub add_cluster_rules : List (Text × Text) → Subject → Service → List Object
  unfolding rules_of cluster_role_name
  add_cluster_rules labels subject service =
      let rules = rules_of service.spec.global_permissions in
      let name = cluster_role_name service in
      let bound = safe_concat_name (str "rio" ∷ service.namespace ∷ service.name ∷ name ∷ []) in
      if is_cons rules
      then cluster_role (meta [] name labels) rules
        ∷ cluster_role_binding (meta [] bound labels) subject (ref_to (str "ClusterRole") name)
        ∷ []
      else []

  add_service_account : List (Text × Text) → Subject → List Object
  add_service_account labels subject =
      service_account (meta subject.namespace subject.name labels) ∷ []

  -- The objects that `Populate` adds to the set.
  unfoldable pub populate : Service → List Object
  unfolding add_service_account
  populate service = elim (subject service) [
    | none ↦ []
    | some found ↦
        let labels = service_labels service in
        add_service_account labels found
        ++ add_roles labels found service service.spec.permissions
        ++ add_rules labels found service
  ]

  unfoldable pub populate_cluster : Service → List Object
  populate_cluster service = elim (subject service) [
    | none ↦ []
    | some found ↦
        let labels =
          insert (str "rio.cattle.io/namespace") service.namespace
            (insert (str "rio.cattle.io/service") service.name (service_labels service)) in
        add_cluster_roles labels found service service.spec.global_permissions
        ++ add_cluster_rules labels found service
  ]
