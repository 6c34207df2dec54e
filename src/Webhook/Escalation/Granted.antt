-- ===== src/Webhook/Escalation/Granted.antt =====
-- What role.go of the controller adds for a service, against rules that cover its permissions.
use rio.Prelude.{
  Text, is_empty, ◌≡◌, true, false, some, List, [], ◌∷◌, ◌⊎◌, inl, inr, arith, All, All-append,
  IsSubset, Bool-cases, Option-cases,
}
use rio.Api.Service.{Service, Permission}
use rio.Kube.{
  PolicyRule, Subject, Object, service_account, role, cluster_role, role_binding,
  cluster_role_binding,
}
use rio.Labels.{service_labels}
use rio.Rbac
use rio.Webhook.{Cluster}
use rio.Webhook.Escalation.Covered.{IsCovered, rules_of-IsSubset}

module _ (k : Cluster) (safe_concat_name : List Text → Text) (service : Service)
    (global_rules rules : List PolicyRule) where
  -- An object that the controller adds gives only rules that were checked: those of a role, and
  -- those of the role that a binding names, unless it is the service's own role.
  abbrev pub IsChecked : Object → Type 0
  IsChecked (service_account m) = Unit
  IsChecked (role m given) = IsSubset given rules
  IsChecked (cluster_role m given) = IsSubset given global_rules
  IsChecked (role_binding m to ref) =
      (ref.name ≡ Rbac.role_name safe_concat_name service)
      ⊎ ((given : List PolicyRule) × (k.role_rules ref service.namespace ≡ some given)
          × IsSubset given rules)
  IsChecked (cluster_role_binding m to ref) =
      (ref.name ≡ Rbac.cluster_role_name safe_concat_name service)
      ⊎ ((given : List PolicyRule) × (k.role_rules ref [] ≡ some given)
          × IsSubset given global_rules)

  add_rules-IsChecked :
      (labels : List (Text × Text)) (to : Subject)
      → IsSubset (Rbac.rules_of service.spec.permissions) rules
      → All IsChecked (Rbac.add_rules safe_concat_name labels to service)
  unfolding Rbac.add_rules
  add_rules-IsChecked labels to h = ground arith

  add_cluster_rules-IsChecked :
      (labels : List (Text × Text)) (to : Subject)
      → IsSubset (Rbac.rules_of service.spec.global_permissions) global_rules
      → All IsChecked (Rbac.add_cluster_rules safe_concat_name labels to service)
  unfolding Rbac.add_cluster_rules
  add_cluster_rules-IsChecked labels to h = ground arith

  binding_to-IsChecked :
      (labels : List (Text × Text)) (to : Subject) (perm : Permission)
      → IsCovered k.role_rules false service.namespace rules perm
      → All IsChecked (Rbac.binding_to safe_concat_name labels to service perm)
  unfolding Rbac.binding_to
  binding_to-IsChecked labels to perm (own, named) = elim (Bool-cases (is_empty perm.role)) [
    | inl e ↦ rw e tt
    | inr e ↦ rw e (inr (named e), tt)
  ]

  add_roles-IsChecked :
      (labels : List (Text × Text)) (to : Subject) (perms : List Permission)
      → All (IsCovered k.role_rules false service.namespace rules) perms
      → All IsChecked (Rbac.add_roles safe_concat_name labels to service perms)
  unfolding Rbac.add_roles
  add_roles-IsChecked labels to [] h = tt
  add_roles-IsChecked labels to (perm ∷ perms) (covered, h) =
      All-append IsChecked (Rbac.binding_to safe_concat_name labels to service perm) _
        (binding_to-IsChecked labels to perm covered) (add_roles-IsChecked labels to perms h)

  cluster_binding_to-IsChecked :
      (labels : List (Text × Text)) (to : Subject) (perm : Permission)
      → IsCovered k.role_rules true [] global_rules perm
      → All IsChecked (Rbac.cluster_binding_to safe_concat_name labels to service perm)
  unfolding Rbac.cluster_binding_to
  cluster_binding_to-IsChecked labels to perm (own, named) =
      elim (Bool-cases (is_empty perm.role)) [ inl e ↦ rw e tt | inr e ↦ rw e (inr (named e), tt) ]

  add_cluster_roles-IsChecked :
      (labels : List (Text × Text)) (to : Subject) (perms : List Permission)
      → All (IsCovered k.role_rules true [] global_rules) perms
      → All IsChecked (Rbac.add_cluster_roles safe_concat_name labels to service perms)
  unfolding Rbac.add_cluster_roles
  add_cluster_roles-IsChecked labels to [] h = tt
  add_cluster_roles-IsChecked labels to (perm ∷ perms) (covered, h) =
      All-append IsChecked (Rbac.cluster_binding_to safe_concat_name labels to service perm) _
        (cluster_binding_to-IsChecked labels to perm covered)
        (add_cluster_roles-IsChecked labels to perms h)

  pub populate-IsChecked :
      All (IsCovered k.role_rules false service.namespace rules) service.spec.permissions
      → All IsChecked (Rbac.populate safe_concat_name service)
  unfolding Rbac.populate
  populate-IsChecked h = elim (Option-cases (Rbac.subject service)) [
    | inl e ↦ rw (e, Rbac.populate) tt
    | inr (to, e) ↦
        rw (e, Rbac.populate)
          (
            tt,
            All-append IsChecked
                (Rbac.add_roles safe_concat_name _ to service service.spec.permissions) _
                (add_roles-IsChecked (service_labels service) to service.spec.permissions h)
                (add_rules-IsChecked (service_labels service) to
                  (rules_of-IsSubset k.role_rules false service.namespace _ rules h)),
          )
  ]

  pub populate_cluster-IsChecked :
      All (IsCovered k.role_rules true [] global_rules) service.spec.global_permissions
      → All IsChecked (Rbac.populate_cluster safe_concat_name service)
  unfolding Rbac.populate_cluster
  populate_cluster-IsChecked h = elim (Option-cases (Rbac.subject service)) [
    | inl e ↦ rw (e, Rbac.populate_cluster) tt
    | inr (to, e) ↦
        rw (e, Rbac.populate_cluster)
          (All-append IsChecked
            (Rbac.add_cluster_roles safe_concat_name _ to service service.spec.global_permissions) _
            (add_cluster_roles-IsChecked _ to service.spec.global_permissions h)
            (add_cluster_rules-IsChecked _ to
              (rules_of-IsSubset k.role_rules true [] _ global_rules h)))
  ]
