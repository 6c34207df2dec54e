-- ===== src/GlobalRbac/Laws.antt =====
-- When the handler of modules/service/controllers/globalrbac deletes what it has generated.
use rio.Prelude.{
  Text, str, text_eq, text_eq_refl, is_empty, is_cons, ◌≡◌, refl, Bool, false, Option, none, some,
  List, [], ◌∷◌, arith, All, All-append, Member, Bool-cases, Option-cases, inl, inr,
}
use rio.Prelude.Maps.{lookup, insert, lookup-insert}
use rio.Config.{value_of}
use rio.Api.Service.{Service, Permission}
use rio.Kube.{
  Subject, ObjectMeta, Object, cluster_role, cluster_role_binding, Cached, found, not_found, failed,
}
use rio.Labels.{service_labels}
use rio.Rbac
use rio.GlobalRbac.{
  ClusterObject, Key, Handler, resolve_to_cr, generate_cluster, on_found, on_change,
  on_cluster_role, on_cluster_role_binding,
}
use rio.GlobalRbac

-- The object as it is in the cluster, alive.
abbrev pub alive : ObjectMeta → ClusterObject
alive m = record { name = m.name; labels = m.labels; deleting = false }

-- What is deleted with a service: a name, if the service is not found.
abbrev pub deleted_with : Cached Service → Text → List Text
deleted_with not_found name = name ∷ []
deleted_with (found s) name = []
deleted_with failed name = []

abbrev cluster_labels : Service → List (Text × Text)
cluster_labels s =
    insert (str "rio.cattle.io/namespace") s.namespace
      (insert (str "rio.cattle.io/service") s.name (service_labels s))

-- The keys that a change of the service enqueues have this one.
abbrev pub IsEnqueued : Option (List Key) → Text → Type 0
IsEnqueued keys name = elim keys [ none ↦ ⊥ | some ks ↦ Member (record { name = name }) ks ]

module _ (s : Service) where
  namespace-of_labels : value_of (str "rio.cattle.io/namespace") (cluster_labels s) ≡ s.namespace
  unfolding lookup
  namespace-of_labels =
      rw
        (
          lookup-insert (str "rio.cattle.io/namespace") (str "rio.cattle.io/namespace") s.namespace
              _,
          text_eq_refl (str "rio.cattle.io/namespace"),
          value_of,
        )
        refl

  name-of_labels : value_of (str "rio.cattle.io/service") (cluster_labels s) ≡ s.name
  unfolding str text_eq
  name-of_labels =
      rw
        (
          lookup-insert (str "rio.cattle.io/namespace") (str "rio.cattle.io/service") s.namespace _,
          lookup-insert (str "rio.cattle.io/service") (str "rio.cattle.io/service") s.name _,
          value_of,
        )
        refl

  on_change-deletions :
      (h : Handler) (delete : Text → Bool) (name : Text)
      → is_empty s.namespace ≡ false
      → is_empty s.name ≡ false
      → (on_change h delete (
          some
            (alive (record { name = name; namespace = []; labels = cluster_labels s })))).deletions
        ≡ deleted_with (h.services s.namespace s.name) name
  unfolding on_change on_found
  on_change-deletions h delete name in_namespace named =
      ground (arith, namespace-of_labels, name-of_labels)

module _ (safe_concat_name : List Text → Text) (s : Service) (h : Handler) where
  -- A change of the service enqueues the cluster roles, and the handlers delete an object exactly
  -- if the cache does not find the service; other objects there are none.
  abbrev pub IsCollected : Object → Type 0
  IsCollected (cluster_role m rules) =
      IsEnqueued (resolve_to_cr safe_concat_name (GlobalRbac.service s)) m.name
      × ((on_cluster_role h (some (alive m))).deletions
          ≡ deleted_with (h.services s.namespace s.name) m.name)
  IsCollected (cluster_role_binding m to ref) =
      (on_cluster_role_binding h (some (alive m))).deletions
      ≡ deleted_with (h.services s.namespace s.name) m.name
  IsCollected _ = ⊥

  module _ (in_namespace : is_empty s.namespace ≡ false) (named : is_empty s.name ≡ false) where
    cluster_binding_to-IsCollected :
        (to : Subject) (perm : Permission)
        → All IsCollected (Rbac.cluster_binding_to safe_concat_name (cluster_labels s) to s perm)
    unfolding Rbac.cluster_binding_to on_cluster_role_binding
    cluster_binding_to-IsCollected to perm = elim (Bool-cases (is_empty perm.role)) [
      | inl e ↦ rw e tt
      | inr e ↦ rw e (on_change-deletions s h h.delete_binding _ in_namespace named, tt)
    ]

    add_cluster_roles-IsCollected :
        (to : Subject) (perms : List Permission)
        → All IsCollected (Rbac.add_cluster_roles safe_concat_name (cluster_labels s) to s perms)
    unfolding Rbac.add_cluster_roles
    add_cluster_roles-IsCollected to [] = tt
    add_cluster_roles-IsCollected to (perm ∷ perms) =
        All-append IsCollected
          (Rbac.cluster_binding_to safe_concat_name (cluster_labels s) to s perm) _
          (cluster_binding_to-IsCollected to perm) (add_cluster_roles-IsCollected to perms)

    add_cluster_rules-IsCollected :
        (to : Subject)
        → All IsCollected (Rbac.add_cluster_rules safe_concat_name (cluster_labels s) to s)
    unfolding Rbac.add_cluster_rules Rbac.cluster_role_name on_cluster_role_binding on_cluster_role
        resolve_to_cr
    add_cluster_rules-IsCollected to =
        elim (Bool-cases (is_cons (Rbac.rules_of s.spec.global_permissions))) [
          | inl e ↦ rw e (
            (inl refl, on_change-deletions s h h.delete_role _ in_namespace named),
            (on_change-deletions s h h.delete_binding _ in_namespace named, tt),
          )
          | inr e ↦ rw e tt
        ]

-- What is generated for a service with a name and a namespace are cluster roles and bindings. Each
-- of them is deleted, if it is not being deleted, exactly when the cache does not find the service;
-- a change of the service enqueues its cluster role.
pub generate_cluster-AreCollected :
    (safe_concat_name : List Text → Text) (s : Service) (h : Handler)
    → is_empty s.namespace ≡ false
    → is_empty s.name ≡ false
    → All (IsCollected safe_concat_name s h) (generate_cluster safe_concat_name s)
unfolding generate_cluster Rbac.populate_cluster
generate_cluster-AreCollected safe_concat_name s h in_namespace named =
    elim (Option-cases (Rbac.subject s)) [
      | inl e ↦ rw (e, Rbac.populate_cluster) tt
      | inr (to, e) ↦
          rw (e, Rbac.populate_cluster)
            (All-append (IsCollected safe_concat_name s h)
              (Rbac.add_cluster_roles safe_concat_name (cluster_labels s) to s
                s.spec.global_permissions)
              _
              (add_cluster_roles-IsCollected safe_concat_name s h in_namespace named to
                s.spec.global_permissions)
              (add_cluster_rules-IsCollected safe_concat_name s h in_namespace named to))
    ]
