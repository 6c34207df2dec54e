-- ===== src/GlobalRbac.antt =====
-- modules/service/controllers/globalrbac/handler.go: the cluster roles and bindings of services. The
-- service cache, the clients and SafeConcatName are parameters.
pub mod Laws
use rio.Prelude.{
  Text, str, is_empty, ◌||◌, Bool, true, Option, none, some, List, [], ◌∷◌, if◌then◌else◌,
}
use rio.Config.{value_of}
use rio.Api.Service.{Service}
use rio.Kube.{Object, Cached, found, not_found, failed}
use rio.Rbac

-- The metadata of a cluster role or a cluster role binding, with whether it has a time of deletion.
pub record ClusterObject : Type 0 where
  pub name : Text
  pub labels : List (Text × Text)
  pub deleting : Bool

-- What a handler returns, whether there is no error, and the deletions that it has asked for.
pub record Reply : Type 0 where
  pub returned : Option ClusterObject
  pub ok : Bool
  pub deletions : List Text

-- The object of a watch.
pub data Watched : Type 0 where
  nothing other : Watched
  service : Service → Watched

-- A key without a namespace.
pub record Key : Type 0 where
  pub name : Text

module _ (safe_concat_name : List Text → Text) where
  -- none is the error for an object of another type.
  unfoldable pub resolve_to_cr : Watched → Option (List Key)
  resolve_to_cr nothing = some []
  resolve_to_cr other = none
  resolve_to_cr (service s) =
      some (record { name = safe_concat_name (str "rio" ∷ s.namespace ∷ s.name ∷ []) } ∷ [])

  unfoldable pub resolve_to_cr_binding : Watched → Option (List Key)
  resolve_to_cr_binding nothing = some []
  resolve_to_cr_binding other = none
  resolve_to_cr_binding (service s) =
      let names = str "rio" ∷ s.namespace ∷ s.name ∷ str "rio" ∷ s.namespace ∷ s.name ∷ [] in
      some (record { name = safe_concat_name names } ∷ [])

  -- The status is returned as it is, and there is no error.
  unfoldable pub generate_cluster : Service → List Object
  generate_cluster s = Rbac.populate_cluster safe_concat_name s

-- The cache of services by namespace and name, and whether the clients delete without an error.
pub record Handler : Type 0 where
  pub services : Text → Text → Cached Service
  pub delete_binding : Text → Bool
  pub delete_role : Text → Bool

module _ (h : Handler) where
  -- The object is deleted if the service of its labels is not found.
  unfoldable pub on_found : (Text → Bool) → Text → Text → ClusterObject → Reply
  on_found delete ns svc_name o =
      let kept : Reply = record { returned = some o; ok = true; deletions = [] } in
      elim (h.services ns svc_name) [
        | not_found ↦ record { returned = some o; ok = delete o.name; deletions = o.name ∷ [] }
        | found s ↦ kept
        | failed ↦ kept
      ]

  -- The body of both handlers, over the client.
  unfoldable pub on_change : (Text → Bool) → Option ClusterObject → Reply
  unfolding on_found
  on_change delete none = record { returned = none; ok = true; deletions = [] }
  on_change delete (some o) =
      let svc_name = value_of (str "rio.cattle.io/service") o.labels in
      let ns = value_of (str "rio.cattle.io/namespace") o.labels in
      if o.deleting
      then record { returned = none; ok = true; deletions = [] }
      else if is_empty svc_name || is_empty ns
      then record { returned = some o; ok = true; deletions = [] }
      else on_found delete ns svc_name o

  unfoldable pub on_cluster_role_binding : Option ClusterObject → Reply
  on_cluster_role_binding crb = on_change h.delete_binding crb

  unfoldable pub on_cluster_role : Option ClusterObject → Reply
  on_cluster_role cr = on_change h.delete_role cr
