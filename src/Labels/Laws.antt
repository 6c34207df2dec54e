-- ===== src/Labels/Laws.antt =====
-- What a client reads from the generated labels and annotations.
use rio.Prelude.{Text, str, text_eq_iff, ◌≡◌, refl, false, Option, none, some, List, [], ◌∷◌, arith}
use rio.Prelude.Maps.{lookup, insert_all, or_else, lookup-insert_all}
use rio.Api.Service.{Service}
use rio.Labels.{merge, merge_one, selector_labels, service_labels, service_annotations}

-- The value of the last overlay that has the key, else of the base.
abbrev pub last_of : List (List (Text × Text)) → Text → Option Text → Option Text
last_of [] k found = found
last_of (o ∷ overlay) k found = last_of overlay k (or_else (lookup k o) found)

or_else-none : (o : Option Text) → or_else o (lookup {V = Text} [] []) ≡ o
unfolding lookup
or_else-none none = refl
or_else-none (some v) = refl

lookup-copy : (k : Text) (base : List (Text × Text)) → lookup k (insert_all base []) ≡ lookup k base
unfolding lookup
lookup-copy k base = rw lookup-insert_all (or_else-none (lookup k base))

lookup-merge_one :
    (k : Text) (base o : List (Text × Text))
    → lookup k (merge_one base o) ≡ or_else (lookup k o) (lookup k base)
unfolding merge_one
lookup-merge_one k base o = rw (lookup-insert_all, lookup-copy)

-- Reading a key of merged maps gives the value of the last overlay that has it, else of the base.
pub lookup-merge :
    (k : Text) (base : List (Text × Text)) (overlay : List (List (Text × Text)))
    → lookup k (merge base overlay) ≡ last_of overlay k (lookup k base)
unfolding merge
lookup-merge k base [] = lookup-copy k base
lookup-merge k base (o ∷ []) = lookup-merge_one k base o
lookup-merge k base (o ∷ p ∷ overlay) =
    rw (lookup-merge k (merge_one base o) (p ∷ overlay), lookup-merge_one)

-- Every selector label of a service is among its labels with the same value, whatever labels the
-- user has set: the generated workload's selector matches its pods.
pub selector_labels-selected :
    (service : Service) (k v : Text)
    → lookup k (selector_labels service) ≡ some v
    → lookup k (service_labels service) ≡ some v
unfolding service_labels
selector_labels-selected service k v h = rw (lookup-merge, h)

-- The mesh annotation of a service is the user's own if there is one, and else "false" exactly
-- where the service turns the mesh off.
pub mesh_annotation :
    (service : Service)
    → lookup (str "rio.cattle.io/mesh") (service_annotations service)
      ≡ or_else
          (lookup (str "rio.cattle.io/mesh") service.annotations)
          (elim service.spec.service_mesh [
            | some false ↦ some (str "false")
            | _ ↦ some (str "true")
          ])
unfolding service_annotations lookup
mesh_annotation service =
    rw lookup-merge
      (ground (arith, text_eq_iff (str "rio.cattle.io/mesh") (str "rio.cattle.io/mesh")))
