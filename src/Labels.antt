-- ===== src/Labels.antt =====
-- modules/service/controllers/service/populate/servicelabels/labels.go: the labels, the selector
-- and the annotations of what is generated for a service.
pub mod Laws
use rio.Prelude.{Text, str, true, false, some, List, [], ◌∷◌}
use rio.Prelude.Maps.{insert_all}
use rio.Api.Service.{Service}
use rio.Services.{app_and_version}

-- `Merge` with one overlay.
merge_one : List (Text × Text) → List (Text × Text) → List (Text × Text)
merge_one base overlay = insert_all overlay (insert_all base [])

unfoldable pub merge : List (Text × Text) → List (List (Text × Text)) → List (Text × Text)
unfolding merge_one
merge base [] = insert_all base []
merge base (o ∷ []) = merge_one base o
merge base (o ∷ p ∷ overlay) = merge (merge_one base o) (p ∷ overlay)

unfoldable pub selector_labels : Service → List (Text × Text)
selector_labels service =
    let (app, version) = app_and_version service in (str "app", app) ∷ (str "version", version) ∷ []

labels : Service → List (Text × Text)
labels service = (str "rio.cattle.io/service", service.name) ∷ []

unfoldable pub service_labels : Service → List (Text × Text)
unfolding labels selector_labels merge
service_labels service = merge service.labels (labels service ∷ selector_labels service ∷ [])

annotations : Service → List (Text × Text)
annotations service = elim service.spec.service_mesh [
  | some false ↦ (str "rio.cattle.io/mesh", str "false") ∷ []
  | _ ↦ (str "rio.cattle.io/mesh", str "true") ∷ []
]

-- User annotations override the others.
unfoldable pub service_annotations : Service → List (Text × Text)
unfolding annotations merge
service_annotations service = merge (annotations service) (service.annotations ∷ [])
