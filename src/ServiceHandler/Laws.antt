-- ===== src/ServiceHandler/Laws.antt =====
-- What the handler generates, and the features that it turns on.
use rio.Prelude.{
  Text, str, text_eq_iff, ◌≡◌, refl, sym, ◌∙◌, true, false, List, [], ◌∷◌, Bool-cases, ◌⊎◌, inl,
  inr, and_left, and_right, and_intro,
}
use rio.Api.Service.{Service}
use rio.Kube.Workload.{
  Generated, access, kube_service, claim, deployment, stateful_set, daemon_set,
  PersistentVolumeClaim,
}
use rio.Config.{value_of}
use rio.Pod.Libraries.{Libraries, Range}
use rio.Workload.Populate.{populate_service}
use rio.ServiceHandler.{
  Environment, ClaimLookup, found, not_found, generated, is_pvc_owned_by_service, ensure_features,
  keeps, kept, generate_service,
}

-- The annotations of a claim that the service owns.
pub record IsOwned (service : Service) (annotations : List (Text × Text)) : Type 0 where
  pub kind :
      value_of (str "objectset.rio.cattle.io/owner-gvk") annotations
      ≡ str "rio.cattle.io/v1, Kind=Service"
  pub name : value_of (str "objectset.rio.cattle.io/owner-name") annotations ≡ service.name
  pub space :
      value_of (str "objectset.rio.cattle.io/owner-namespace") annotations ≡ service.namespace

-- `kept` has those of `gs` of which P holds, in their order, and no others.
pub data IsFiltered {A : Type 0} (P : A → Type 0) : List A → List A → Type 0 where
  none_left : IsFiltered P [] []
  keep : {g : A} {gs kept : List A} → P g → IsFiltered P gs kept → IsFiltered P (g ∷ gs) (g ∷ kept)
  leave : {g : A} {gs kept : List A} → ¬ P g → IsFiltered P gs kept → IsFiltered P (g ∷ gs) kept

module _ (env : Environment) (service : Service) where
  -- No claim of another owner is there in its place.
  abbrev pub IsFree : Generated → Type 0
  IsFree (claim c) =
      (env.claims c.meta.namespace c.meta.name ≡ not_found)
      ⊎ ((annotations : List (Text × Text)) × (env.claims c.meta.namespace c.meta.name
            ≡ found annotations)
          × IsOwned service annotations)
  IsFree (access o) = Unit
  IsFree (kube_service s) = Unit
  IsFree (deployment d) = Unit
  IsFree (stateful_set s) = Unit
  IsFree (daemon_set d) = Unit

  lookup_cases :
      (l : ClaimLookup)
      → (l ≡ not_found) ⊎ ((a : List (Text × Text)) × (l ≡ found a)) ⊎ (l ≡ ClaimLookup.failed)
  lookup_cases not_found = inl refl
  lookup_cases (found a) = inr (inl (a, refl))
  lookup_cases ClaimLookup.failed = inr (inr refl)

  module _ (c : PersistentVolumeClaim) where
    keeps-not_found :
        env.claims c.meta.namespace c.meta.name ≡ not_found → keeps env service (claim c) ≡ true
    unfolding keeps
    keeps-not_found e = rw (e, keeps) refl

    keeps-found :
        (a : List (Text × Text))
        → env.claims c.meta.namespace c.meta.name ≡ found a
        → keeps env service (claim c) ≡ is_pvc_owned_by_service a service
    unfolding keeps
    keeps-found a e = rw (e, keeps) refl

    keeps-failed :
        env.claims c.meta.namespace c.meta.name ≡ ClaimLookup.failed
        → keeps env service (claim c) ≡ false
    unfolding keeps
    keeps-failed e = rw (e, keeps) refl

  IsOwned-of_test :
      (a : List (Text × Text)) → is_pvc_owned_by_service a service ≡ true → IsOwned service a
  unfolding is_pvc_owned_by_service
  IsOwned-of_test a h = record {
    kind = (text_eq_iff _ _).0 (and_left _ _ (and_left _ _ h));
    name = (text_eq_iff _ _).0 (and_right _ _ (and_left _ _ h));
    space = (text_eq_iff _ _).0 (and_right _ _ h);
  }

  test-of_IsOwned :
      (a : List (Text × Text)) → IsOwned service a → is_pvc_owned_by_service a service ≡ true
  unfolding is_pvc_owned_by_service
  test-of_IsOwned a h =
      and_intro _ _ (and_intro _ _ ((text_eq_iff _ _).1 h.kind) ((text_eq_iff _ _).1 h.name))
        ((text_eq_iff _ _).1 h.space)

  keeps-IsFree : (g : Generated) → keeps env service g ≡ true → IsFree g
  keeps-IsFree (claim c) h = elim (lookup_cases (env.claims c.meta.namespace c.meta.name)) [
    | inl missing ↦ inl missing
    | inr (inl (a, e)) ↦ inr (a, e, IsOwned-of_test a (sym (keeps-found c a e) ∙ h))
    | inr (inr failed) ↦ absurd (cc (h, keeps-failed c failed))
  ]
  keeps-IsFree (access o) h = tt
  keeps-IsFree (kube_service s) h = tt
  keeps-IsFree (deployment d) h = tt
  keeps-IsFree (stateful_set s) h = tt
  keeps-IsFree (daemon_set d) h = tt

  IsFree-keeps : (g : Generated) → IsFree g → keeps env service g ≡ true
  unfolding keeps
  IsFree-keeps (claim c) (inl missing) = keeps-not_found c missing
  IsFree-keeps (claim c) (inr (a, e, owned)) = keeps-found c a e ∙ test-of_IsOwned a owned
  IsFree-keeps (access o) h = refl
  IsFree-keeps (kube_service s) h = refl
  IsFree-keeps (deployment d) h = refl
  IsFree-keeps (stateful_set s) h = refl
  IsFree-keeps (daemon_set d) h = refl

  kept-IsFiltered : (gs : List Generated) → IsFiltered IsFree gs (kept env service gs)
  unfolding kept
  kept-IsFiltered [] = none_left
  kept-IsFiltered (g ∷ gs) = elim (Bool-cases (keeps env service g)) [
    | inl k ↦ rw k (keep (keeps-IsFree g k) (kept-IsFiltered gs))
    | inr n ↦ rw n (leave (λ free. cc (n, IsFree-keeps g free)) (kept-IsFiltered gs))
  ]

  module _ (lib : Libraries) (range_keys : Range) (scn : List Text → Text) where
    generate_service-kept :
        (gs : List Generated)
        → generate_service env lib range_keys scn service ≡ generated gs
        → kept env service (populate_service lib range_keys scn service) ≡ gs
    unfolding generate_service
    generate_service-kept gs e = elim (Bool-cases (ensure_features env service).ok) [
      | inr error ↦ absurd (cc (e, error))
      | inl ok ↦ elim (Bool-cases service.spec.template) [
        | inl template ↦ absurd (cc (e, ok, template))
        | inr plain ↦ cc (e, ok, plain)
      ]
    ]

    -- If the handler generates objects for a service, these are the ones that the service is turned
    -- into, in their order and each as often as there, except for claims of which one exists, or may
    -- exist, that the service does not own.
    pub generate_service-AreFree :
        (gs : List Generated)
        → generate_service env lib range_keys scn service ≡ generated gs
        → IsFiltered IsFree (populate_service lib range_keys scn service) gs
    generate_service-AreFree gs e =
        rw (sym (generate_service-kept gs e))
          (kept-IsFiltered (populate_service lib range_keys scn service))
