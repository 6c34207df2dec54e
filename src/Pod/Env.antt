-- ===== src/Pod/Env.antt =====
-- modules/service/controllers/service/populate/pod/containers.go: the environment of a container.
use rio.Prelude.{
  Text, str, ℕ, zero, suc, is_empty, has_prefix, has_suffix, not, ◌||◌, Option, none, some, List,
  [], ◌∷◌, map, if◌then◌else◌,
}
use rio.Prelude.Maps.{lookup}
use rio.Api.Service.{EnvVar, Container}
use rio.Kube.Pod.{
  KubeEnvVar, EnvVarSource, config_map_key_ref, secret_key_ref, field_ref, resource_field_ref,
}
use rio.Pod.Libraries.{Libraries}

abbrev pub field_refs : List (Text × Text)
field_refs =
    (str "self/name", str "metadata.name")
    ∷ (str "self/namespace", str "metadata.namespace")
    ∷ (str "self/labels", str "metadata.labels")
    ∷ (str "self/annotations", str "metadata.annotations")
    ∷ (str "self/node", str "spec.nodeName")
    ∷ (str "self/serviceaccount", str "spec.serviceAccountName")
    ∷ (str "self/hostip", str "status.hostIP")
    ∷ (str "self/nodeip", str "status.hostIP")
    ∷ (str "self/ip", str "status.podIP")
    ∷ []

abbrev pub resource_refs : List (Text × Text)
resource_refs =
    (str "limits/cpu", str "limits.cpu")
    ∷ (str "limits/memory", str "limits.memory")
    ∷ (str "limits/ephemeral-storage", str "limits.ephemeral-storage")
    ∷ (str "requests/cpu", str "requests.cpu")
    ∷ (str "requests/memory", str "requests.memory")
    ∷ (str "requests/ephemeral-storage", str "requests.ephemeral-storage")
    ∷ []

drop : ℕ → Text → Text
drop zero s = s
drop (suc n) [] = []
drop (suc n) (c ∷ s) = drop n s

drop_last : Text → Text
drop_last [] = []
drop_last (c ∷ []) = []
drop_last (c ∷ d ∷ s) = c ∷ drop_last (d ∷ s)

-- `value[2 : len(value)-1]` of a value that starts with `$(` and ends with `)`.
unfoldable pub inner : Text → Text
unfolding drop drop_last
inner value = drop_last (drop 2 value)

abbrev from_source : Text → EnvVarSource → KubeEnvVar
from_source name source = record { name = name; value = []; value_from = some source }

abbrev reference : Text → Text → Option EnvVarSource
reference container_name key = elim (lookup key field_refs) [
  | some path ↦ some (field_ref path)
  | none ↦ elim (lookup key resource_refs) [
    | some resource ↦ some (resource_field_ref container_name resource)
    | none ↦ none
  ]
]

module _ (lib : Libraries) (container_name : Text) where
  -- What a variable is read from: a config, a secret, a field of the pod or a resource.
  unfoldable pub env_source : EnvVar → Option EnvVarSource
  unfolding inner
  env_source e =
      if not (is_empty e.config_map_name)
      then some (config_map_key_ref e.config_map_name e.key)
      else if not (is_empty e.secret_name)
      then some (secret_key_ref e.secret_name e.key)
      else if not (has_prefix e.value (str "$(")) || not (has_suffix e.value (str ")"))
      then none
      else reference container_name (lib.to_lower (inner e.value))

  -- A round of the loop.
  unfoldable pub env_var : EnvVar → KubeEnvVar
  unfolding env_source
  env_var e = elim (env_source e) [
    | some source ↦ from_source e.name source
    | none ↦ record { name = e.name; value = e.value; value_from = none }
  ]

  unfoldable pub envs : Container → List KubeEnvVar
  unfolding env_var
  envs c = map env_var c.env
