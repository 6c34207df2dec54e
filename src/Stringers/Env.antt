-- ===== src/Stringers/Env.antt =====
-- pkg/riofile/stringers/env.go: environment variables.
use rio.Prelude.{
  Text, str, is_empty, has_prefix, trim_prefix, Lacks, has_prefix-append, trim_prefix-append, ◌≡◌,
  refl, ◌⊎◌, inl, inr, ◌∙◌, true, false, List, [], ◌∷◌, ◌++◌, map, if◌then◌else◌,
}
use mathlib.Core.List.{append-nil}
use rio.Api.Service.{EnvVar}
use rio.Stringers.Kv.{Kv, IsKv, is_trimmed}

unfoldable pub key_suffix : Text → Text
key_suffix key = if is_empty key then [] else str "/" ++ key

-- What is printed behind the `=`.
unfoldable pub value_string : EnvVar → Text
value_string e =
    if is_empty e.config_map_name
    then (if is_empty e.secret_name
        then e.value
        else str "secret://" ++ (e.secret_name ++ key_suffix e.key))
    else str "config://" ++ (e.config_map_name ++ key_suffix e.key)

unfoldable pub env_string : EnvVar → Text
env_string e = e.name ++ (b'=' ∷ value_string e)

module _ (kv : Kv) where
  unfoldable pub prefixed_key_value_path : Text → Text → Text × Text
  unfolding trim_prefix
  prefixed_key_value_path prefix value = kv.split (trim_prefix value prefix) b'/'

  -- The variable with this name and this text behind the `=`.
  unfoldable pub env_of : Text → Text → EnvVar
  env_of k v =
      let env_var : EnvVar = record {
        name = k;
        value = v;
        secret_name = [];
        config_map_name = [];
        key = [];
      } in
      let (secret, secret_key) = prefixed_key_value_path (str "secret://") v in
      let (config, config_key) = prefixed_key_value_path (str "config://") v in
      if has_prefix v (str "secret://")
      then record env_var { secret_name = secret; key = secret_key }
      else if has_prefix v (str "config://")
      then record env_var { config_map_name = config; key = config_key }
      else env_var

  unfoldable pub parse_env : Text → EnvVar
  parse_env env = let (k, v) = kv.split env b'=' in env_of k v

  -- Parsing does not fail.
  unfoldable pub parse_envs : List Text → List EnvVar
  parse_envs envs = map parse_env envs

-- A variable with a value of its own.
pub record HasValue (e : EnvVar) : Type 0 where
  pub no_secret : e.secret_name ≡ []
  pub no_config : e.config_map_name ≡ []
  pub no_key : e.key ≡ []
  pub not_secret : has_prefix e.value (str "secret://") ≡ false
  pub not_config : has_prefix e.value (str "config://") ≡ false

-- A name in front of a key.
pub record IsPath (name key : Text) : Type 0 where
  pub named : is_empty name ≡ false
  pub lacks : Lacks b'/' name
  pub trimmed : is_trimmed name ≡ true
  pub key_trimmed : is_trimmed key ≡ true

pub record FromSecret (e : EnvVar) : Type 0 where
  pub no_config : e.config_map_name ≡ []
  pub path : IsPath e.secret_name e.key

pub record FromConfig (e : EnvVar) : Type 0 where
  pub no_secret : e.secret_name ≡ []
  pub path : IsPath e.config_map_name e.key

-- A variable of one of the three kinds, whose form has no white space at the ends of its parts.
pub record IsPrintable (e : EnvVar) : Type 0 where
  pub kind : HasValue e ⊎ FromSecret e ⊎ FromConfig e
  pub lacks : Lacks b'=' e.name
  pub trimmed : is_trimmed e.name ≡ true
  pub value_trimmed : is_trimmed (value_string e) ≡ true

value_string-secret :
    (e : EnvVar)
    → FromSecret e
    → value_string e ≡ str "secret://" ++ (e.secret_name ++ key_suffix e.key)
unfolding value_string
value_string-secret e k = rw k.no_config (rw k.path.named refl)

value_string-config :
    (e : EnvVar)
    → FromConfig e
    → value_string e ≡ str "config://" ++ (e.config_map_name ++ key_suffix e.key)
unfolding value_string
value_string-config e k = rw k.path.named refl

value_string-value : (e : EnvVar) → HasValue e → value_string e ≡ e.value
unfolding value_string
value_string-value e k = rw k.no_config (rw k.no_secret refl)

not_secret : (s : Text) → has_prefix (str "config://" ++ s) (str "secret://") ≡ false
unfolding has_prefix str
not_secret s = refl

module _ (kv : Kv) (k v name key : Text) where
  env_of-secret :
      has_prefix v (str "secret://") ≡ true
      → kv.split (trim_prefix v (str "secret://")) b'/' ≡ (name, key)
      → env_of kv k v
        ≡ record { name = k; value = v; secret_name = name; config_map_name = []; key = key }
  unfolding env_of prefixed_key_value_path
  env_of-secret p e = rw p (rw e refl)

  env_of-config :
      has_prefix v (str "secret://") ≡ false
      → has_prefix v (str "config://") ≡ true
      → kv.split (trim_prefix v (str "config://")) b'/' ≡ (name, key)
      → env_of kv k v
        ≡ record { name = k; value = v; secret_name = []; config_map_name = name; key = key }
  unfolding env_of prefixed_key_value_path
  env_of-config n p e = rw n (rw p (rw e refl))

env_of-value :
    (kv : Kv) (k v : Text)
    → has_prefix v (str "secret://") ≡ false
    → has_prefix v (str "config://") ≡ false
    → env_of kv k v
      ≡ record { name = k; value = v; secret_name = []; config_map_name = []; key = [] }
unfolding env_of
env_of-value kv k v n m = rw n (rw m refl)

module _ (kv : Kv) (h : IsKv kv) where
  split_path :
      (name key : Text) → IsPath name key → kv.split (name ++ key_suffix key) b'/' ≡ (name, key)
  unfolding key_suffix str
  split_path name [] p = rw (append-nil name) (h.split_none b'/' name p.lacks p.trimmed)
  split_path name (c ∷ key) p = h.split_at b'/' name (c ∷ key) p.lacks p.trimmed p.key_trimmed

  parse_env-of :
      (e : EnvVar) → IsPrintable e → parse_env kv (env_string e) ≡ env_of kv e.name (value_string e)
  unfolding parse_env env_string
  parse_env-of e p =
      rw (h.split_at b'=' e.name (value_string e) p.lacks p.trimmed p.value_trimmed) refl

  env_of-HasValue :
      (e : EnvVar)
      → HasValue e
      → env_of kv e.name (value_string e) ≡ record e { value = value_string e }
  env_of-HasValue e k = rw (value_string-value e k) (
      env_of-value kv e.name e.value k.not_secret k.not_config
      ∙ cc (k.no_secret, k.no_config, k.no_key))

  env_of-FromSecret :
      (e : EnvVar)
      → FromSecret e
      → env_of kv e.name (value_string e) ≡ record e { value = value_string e }
  env_of-FromSecret e k = rw (value_string-secret e k) (
      env_of-secret kv e.name _ e.secret_name e.key (has_prefix-append (str "secret://") _) (
        rw (trim_prefix-append (str "secret://") (e.secret_name ++ key_suffix e.key))
          (split_path e.secret_name e.key k.path))
      ∙ cc k.no_config)

  env_of-FromConfig :
      (e : EnvVar)
      → FromConfig e
      → env_of kv e.name (value_string e) ≡ record e { value = value_string e }
  env_of-FromConfig e k = rw (value_string-config e k) (
      env_of-config kv e.name _ e.config_map_name e.key (not_secret _)
        (has_prefix-append (str "config://") _)
        (rw (trim_prefix-append (str "config://") (e.config_map_name ++ key_suffix e.key))
          (split_path e.config_map_name e.key k.path))
      ∙ cc k.no_secret)

  -- Parsing the form of a variable gives the variable back, with what stands behind the `=` as its
  -- value, if it has a value of its own or comes from a secret or a config and its parts hold no
  -- separator.
  pub parse_env-env_string :
      (e : EnvVar)
      → IsPrintable e
      → parse_env kv (env_string e) ≡ record e { value = value_string e }
  parse_env-env_string e p = parse_env-of e p ∙ elim p.kind [
    | inl value ↦ env_of-HasValue e value
    | inr (inl secret) ↦ env_of-FromSecret e secret
    | inr (inr config) ↦ env_of-FromConfig e config
  ]
