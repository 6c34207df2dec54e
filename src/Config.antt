-- ===== src/Config.antt =====
-- pkg/config/config.go: the configuration that is kept in a config map. The codec of package
-- encoding/json is a parameter.
use rio.Prelude.{Text, str, is_empty, ◌≡◌, false, Bool, Option, none, some, List, [], if◌then◌else◌}
use rio.Prelude.Maps.{lookup, insert}
use rio.Api.Domain.{Address}

pub record Gateway : Type 0 where
  pub static_addresses : List Address
  pub service_name : Text
  pub service_namespace : Text
  pub ingress_name : Text
  pub ingress_namespace : Text

pub record LetsEncrypt : Type 0 where
  pub account : Text
  pub email : Text
  pub server_url : Text

pub record FeatureConfig : Type 0 where
  pub enabled : Option Bool
  pub description : Text
  pub options : List (Text × Text)

pub record Config : Type 0 where
  pub features : List (Text × FeatureConfig)
  pub lets_encrypt : LetsEncrypt
  pub rdns_url : Text
  pub gateway : Gateway

abbrev pub zero_config : Config
zero_config = record {
  features = [];
  lets_encrypt = record { account = []; email = []; server_url = [] };
  rdns_url = [];
  gateway = record {
    static_addresses = [];
    service_name = [];
    service_namespace = [];
    ingress_name = [];
    ingress_namespace = [];
  };
}

-- The data of a config map.
abbrev pub ConfigMap : Type 0
ConfigMap = List (Text × Text)

-- `m[k]`, which is empty for a missing key.
abbrev pub value_of : Text → List (Text × Text) → Text
value_of k m = elim (lookup k m) [ some v ↦ v | none ↦ [] ]

pub record Codec : Type 0 where
  pub decode : Text → Option Config
  pub encode : Config → Option Text

-- What this configuration is encoded as is decoded again, and is no empty text.
pub record IsCodec (codec : Codec) (c : Config) : Type 0 where
  pub decoded : (s : Text) → codec.encode c ≡ some s → codec.decode s ≡ some c
  pub filled : (s : Text) → codec.encode c ≡ some s → is_empty s ≡ false

module _ (codec : Codec) where
  unfoldable pub from_config_map : ConfigMap → Option Config
  from_config_map cm =
      let text = value_of (str "config") cm in
      if is_empty text then some zero_config else codec.decode text

  -- On a copy of the config map.
  unfoldable pub set_config : ConfigMap → Config → Option ConfigMap
  set_config cm config = elim (codec.encode config) [
    | none ↦ none
    | some bytes ↦ some (insert (str "config") bytes cm)
  ]
