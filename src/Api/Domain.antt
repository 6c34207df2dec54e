-- ===== src/Api/Domain.antt =====
-- The custom resources of pkg/apis/admin.rio.cattle.io/v1, domain.go and publicdomain.go.
use rio.Prelude.{Text, Bool, List}
use rio.Prelude.Int.{ℤ}

pub record Address : Type 0 where
  pub ip : Text
  pub hostname : Text

pub record ClusterDomain : Type 0 where
  pub name : Text
  pub namespace : Text
  pub addresses : List Address
  pub https_port : ℤ
  pub http_port : ℤ
  pub assigned_secret_name : Text
  pub https_supported : Bool

pub record PublicDomain : Type 0 where
  pub name : Text
  pub namespace : Text
  pub target_app : Text
  pub target_router : Text
  pub target_namespace : Text
  pub assigned_secret_name : Text
  pub https_supported : Bool
