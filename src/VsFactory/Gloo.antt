-- ===== src/VsFactory/Gloo.antt =====
-- The types of Gloo's API that modules/gloo/pkg/vsfactory fills, with the fields that it sets.
-- A duration is a number of nanoseconds.
use rio.Prelude.{Text, ℕ, Bool, Option, List}
use rio.Prelude.Int.{ℤ}

pub record ResourceRef : Type 0 where
  pub name : Text
  pub namespace : Text

-- Destination_Kube, the only kind that is built.
pub record KubeDestination : Type 0 where
  pub ref : ResourceRef
  pub port : ℕ

pub record WeightedKube : Type 0 where
  pub destination : KubeDestination
  pub weight : ℕ

-- `Append` is a *BoolValue.
pub record HeaderValueOption : Type 0 where
  pub key : Text
  pub value : Text
  pub append : Option Bool

pub record HeaderManipulation : Type 0 where
  pub request_headers_to_add : List HeaderValueOption
  pub request_headers_to_remove : List Text

-- The percentage is the integer that `float32` is applied to.
pub record RouteAbort : Type 0 where
  pub percentage : ℤ
  pub http_status : ℕ

pub record RouteDelay : Type 0 where
  pub percentage : ℤ
  pub fixed_delay : ℤ

pub record RouteFaults : Type 0 where
  pub abort : Option RouteAbort
  pub delay : Option RouteDelay

pub record RetryPolicy : Type 0 where
  pub retry_on : Text
  pub num_retries : ℕ
  pub per_try_timeout : ℤ

pub record RouteOptions : Type 0 where
  pub header_manipulation : Option HeaderManipulation
  pub faults : Option RouteFaults
  pub prefix_rewrite : Option Text
  pub host_rewrite : Option Text
  pub timeout : Option ℤ
  pub retries : Option RetryPolicy

pub data PathSpecifier : Type 0 where
  regex prefix exact : Text → PathSpecifier

pub record HeaderMatcher : Type 0 where
  pub name : Text
  pub value : Text
  pub regex : Bool

pub record Matcher : Type 0 where
  pub path_specifier : Option PathSpecifier
  pub headers : List HeaderMatcher
  pub methods : List Text

pub record RedirectAction : Type 0 where
  pub host_redirect : Text
  pub https_redirect : Bool
  pub path_redirect : Option Text

-- Route_RouteAction with one or with several destinations, Route_RedirectAction, and
-- Route_DelegateAction.
pub data Action : Type 0 where
  single : KubeDestination → Action
  multi : List WeightedKube → Action
  redirect : RedirectAction → Action
  delegate : ResourceRef → Action

pub record Route : Type 0 where
  pub matchers : List Matcher
  pub action : Option Action
  pub options : Option RouteOptions

pub record SslConfig : Type 0 where
  pub secret : ResourceRef
  pub sni_domains : List Text

-- The metadata and the specification that are set.
pub record VirtualService : Type 0 where
  pub name : Text
  pub namespace : Text
  pub domains : List Text
  pub routes : List Route
  pub ssl_config : Option SslConfig
