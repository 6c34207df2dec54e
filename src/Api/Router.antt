-- ===== src/Api/Router.antt =====
-- The custom resource Router of pkg/apis/rio.cattle.io/v1, router.go.
use rio.Prelude.{Text, ℕ, Bool, Option, List}
use rio.Prelude.Int.{ℤ}

pub record NameValue : Type 0 where
  pub name : Text
  pub value : Text

pub record HeaderOperations : Type 0 where
  pub add : List NameValue
  pub set : List NameValue
  pub remove : List Text

-- `Port` is a uint32.
pub record Destination : Type 0 where
  pub app : Text
  pub version : Text
  pub port : ℕ

-- With the embedded Destination.
pub record WeightedDestination : Type 0 where
  pub destination : Destination
  pub weight : ℤ

pub record Fault : Type 0 where
  pub percentage : ℤ
  pub delay_millis : ℤ
  pub abort_http_status : ℤ

pub record StringMatch : Type 0 where
  pub exact : Text
  pub prefix : Text
  pub regexp : Text

pub record HeaderMatch : Type 0 where
  pub name : Text
  pub value : Option StringMatch

pub record Match : Type 0 where
  pub path : Option StringMatch
  pub methods : List Text
  pub headers : List HeaderMatch

pub record Redirect : Type 0 where
  pub host : Text
  pub path : Text
  pub to_https : Bool

pub record Rewrite : Type 0 where
  pub host : Text
  pub path : Text

pub record Retry : Type 0 where
  pub timeout_seconds : ℤ
  pub attempts : ℤ

pub record RouteSpec : Type 0 where
  pub match : Match
  pub to : List WeightedDestination
  pub redirect : Option Redirect
  pub rewrite : Option Rewrite
  pub retry : Option Retry
  pub headers : Option HeaderOperations
  pub fault : Option Fault
  pub mirror : Option Destination
  pub timeout_seconds : Option ℤ

-- The metadata that the code reads, the routes, and the endpoints of the status.
pub record Router : Type 0 where
  pub name : Text
  pub namespace : Text
  pub routes : List RouteSpec
  pub internal : Bool
  pub endpoints : List Text
