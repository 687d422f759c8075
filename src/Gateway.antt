-- ===== src/Gateway.antt =====
-- crates/core/src/gateway.rs: from HTTPRoutes and EndpointSlices to a route table. These are the wire
-- types, as far as the program reads them; parsing them is a library's. An `i32` is an integer.
pub mod Resolve
pub mod Filters
pub mod Compile
pub mod Watch
pub mod Rebuild
pub mod Published
pub mod Once
mod Tests
use tuletorn.Common.{ℕ, Option, List}
use tuletorn.Common.Bytes.{Bytes}
use tuletorn.Common.Int.{ℤ}

pub record ControllerConfig : Type 0 where
  pub gateway_name : Option Bytes
  pub namespace : Option Bytes

pub record ParentRef : Type 0 where
  pub name : Bytes
  pub namespace : Option Bytes

pub record HttpPathMatch : Type 0 where
  pub match_type : Option Bytes
  pub value : Option Bytes

pub record HttpRouteMatch : Type 0 where
  pub path : Option HttpPathMatch

pub record BackendRef : Type 0 where
  pub name : Bytes
  pub namespace : Option Bytes
  pub port : Option ℤ
  pub weight : Option ℤ

pub record NameValue : Type 0 where
  pub name : Bytes
  pub value : Bytes

pub record HeaderFilter : Type 0 where
  pub set : List NameValue
  pub add : List NameValue
  pub remove : List Bytes

pub record UrlRewritePath : Type 0 where
  pub path_type : Bytes
  pub replace_prefix_match : Option Bytes
  pub replace_full_path : Option Bytes

pub record UrlRewriteFilter : Type 0 where
  pub path : Option UrlRewritePath

pub record HttpRouteFilter : Type 0 where
  pub filter_type : Bytes
  pub request_header_modifier : Option HeaderFilter
  pub response_header_modifier : Option HeaderFilter
  pub url_rewrite : Option UrlRewriteFilter

pub record HttpRouteRule : Type 0 where
  pub matches : List HttpRouteMatch
  pub backend_refs : List BackendRef
  pub filters : List HttpRouteFilter

pub record HttpRouteSpec : Type 0 where
  pub parent_refs : List ParentRef
  pub hostnames : List Bytes
  pub rules : List HttpRouteRule

pub record StoredRoute : Type 0 where
  pub namespace : Bytes
  pub name : Bytes
  pub spec : HttpRouteSpec

pub record ReadyEndpoint : Type 0 where
  pub address : Bytes
  pub port : ℤ

-- `(namespace, name)`
abbrev pub ServiceKey : Type 0
ServiceKey = Bytes × Bytes

pub record ClusterState : Type 0 where
  pub routes : List (ServiceKey × StoredRoute)
  pub endpoints : List (ServiceKey × List ReadyEndpoint)
