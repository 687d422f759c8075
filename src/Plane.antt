-- ===== src/Plane.antt =====
-- What the data planes do alike to a request on its way to an upstream: crates/proxy-hyper/src/server.rs,
-- `handle_request`, and crates/proxy-monoio/src/http2.rs, `handle`. Bodies stream through untouched, as a
-- value that is passed on.
pub mod Headers
pub mod Model
use tuletorn.Common.{ℕ, Bool, Option, none, some, List, ◌∷◌, [], if◌then◌else◌}
use tuletorn.Common.Bytes.{Bytes, codes}
use tuletorn.Filter.{RouteFilters, apply_request_headers, apply_response_headers}
use tuletorn.Http.{Http}
use tuletorn.Http.Messages.{Messages, Parts, Response, host_name, content_length}
use tuletorn.Proxy.{strip_hop_by_hop, append_forwarded_for, set_forwarded_proto}

-- How far a request comes before it is sent: no route, a group without endpoints (the code indexes an
-- empty list), or an address, a path or a URI that does not parse.
pub data Prepared (x : Http) (u : Messages x) : Type 0 where
  no_route panics bad_authority bad_path bad_uri : Prepared x u
  sends : Parts x u → RouteFilters x → (address : Bytes) → Prepared x u

module _ (x : Http) where
  -- Header hygiene, the forwarding headers, and the filters of the route.
  unfoldable pub request_headers :
      (forwarded_headers : Bool) (peer : Bytes) → RouteFilters x → x.HeaderMap → x.HeaderMap
  unfolding strip_hop_by_hop append_forwarded_for set_forwarded_proto apply_request_headers
  request_headers forwarded_headers peer filters headers =
      let headers = strip_hop_by_hop x headers in
      let headers =
        if forwarded_headers
        then set_forwarded_proto x (append_forwarded_for x headers peer) (codes "http")
        else headers in
      apply_request_headers x filters headers

  unfoldable pub response_headers : RouteFilters x → x.HeaderMap → x.HeaderMap
  unfolding strip_hop_by_hop apply_response_headers
  response_headers filters headers = apply_response_headers x filters (strip_hop_by_hop x headers)

module _ (x : Http) (u : Messages x) where
  -- `if let Ok(value) = HeaderValue::from_str(authority.as_str())`
  unfoldable pub set_host : u.Authority → x.HeaderMap → x.HeaderMap
  set_host a headers = elim (x.value_from_str (u.authority_text a)) [
    | none ↦ headers
    | some value ↦ x.insert headers (host_name x u) value
  ]

  -- `parts.uri.path_and_query().cloned().unwrap_or_else(|| PathAndQuery::from_static("/"))`
  abbrev pub same_path : u.Uri → u.PathAndQuery
  same_path uri = elim (u.path_and_query uri) [ none ↦ u.static_path (b'/' ∷ []) | some p ↦ p ]

  abbrev pub status_only : {B : Type 0} → (status : ℕ) (empty_body : B) → Response x u B
  status_only status empty_body = record {
    status = status;
    headers = x.append u.new_map (content_length x u) (x.value_from_static (codes "0"));
    body = empty_body;
  }

  abbrev pub filtered : {B : Type 0} → RouteFilters x → Response x u B → Response x u B
  filtered filters resp = record {
    status = resp.status;
    headers = response_headers x filters resp.headers;
    body = resp.body;
  }
