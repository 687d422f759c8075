-- ===== src/Pingora/Alike.antt =====
-- The Pingora plane against the Hyper plane: the backend, the headers of a request and of a response.
use tuletorn.Common.{
  ◌≡◌, refl, ap, sym, ◌∙◌, subst, inl, inr, Bool, true, false, none, some, List, Option-cases,
}
use tuletorn.Common.Bytes.{Bytes}
use tuletorn.Filter.{RouteFilters, apply_request_headers, apply_response_headers}
use tuletorn.Http.{Http}
use tuletorn.Http.Messages.{Messages, Parts, host_name}
use tuletorn.Hyper.{prepare}
use tuletorn.Hyper.Prepare.{IsPrepared, prepare-IsPrepared, host_values}
use tuletorn.Pingora.{ProxyCtx, Headed, Requests, strip_header}
use tuletorn.Pingora.Phases.{
  to_backend, apply_request_filters, apply_response_filters, no_filters, lookup_request,
  upstream_peer, upstream_request_filter, response_filter,
}
use tuletorn.Pingora.Replay.{headers-strip_header}
use tuletorn.Pingora.Upstream.{filters_lem, values-upstream}
use tuletorn.Plane.{sends, response_headers}
use tuletorn.Plane.Headers.{request_headers_lem}
use tuletorn.RouteTable.{RouteTable}
use tuletorn.RouteTable.Builder.{RouteAction}
use tuletorn.RouteTable.Trie.{Matchit}
use tuletorn.Simd.{Arch, Memchr}

-- Filters that go through the operations of Pingora's headers leave under every name the values that
-- the same filters leave in a plain header map, for requests and for responses.
pub get_all-apply_filters :
    (x : Http) (u : Messages x) (r : Headed x) (f : RouteFilters x) (h : r.Header)
    (n : x.HeaderName)
    → (x.get_all (r.headers (apply_request_filters x u r f h)) n
        ≡ x.get_all (apply_request_headers x f (r.headers h)) n)
      × (x.get_all (r.headers (apply_response_filters x u r f h)) n
          ≡ x.get_all (apply_response_headers x f (r.headers h)) n)
get_all-apply_filters = filters_lem

module _ (x : Http) (u : Messages x) (r : Headed x) (q : Requests x u r)
    (t : Matchit (RouteAction x)) (m : Memchr) (arch : Arch) where
  abbrev pub filters_for : RouteTable t → r.Header → RouteFilters x
  filters_for table session = elim (lookup_request x u r q t m arch table session) [
    | none ↦ no_filters x u r
    | some a ↦ a.filters
  ]

-- A response that the Pingora plane returns has under every name the values that the Hyper plane's
-- pipeline leaves with the filters of the route that the request has when the response comes, and with
-- no filters where it has none.
pub get_all-response_filter :
    (x : Http) (u : Messages x) (r : Headed x) (q : Requests x u r) (t : Matchit (RouteAction x))
    (m : Memchr) (arch : Arch) (table : RouteTable t) (session h : r.Header) (n : x.HeaderName)
    → x.get_all (r.headers (response_filter x u r q t m arch table session h)) n
      ≡ x.get_all (response_headers x (filters_for x u r q t m arch table session) (r.headers h)) n
unfolding response_filter response_headers
get_all-response_filter x u r q t m arch table session h n =
    let filters = filters_for x u r q t m arch table session in
    (filters_lem x u r filters (strip_header x u r h) n).1
    ∙ ap (λ g. x.get_all (apply_response_headers x filters g) n) (headers-strip_header x u r h)

module _ (x : Http) (u : Messages x) where
  -- The step for `Host` is about no other name.
  host_values_other :
      (http2 : Bool) (a : u.Authority) (n : x.HeaderName) (vs : List x.HeaderValue)
      → x.name_eq (host_name x u) n ≡ false
      → host_values x u http2 a n vs ≡ vs
  host_values_other true a n vs e = rw e refl
  host_values_other false a n vs e = elim (Option-cases (x.value_from_str (u.authority_text a))) [
    | inl f ↦ rw (f, host_values) refl
    | inr (v, f) ↦ rw (f, host_values, e) refl
  ]

-- The request as Hyper holds it.
abbrev pub parts_of :
    (x : Http) (u : Messages x) (r : Headed x)
    → Requests x u r
    → (method : Bytes) → u.Version
    → r.Header
    → Parts x u
parts_of x u r q method version h = record {
  method = method;
  uri = q.uri h;
  version = version;
  headers = r.headers h;
}

-- Where the Hyper plane sends a request, the Pingora plane with the same table selects the same backend
-- and sends, under every name but `Host`, the same values.
pub upstream_request_filter-prepare :
    (x : Http) (u : Messages x) (r : Headed x) (q : Requests x u r) (t : Matchit (RouteAction x))
    (m : Memchr) (arch : Arch) (http2 forwarded : Bool) (peer method : Bytes) (version : u.Version)
    (table : RouteTable t) (h : r.Header) (ctx : ProxyCtx) (sent : Parts x u)
    (filters : RouteFilters x) (address : Bytes)
    → prepare x u t m arch http2 forwarded peer table (parts_of x u r q method version h)
      ≡ sends sent filters address
    → ((upstream_peer x u r q t m arch table h ctx).0 ≡ to_backend address)
      × ((n : x.HeaderName)
          → x.name_eq (host_name x u) n ≡ false
          → x.get_all
              (r.headers (upstream_request_filter x u r q t m arch forwarded (some peer) table h))
              n
            ≡ x.get_all sent.headers n)
unfolding upstream_peer
upstream_request_filter-prepare x u r q t m arch http2 forwarded peer method version table h ctx
      sent filters address e =
    let parts = parts_of x u r q method version h in
    let ((action, s, found, chosen), a, fs, addr, parsed, (meth, ver, auth, path, values)) =
      subst (IsPrepared x u t m arch table parts http2 forwarded peer) e
        (prepare-IsPrepared x u t m arch http2 forwarded peer table parts) in
    (
      rw (found, chosen, upstream_peer) (ap to_backend (sym addr)),
      λ n other.
          values-upstream x u r q t m arch forwarded peer table h action n found
          ∙ request_headers_lem x n forwarded peer action.filters (r.headers h)
          ∙ sym (host_values_other x u http2 a n _ other)
          ∙ sym (values n),
    )
