-- ===== src/Pingora/Phases.antt =====
-- crates/proxy-pingora/src/proxy_service.rs, `impl ProxyHttp for ProxyPingora`: what each phase of a
-- request does, in the order in which Pingora calls them.
use tuletorn.Common.{ℕ, Bool, true, false, Option, none, some, ◌++◌, if◌then◌else◌, is_some, ◌>>=◌}
use tuletorn.Common.Bytes.{Bytes, codes}
use tuletorn.Filter.{
  RouteFilters, is_noop, rewrites_path, apply_url_rewrite, apply_request_headers,
  apply_response_headers,
}
use tuletorn.Http.{Http, first_value}
use tuletorn.Http.Messages.{Messages, host_of, content_length}
use tuletorn.Pingora.{ProxyCtx, Headed, Requests, replay, strip_header}
use tuletorn.Proxy.{forwarded_for, forwarded_proto}
use tuletorn.RouteTable.{RouteTable, lookup}
use tuletorn.RouteTable.Builder.{RouteAction}
use tuletorn.RouteTable.Trie.{Matchit}
use tuletorn.Server.{join_target}
use tuletorn.Simd.{Arch, Memchr}
use tuletorn.Target.{select}

-- The outcome of `upstream_peer`: a backend, the error with a status, or a panic on an empty group.
pub data Peer : Type 0 where
  to_backend : (address : Bytes) → Peer
  http_status : ℕ → Peer
  peer_panics : Peer

module _ (x : Http) (u : Messages x) (r : Headed x) where
  unfoldable pub apply_request_filters : RouteFilters x → r.Header → r.Header
  unfolding is_noop apply_request_headers replay
  apply_request_filters filters h =
      if is_noop x filters
      then h
      else replay x u r h (apply_request_headers x filters (r.headers h))

  unfoldable pub apply_response_filters : RouteFilters x → r.Header → r.Header
  unfolding is_noop apply_response_headers replay
  apply_response_filters filters h =
      if is_noop x filters
      then h
      else replay x u r h (apply_response_headers x filters (r.headers h))

  -- `let _ = upstream_request.insert_header(name, text)`
  abbrev pub insert_text : x.HeaderName → Bytes → r.Header → r.Header
  insert_text n text h = elim (x.value_from_str text) [ none ↦ h | some v ↦ r.insert_header h n v ]

  abbrev pub chain_text : r.Header → (peer : Bytes) → Bytes
  chain_text h peer = elim (first_value (x.get_all (r.headers h) (forwarded_for x))) [
    | none ↦ peer
    | some existing ↦ elim (x.to_str existing) [
      | none ↦ peer
      | some prev ↦ prev ++ (codes ", " ++ peer)
    ]
  ]

  -- `client_addr` is the peer's address, if it has one.
  unfoldable pub add_forwarded : (client_addr : Option Bytes) → r.Header → r.Header
  add_forwarded none h = insert_text (forwarded_proto x) (codes "http") h
  add_forwarded (some peer) h =
      insert_text (forwarded_proto x) (codes "http")
        (insert_text (forwarded_for x) (chain_text h peer) h)

  -- `lb_core::RouteFilters::default()`
  abbrev pub no_filters : RouteFilters x
  no_filters = record { inner = none }

  module _ (q : Requests x u r) (t : Matchit (RouteAction x)) (m : Memchr) (arch : Arch) where
    abbrev pub lookup_request : RouteTable t → r.Header → Option (RouteAction x)
    lookup_request table h =
        lookup t m arch table (host_of x u (q.uri h) (r.headers h)) (u.path (q.uri h))

    -- With `write`, which sends a response header to the client; `none` is an error.
    pub request_filter :
        {S : Type 0}
        → (build : ℕ → r.Header) (write : r.Header → S → Option S) → RouteTable t
        → r.Header
        → S
        → Option (Bool × S)
    request_filter build write table h session =
        if is_some (lookup_request table h)
        then some (false, session)
        else write
            (r.insert_header (build 404) (content_length x u) (x.value_from_static (codes "0")))
            session
          >>= λ session. some (true, session)

    unfoldable pub upstream_peer : RouteTable t → r.Header → ProxyCtx → Peer × ProxyCtx
    unfolding lookup select
    upstream_peer table h ctx = elim (lookup_request table h) [
      | none ↦ (http_status 404, record { matched = false })
      | some action ↦ elim (select action.target_group) [
        | none ↦ (peer_panics, record { matched = true })
        | some s ↦ (to_backend s.0.address, record { matched = true })
      ]
    ]

    -- The rewritten path, if the route rewrites it, and the filters.
    abbrev pub rewrite_and_filters :
        Option (RouteAction x) → (path : Bytes) → Option Bytes × RouteFilters x
    rewrite_and_filters none path = (none, no_filters)
    rewrite_and_filters (some action) path = (
      if rewrites_path x action.filters
          then some (apply_url_rewrite x action.filters path)
          else none,
      action.filters,
    )

    -- A rewritten path that is no URI leaves the URI of the request as it is.
    abbrev pub rewrite_uri : Option Bytes → r.Header → r.Header
    rewrite_uri none h = h
    rewrite_uri (some path) h = elim (u.parse_uri (join_target path (u.query (q.uri h)))) [
      | none ↦ h
      | some uri ↦ q.set_uri h uri
    ]

    -- Hygiene, forwarding headers and filters, behind the rewrite.
    unfoldable pub finish_upstream :
        (forwarded_headers : Bool) (client_addr : Option Bytes)
        → Option Bytes × RouteFilters x
        → r.Header
        → r.Header
    unfolding strip_header add_forwarded apply_request_filters
    finish_upstream forwarded_headers client_addr (rewritten, filters) h =
        let h = strip_header x u r (rewrite_uri rewritten h) in
        let h = if forwarded_headers then add_forwarded client_addr h else h in
        apply_request_filters filters h

    unfoldable pub upstream_request_filter :
        (forwarded_headers : Bool) (client_addr : Option Bytes) → RouteTable t → r.Header → r.Header
    unfolding lookup rewrites_path apply_url_rewrite finish_upstream
    upstream_request_filter forwarded_headers client_addr table h =
        finish_upstream forwarded_headers client_addr
          (rewrite_and_filters (lookup_request table h) (u.path (q.uri h))) h

    -- `session` is the header of the client's request.
    unfoldable pub response_filter : RouteTable t → (session : r.Header) → r.Header → r.Header
    unfolding lookup strip_header apply_response_filters
    response_filter table session h =
        let filters : RouteFilters x = elim (lookup_request table session) [
          | none ↦ no_filters
          | some a ↦ a.filters
        ] in
        apply_response_filters filters (strip_header x u r h)
