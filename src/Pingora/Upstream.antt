-- ===== src/Pingora/Upstream.antt =====
-- The headers that the Pingora plane sends, against the pipelines that the other planes apply.
use tuletorn.Common.{
  ◌≡◌, refl, ap, sym, ◌∙◌, inl, inr, Bool, true, false, Option, none, some, ◌++◌, All, append_assoc,
  Option-cases, arith,
}
use tuletorn.Common.Bytes.{Bytes, codes}
use tuletorn.Filter.{RouteFilters, apply_request_headers, apply_response_headers, is_noop}
use tuletorn.Http.{Http, IsVisible, first_value}
use tuletorn.Http.Messages.{Messages}
use tuletorn.Pingora.{Headed, Requests, replay, strip_header}
use tuletorn.Pingora.Phases.{
  apply_request_filters, apply_response_filters, insert_text, chain_text, add_forwarded,
  lookup_request, rewrite_and_filters, rewrite_uri, finish_upstream, upstream_request_filter,
}
use tuletorn.Pingora.Replay.{headers-strip_header, values-replay}
use tuletorn.Plane.{request_headers}
use tuletorn.Proxy.{
  forwarded_for, forwarded_proto, existing_chain, strip_hop_by_hop, append_forwarded_for,
  set_forwarded_proto,
}
use tuletorn.RouteTable.{RouteTable}
use tuletorn.Server.{join_target}
use tuletorn.RouteTable.Builder.{RouteAction}
use tuletorn.RouteTable.Trie.{Matchit}
use tuletorn.Simd.{Arch, Memchr}

module _ (x : Http) (u : Messages x) (r : Headed x) where
  pub filters_lem :
      (f : RouteFilters x) (h : r.Header) (n : x.HeaderName)
      → (x.get_all (r.headers (apply_request_filters x u r f h)) n
          ≡ x.get_all (apply_request_headers x f (r.headers h)) n)
        × (x.get_all (r.headers (apply_response_filters x u r f h)) n
            ≡ x.get_all (apply_response_headers x f (r.headers h)) n)
  unfolding apply_request_filters apply_response_filters is_noop apply_request_headers
      apply_response_headers replay
  filters_lem f h n = elim (Option-cases f.inner) [
    | inl e ↦ rw (e, apply_request_filters, apply_response_filters) (refl, refl)
    | inr (p, e) ↦
        rw (e, apply_request_filters, apply_response_filters)
          (values-replay x u r n h _, values-replay x u r n h _)
  ]

  insert_text_lem :
      (n : x.HeaderName) (text : Bytes) (h : r.Header)
      → r.headers (insert_text x u r n text h)
        ≡ (elim (x.value_from_str text) as (λ _. x.HeaderMap) [
          | none ↦ r.headers h
          | some v ↦ x.insert (r.headers h) n v
        ])
  insert_text_lem n text h = elim (Option-cases (x.value_from_str text)) [
    | inl e ↦ rw (e, insert_text) refl
    | inr (v, e) ↦ rw (e, insert_text) (r.headers-insert h n v)
  ]

  chain_text_lem :
      (h : r.Header) (peer : Bytes)
      → chain_text x u r h peer ≡ existing_chain x (r.headers h) ++ peer
  chain_text_lem h peer =
      elim (Option-cases (first_value (x.get_all (r.headers h) (forwarded_for x)))) [
        | inl e ↦ rw (e, chain_text, existing_chain) refl
        | inr (existing, e) ↦ elim (Option-cases (x.to_str existing)) [
          | inl f ↦ rw (e, chain_text, existing_chain, f) refl
          | inr (prev, f) ↦
              rw (e, chain_text, existing_chain, f) (sym (append_assoc prev (codes ", ") peer))
        ]
      ]

  inserted :
      (h : r.Header) (peer : Bytes)
      → r.headers (insert_text x u r (forwarded_for x) (chain_text x u r h peer) h)
        ≡ append_forwarded_for x (r.headers h) peer
  unfolding append_forwarded_for
  inserted h peer =
      insert_text_lem (forwarded_for x) (chain_text x u r h peer) h
      ∙ rw (chain_text_lem h peer) refl

  headers-add_forwarded :
      (h : r.Header) (peer : Bytes)
      → r.headers (add_forwarded x u r (some peer) h)
        ≡ set_forwarded_proto x (append_forwarded_for x (r.headers h) peer) (codes "http")
  unfolding add_forwarded set_forwarded_proto append_forwarded_for
  headers-add_forwarded h peer =
      let visible : All IsVisible (codes "http") = (
        (omega arith, omega arith),
        (
          (omega arith, omega arith),
          ((omega arith, omega arith), ((omega arith, omega arith), tt)),
        ),
      ) in
      insert_text_lem (forwarded_proto x) (codes "http")
        (insert_text x u r (forwarded_for x) (chain_text x u r h peer) h)
      ∙ rw (u.from_static_lem (codes "http") visible) (
          ap (λ g. x.insert g (forwarded_proto x) (x.value_from_static (codes "http")))
            (inserted h peer))

  module _ (q : Requests x u r) where
    headers-rewrite_uri :
        (t : Matchit (RouteAction x)) (m : Memchr) (arch : Arch) (path : Option Bytes)
        (h : r.Header)
        → r.headers (rewrite_uri x u r q t m arch path h) ≡ r.headers h
    headers-rewrite_uri t m arch none h = refl
    headers-rewrite_uri t m arch (some path) h =
        elim (Option-cases (u.parse_uri (join_target path (u.query (q.uri h))))) [
          | inl e ↦ rw (e, rewrite_uri) refl
          | inr (uri, e) ↦ rw (e, rewrite_uri) (q.headers-set_uri h uri)
        ]

    headers-stripped :
        (t : Matchit (RouteAction x)) (m : Memchr) (arch : Arch) (path : Option Bytes)
        (h : r.Header)
        → r.headers (strip_header x u r (rewrite_uri x u r q t m arch path h))
          ≡ strip_hop_by_hop x (r.headers h)
    headers-stripped t m arch path h =
        headers-strip_header x u r (rewrite_uri x u r q t m arch path h)
        ∙ ap (strip_hop_by_hop x) (headers-rewrite_uri t m arch path h)

    finish_upstream_lem :
        (t : Matchit (RouteAction x)) (m : Memchr) (arch : Arch) (forwarded : Bool) (peer : Bytes)
        (path : Option Bytes) (filters : RouteFilters x) (h : r.Header) (n : x.HeaderName)
        → x.get_all
            (r.headers (finish_upstream x u r q t m arch forwarded (some peer) (path, filters) h))
            n
          ≡ x.get_all (request_headers x forwarded peer filters (r.headers h)) n
    unfolding finish_upstream request_headers
    finish_upstream_lem t m arch true peer path filters h n =
        let k = strip_header x u r (rewrite_uri x u r q t m arch path h) in
        (filters_lem filters (add_forwarded x u r (some peer) k) n).0
        ∙ ap (λ g. x.get_all (apply_request_headers x filters g) n)
            (headers-add_forwarded k peer
              ∙ ap (λ g. set_forwarded_proto x (append_forwarded_for x g peer) (codes "http"))
                  (headers-stripped t m arch path h))
    finish_upstream_lem t m arch false peer path filters h n =
        (filters_lem filters (strip_header x u r (rewrite_uri x u r q t m arch path h)) n).0
        ∙ ap (λ g. x.get_all (apply_request_headers x filters g) n)
            (headers-stripped t m arch path h)

    pub values-upstream :
        (t : Matchit (RouteAction x)) (m : Memchr) (arch : Arch) (forwarded : Bool) (peer : Bytes)
        (table : RouteTable t) (h : r.Header) (action : RouteAction x) (n : x.HeaderName)
        → lookup_request x u r q t m arch table h ≡ some action
        → x.get_all
            (r.headers (upstream_request_filter x u r q t m arch forwarded (some peer) table h))
            n
          ≡ x.get_all (request_headers x forwarded peer action.filters (r.headers h)) n
    unfolding upstream_request_filter
    values-upstream t m arch forwarded peer table h action n found =
        rw (found, upstream_request_filter, rewrite_and_filters)
          (finish_upstream_lem t m arch forwarded peer _ action.filters h n)
