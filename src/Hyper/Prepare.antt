-- ===== src/Hyper/Prepare.antt =====
-- What `handle_request` of the Hyper plane makes of a request.
use tuletorn.Common.{
  ◌≡◌, refl, ap, sym, ◌∙◌, inl, inr, Bool, true, false, Option, none, some, List, [], ◌∷◌,
  if◌then◌else◌, Bool-cases, Option-cases,
}
use tuletorn.Common.Bytes.{Bytes}
use tuletorn.Filter.{RouteFilters, rewrites_path, apply_url_rewrite}
use tuletorn.Http.{Http}
use tuletorn.Http.Messages.{Messages, Parts, host_name, host_of}
use tuletorn.Hyper.{upstream_path, upstream_version, host_header, prepare}
use tuletorn.Plane.{
  Prepared, no_route, panics, bad_authority, bad_path, bad_uri, sends, request_headers, set_host,
}
use tuletorn.Plane.Headers.{request_acts, forwarded_values, request_headers_lem}
use tuletorn.RouteTable.{RouteTable, lookup}
use tuletorn.RouteTable.Builder.{RouteAction}
use tuletorn.RouteTable.Trie.{Matchit}
use tuletorn.Server.{join_target}
use tuletorn.Simd.{Arch, Memchr}
use tuletorn.Target.{TargetGroup, select}
use tuletorn.Target.Weights.{BackendEndpoint}

module _ (x : Http) (u : Messages x) where
  -- The values of a name behind the step that sets or drops `Host`.
  abbrev pub host_values :
      (http2_upstream : Bool) → u.Authority → x.HeaderName → List x.HeaderValue → List x.HeaderValue
  host_values true a n vs = if x.name_eq (host_name x u) n then [] else vs
  host_values false a n vs = elim (x.value_from_str (u.authority_text a)) [
    | none ↦ vs
    | some v ↦ if x.name_eq (host_name x u) n then v ∷ [] else vs
  ]

  host_header_lem :
      (http2_upstream : Bool) (a : u.Authority) (h : x.HeaderMap) (n : x.HeaderName)
      → x.get_all (host_header x u http2_upstream a h) n
        ≡ host_values http2_upstream a n (x.get_all h n)
  unfolding set_host
  host_header_lem true a h n = x.get_all-remove h (host_name x u) n
  host_header_lem false a h n = elim (Option-cases (x.value_from_str (u.authority_text a))) [
    | inl e ↦ rw (e, set_host, host_values) refl
    | inr (v, e) ↦ rw (e, set_host, host_values) (x.get_all-insert h (host_name x u) v n)
  ]

  upstream_path-none :
      (filters : RouteFilters x) (uri : u.Uri)
      → upstream_path x u filters uri ≡ none
      → (rewrites_path x filters ≡ true)
        × (u.parse_path (join_target (apply_url_rewrite x filters (u.path uri)) (u.query uri))
            ≡ none)
  unfolding upstream_path
  upstream_path-none filters uri e = elim (Bool-cases (rewrites_path x filters)) [
    | inl h ↦ (h, rw (h, upstream_path) at e)
    | inr h ↦ absurd (some_none (rw (h, upstream_path) at e))
  ]
    where
      some_none : {P : Type 0} {v : P} → some v ≡ none → ⊥
      some_none e' = cc

  module _ (t : Matchit (RouteAction x)) (m : Memchr) (arch : Arch) (table : RouteTable t)
      (parts : Parts x u) where
    abbrev pub found : Option (RouteAction x)
    found = lookup t m arch table (host_of x u parts.uri parts.headers) (u.path parts.uri)

    abbrev pub Chosen : Type 0
    Chosen =
        (action : RouteAction x) × (r : BackendEndpoint × TargetGroup) × (found ≡ some action)
        × (select action.target_group ≡ some r)

    module _ (http2 forwarded : Bool) (peer : Bytes) where
      abbrev pub IsSent : Parts x u → RouteAction x → u.Authority → Type 0
      IsSent sent action a =
          (sent.method ≡ parts.method)
          × (sent.version ≡ upstream_version x u http2)
          × (u.authority sent.uri ≡ some a)
          × (u.path_and_query sent.uri ≡ upstream_path x u action.filters parts.uri)
          × ((n : x.HeaderName)
              → x.get_all sent.headers n
                ≡ host_values http2 a n (
                    request_acts x n action.filters
                      (forwarded_values x n forwarded peer parts.headers)))

      -- What each outcome says of the request.
      abbrev pub IsPrepared : Prepared x u → Type 0
      IsPrepared no_route = found ≡ none
      IsPrepared panics =
          (action : RouteAction x) × (found ≡ some action) × (select action.target_group ≡ none)
      IsPrepared bad_authority = (c : Chosen) × (u.parse_authority c.1.0.address ≡ none)
      IsPrepared bad_path =
          (c : Chosen) × (rewrites_path x c.0.filters ≡ true)
          × (u.parse_path (
                join_target (apply_url_rewrite x c.0.filters (u.path parts.uri))
                  (u.query parts.uri))
              ≡ none)
      IsPrepared bad_uri = ⊥
      IsPrepared (sends sent filters address) =
          (c : Chosen) × (a : u.Authority) × (filters ≡ c.0.filters)
          × (address ≡ c.1.0.address)
          × (u.parse_authority address ≡ some a)
          × IsSent sent c.0 a

      sent_lem :
          (action : RouteAction x) (a : u.Authority) (p : u.PathAndQuery) (uri : u.Uri)
          → upstream_path x u action.filters parts.uri ≡ some p
          → u.authority uri ≡ some a
          → u.path_and_query uri ≡ some p
          → IsSent
              (record {
                method = parts.method;
                uri = uri;
                version = upstream_version x u http2;
                headers =
                    host_header x u http2 a
                      (request_headers x forwarded peer action.filters parts.headers);
              })
              action
              a
      sent_lem action a p uri path auth same = (
        refl,
        refl,
        auth,
        same ∙ sym path,
        λ n.
            host_header_lem http2 a (request_headers x forwarded peer action.filters parts.headers)
              n
            ∙ ap (host_values http2 a n)
                (request_headers_lem x n forwarded peer action.filters parts.headers),
      )

-- Every outcome of a request before it is sent: without a route; with a route whose group is empty;
-- with a backend whose address is no authority; with a rewritten path that does not parse; and else
-- sent, to the selected backend, with the backend's authority and the path as rewritten in its URI, and
-- for each header name the values that hop-by-hop removal, the forwarding headers, the route's filters
-- and the step for `Host` leave. A URI that cannot be assembled does not occur.
pub prepare-IsPrepared :
    (x : Http) (u : Messages x) (t : Matchit (RouteAction x)) (m : Memchr) (arch : Arch)
    (http2 forwarded : Bool) (peer : Bytes) (table : RouteTable t) (parts : Parts x u)
    → IsPrepared x u t m arch table parts http2 forwarded peer
        (prepare x u t m arch http2 forwarded peer table parts)
unfolding prepare
prepare-IsPrepared x u t m arch http2 forwarded peer table parts =
    elim (Option-cases (found x u t m arch table parts)) [
      | inl e ↦ rw (e, prepare) e
      | inr (action, e) ↦ elim (Option-cases (select action.target_group)) [
        | inl f ↦ rw (e, prepare, f) (action, e, f)
        | inr (r, f) ↦ elim (Option-cases (u.parse_authority r.0.address)) [
          | inl g ↦ rw (e, prepare, f, g) ((action, r, e, f), g)
          | inr (a, g) ↦ elim (Option-cases (upstream_path x u action.filters parts.uri)) [
            | inl h ↦
                rw (e, prepare, f, g, h)
                  (let (rewrites, bad) = upstream_path-none x u action.filters parts.uri h in
                    ((action, r, e, f), rewrites, bad))
            | inr (p, h) ↦
                let (uri, made, auth, path) = u.from_parts_lem a p in
                rw (e, prepare, f, g, h, made)
                  (
                    (action, r, e, f),
                    a,
                    refl,
                    refl,
                    g,
                    sent_lem x u t m arch table parts http2 forwarded peer action a p uri h auth
                        path,
                  )
          ]
        ]
      ]
    ]
