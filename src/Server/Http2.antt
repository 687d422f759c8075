-- ===== src/Server/Http2.antt =====
-- crates/proxy-monoio/src/http2.rs, `handle` and `forward_h1`: one request of an HTTP/2 connection.
-- The runtime opens the HTTP/1.1 connection that a request is sent on; `none` is an error.
use tuletorn.Common.{
  ◌≡◌, refl, ap, ◌∙◌, inl, inr, Bool, false, Option, none, some, [], ◌∷◌, if◌then◌else◌, ◌>>=◌,
  Bool-cases, Option-cases,
}
use tuletorn.Common.Bytes.{Bytes}
use tuletorn.Filter.{RouteFilters, rewrites_path, apply_url_rewrite}
use tuletorn.Http.{Http}
use tuletorn.Http.Messages.{Messages, Parts, Response, host_of}
use tuletorn.Hyper.{upstream_path, prepare}
use tuletorn.Plane.{
  Prepared, no_route, panics, bad_authority, bad_path, bad_uri, sends, request_headers, set_host,
  same_path, status_only, filtered,
}
use tuletorn.RouteTable.{RouteTable, lookup}
use tuletorn.RouteTable.Builder.{RouteAction}
use tuletorn.RouteTable.Trie.{Matchit}
use tuletorn.Server.{join_target}
use tuletorn.Simd.{Arch, Memchr}
use tuletorn.Target.{select}

module _ (x : Http) (u : Messages x) where
  -- `PathAndQuery::from_static("/")`
  abbrev pub root_path : u.PathAndQuery
  root_path = u.static_path (b'/' ∷ [])

  abbrev pub path_or_root : Option u.PathAndQuery → u.PathAndQuery
  path_or_root none = root_path
  path_or_root (some p) = p

  -- A rewritten path that does not parse is replaced by the root.
  unfoldable pub h2_path : RouteFilters x → u.Uri → u.PathAndQuery
  unfolding rewrites_path apply_url_rewrite
  h2_path filters uri =
      if rewrites_path x filters
      then path_or_root
          (u.parse_path (join_target (apply_url_rewrite x filters (u.path uri)) (u.query uri)))
      else same_path x u uri

  module _ (t : Matchit (RouteAction x)) (m : Memchr) (arch : Arch) (forwarded_headers : Bool)
      (peer : Bytes) where
    unfoldable pub h2_prepare : RouteTable t → Parts x u → Prepared x u
    unfolding lookup select h2_path request_headers set_host
    h2_prepare table parts =
        elim (lookup t m arch table (host_of x u parts.uri parts.headers) (u.path parts.uri)) [
          | none ↦ no_route
          | some action ↦ elim (select action.target_group) [
            | none ↦ panics
            | some r ↦ elim (u.parse_authority r.0.address) [
              | none ↦ bad_authority
              | some a ↦ elim (u.from_parts a (h2_path action.filters parts.uri)) [
                | none ↦ bad_uri
                | some uri ↦
                    sends
                      (record {
                        method = parts.method;
                        uri = uri;
                        version = u.http_11;
                        headers =
                            set_host x u a (
                              request_headers x forwarded_headers peer action.filters
                                parts.headers);
                      })
                      action.filters r.0.address
              ]
            ]
          ]
        ]

    -- `TcpStream::connect`, the handshake of Hyper's client, and `send_request`.
    module _ {B C D : Type 0} (empty_body : B) (connect : Bytes → Option C)
        (handshake : C → Option D)
        (send_request : D → Parts x u → B → Option (Response x u B)) where
      -- A fresh connection for each request.
      abbrev pub forward_h1 : (address : Bytes) → Parts x u → B → Option (Response x u B)
      forward_h1 address parts body =
          connect address >>= λ c. handshake c >>= λ sender. send_request sender parts body

      -- `none` is a panic; a path that does not parse does not get here.
      abbrev pub h2_respond : Prepared x u → B → Option (Response x u B)
      h2_respond no_route body = some (status_only x u 404 empty_body)
      h2_respond panics body = none
      h2_respond bad_authority body = some (status_only x u 502 empty_body)
      h2_respond bad_path body = none
      h2_respond bad_uri body = some (status_only x u 500 empty_body)
      h2_respond (sends parts filters address) body = elim (forward_h1 address parts body) [
        | some resp ↦ some (filtered x u filters resp)
        | none ↦ some (status_only x u 502 empty_body)
      ]

      pub h2_handle : RouteTable t → Parts x u → B → Option (Response x u B)
      unfolding h2_prepare
      h2_handle table parts body = h2_respond (h2_prepare table parts) body

  path_lem :
      (filters : RouteFilters x) (uri : u.Uri)
      → h2_path filters uri ≡ path_or_root (upstream_path x u filters uri)
  unfolding h2_path upstream_path
  path_lem filters uri = elim (Bool-cases (rewrites_path x filters)) [
    | inl e ↦ rw (e, h2_path, upstream_path) refl
    | inr e ↦ rw (e, h2_path, upstream_path) refl
  ]

  -- Where the Hyper plane refuses a path, the root is asked for; else nothing differs.
  abbrev pub IsAlike : (hyper h2 : Prepared x u) → Type 0
  IsAlike bad_path h2 =
      (sent : Parts x u) × (filters : RouteFilters x) × (address : Bytes) × (h2
        ≡ sends sent filters address)
      × (u.path_and_query sent.uri ≡ some root_path)
  IsAlike no_route h2 = h2 ≡ no_route
  IsAlike panics h2 = h2 ≡ panics
  IsAlike bad_authority h2 = h2 ≡ bad_authority
  IsAlike bad_uri h2 = h2 ≡ bad_uri
  IsAlike (sends sent filters address) h2 = h2 ≡ sends sent filters address

-- A request of an HTTP/2 connection comes to the same as at a Hyper plane with HTTP/1.1 upstreams: the
-- same refusal, or the same request to the same backend; only where the rewritten path does not parse,
-- which the Hyper plane refuses, this plane sends the request to the root of the backend.
pub h2_prepare-IsAlike :
    (x : Http) (u : Messages x) (t : Matchit (RouteAction x)) (m : Memchr) (arch : Arch)
    (forwarded : Bool) (peer : Bytes) (table : RouteTable t) (parts : Parts x u)
    → IsAlike x u
        (prepare x u t m arch false forwarded peer table parts)
        (h2_prepare x u t m arch forwarded peer table parts)
unfolding h2_prepare prepare
h2_prepare-IsAlike x u t m arch forwarded peer table parts =
    elim (Option-cases
      (lookup t m arch table (host_of x u parts.uri parts.headers) (u.path parts.uri))) [
        | inl e ↦ rw (e, prepare, h2_prepare) refl
        | inr (action, e) ↦ elim (Option-cases (select action.target_group)) [
          | inl f ↦ rw (e, prepare, h2_prepare, f) refl
          | inr (r, f) ↦ elim (Option-cases (u.parse_authority r.0.address)) [
            | inl g ↦ rw (e, prepare, h2_prepare, f, g) refl
            | inr (a, g) ↦ elim (Option-cases (upstream_path x u action.filters parts.uri)) [
              | inl h ↦
                  let (uri, made, auth, path) = u.from_parts_lem a (root_path x u) in
                  let same : h2_path x u action.filters parts.uri ≡ root_path x u =
                    path_lem x u action.filters parts.uri ∙ ap (path_or_root x u) h in
                  rw (e, prepare, h2_prepare, f, g, h, same, made) (_, _, _, refl, path)
              | inr (p, h) ↦
                  let (uri, made, auth, path) = u.from_parts_lem a p in
                  let same : h2_path x u action.filters parts.uri ≡ p =
                    path_lem x u action.filters parts.uri ∙ ap (path_or_root x u) h in
                  rw (e, prepare, h2_prepare, f, g, h, same, made) refl
            ]
          ]
        ]
      ]
