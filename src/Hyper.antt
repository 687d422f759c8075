-- ===== src/Hyper.antt =====
-- crates/proxy-hyper/src/server.rs and client.rs: the Hyper data plane. The sockets, the connections and
-- the pooled client are Hyper's; `forward` is the client's answer to a request, `none` for an error. The
-- table is the one that is loaded.

pub mod Prepare
pub mod Tests
use tuletorn.Common.{
  ℕ, ◌*◌, max, Bool, true, false, Option, none, some, List, [], ◌∷◌, if◌then◌else◌,
}
use tuletorn.Common.Bytes.{Bytes, codes}
use tuletorn.Filter.{RouteFilters, rewrites_path, apply_url_rewrite}
use tuletorn.Http.{Http}
use tuletorn.Http.Messages.{
  Messages, Parts, Response, host_name, host_of, content_length, content_type,
}
use tuletorn.Plane.{
  Prepared, no_route, panics, bad_authority, bad_path, bad_uri, sends, request_headers, set_host,
  same_path, status_only, filtered,
}
use tuletorn.RouteTable.{RouteTable, lookup}
use tuletorn.RouteTable.Builder.{RouteAction}
use tuletorn.RouteTable.Trie.{Matchit}
use tuletorn.Server.{join_target}
use tuletorn.Simd.{Arch, Memchr}
use tuletorn.Target.{select}

pub record ServerConfig : Type 0 where
  pub listen_addr : Bytes
  pub workers : ℕ
  pub forwarded_headers : Bool
  pub h1_max_buf_size : ℕ
  pub h2_stream_window : ℕ
  pub h2_connection_window : ℕ

-- `cpus` is `num_cpus::get()`.
abbrev pub server_config : (cpus : ℕ) → (listen_addr : Bytes) → ServerConfig
server_config cpus listen_addr = record {
  listen_addr = listen_addr;
  workers = cpus;
  forwarded_headers = true;
  h1_max_buf_size = 64 * 1024;
  h2_stream_window = 1024 * 1024;
  h2_connection_window = 4 * 1024 * 1024;
}

-- The accept loops that `run` starts.
abbrev pub accept_loops : ServerConfig → ℕ
accept_loops config = max config.workers 1

-- Durations are in seconds.
pub record ClientConfig : Type 0 where
  pub pool_max_idle_per_host : ℕ
  pub pool_idle_timeout : ℕ
  pub connect_timeout : ℕ
  pub http2_upstream : Bool

abbrev pub client_config : ClientConfig
client_config = record {
  pool_max_idle_per_host = 8192;
  pool_idle_timeout = 90;
  connect_timeout = 5;
  http2_upstream = false;
}

module _ (x : Http) (u : Messages x) where
  -- The path and query for the upstream, or `none` where the rewritten one does not parse.
  unfoldable pub upstream_path : RouteFilters x → u.Uri → Option u.PathAndQuery
  unfolding rewrites_path apply_url_rewrite
  upstream_path filters uri =
      if rewrites_path x filters
      then u.parse_path (join_target (apply_url_rewrite x filters (u.path uri)) (u.query uri))
      else some (same_path x u uri)

  abbrev pub upstream_version : (http2_upstream : Bool) → u.Version
  upstream_version http2_upstream = if http2_upstream then u.http_2 else u.http_11

  abbrev pub host_header : (http2_upstream : Bool) → u.Authority → x.HeaderMap → x.HeaderMap
  host_header true a headers = x.remove headers (host_name x u)
  host_header false a headers = set_host x u a headers

  abbrev pub not_found : {B : Type 0} → (empty_body : B) → Response x u B
  not_found empty_body = record {
    status = 404;
    headers =
        x.append (x.append u.new_map (content_type x u) (x.value_from_static (codes "text/plain")))
          (content_length x u) (x.value_from_static (codes "0"));
    body = empty_body;
  }

  module _ (t : Matchit (RouteAction x)) (m : Memchr) (arch : Arch)
      (http2_upstream forwarded_headers : Bool) (peer : Bytes) where
    -- The request as it goes upstream: steps 1 to 4.
    unfoldable pub prepare : RouteTable t → Parts x u → Prepared x u
    unfolding lookup select upstream_path request_headers set_host
    prepare table parts =
        elim (lookup t m arch table (host_of x u parts.uri parts.headers) (u.path parts.uri)) [
          | none ↦ no_route
          | some action ↦ elim (select action.target_group) [
            | none ↦ panics
            | some r ↦ elim (u.parse_authority r.0.address) [
              | none ↦ bad_authority
              | some a ↦ elim (upstream_path action.filters parts.uri) [
                | none ↦ bad_path
                | some p ↦ elim (u.from_parts a p) [
                  | none ↦ bad_uri
                  | some uri ↦
                      sends
                        (record {
                          method = parts.method;
                          uri = uri;
                          version = upstream_version http2_upstream;
                          headers = host_header http2_upstream a (
                              request_headers x forwarded_headers peer action.filters
                                parts.headers);
                        })
                        action.filters r.0.address
                ]
              ]
            ]
          ]
        ]

    module _ {B : Type 0} (empty_body : B) (forward : Parts x u → B → Option (Response x u B)) where
      -- Step 5; `none` is a panic.
      abbrev pub respond : Prepared x u → B → Option (Response x u B)
      respond no_route body = some (not_found empty_body)
      respond panics body = none
      respond bad_authority body = some (status_only x u 502 empty_body)
      respond bad_path body = some (status_only x u 500 empty_body)
      respond bad_uri body = some (status_only x u 500 empty_body)
      respond (sends parts filters address) body = elim (forward parts body) [
        | some resp ↦ some (filtered x u filters resp)
        | none ↦ some (status_only x u 502 empty_body)
      ]

      pub handle_request : RouteTable t → Parts x u → B → Option (Response x u B)
      unfolding prepare
      handle_request table parts body = respond (prepare table parts) body
