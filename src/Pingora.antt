-- ===== src/Pingora.antt =====
-- crates/proxy-pingora/src/proxy_service.rs: the Pingora data plane. Pingora calls the filters one after
-- the other and forwards the request itself; each filter loads the table anew, here as its argument. A
-- header of Pingora is a parameter: it holds a header map, which only its own operations change.
pub mod Replay
pub mod Phases
pub mod Upstream
pub mod Alike
mod Tests
use tuletorn.Common.{
  ℕ, ◌≡◌, max, Bool, true, false, not, Option, none, some, List, [], ◌∷◌, ◌++◌, if◌then◌else◌,
  filter, is_some,
}
use tuletorn.Common.Bytes.{Bytes, codes, is_empty}
use tuletorn.Filter.{
  RouteFilters, is_noop, rewrites_path, apply_url_rewrite, apply_request_headers,
  apply_response_headers,
}
use tuletorn.Http.{Http, first_value}
use tuletorn.Http.Messages.{Messages, host_of, content_length}
use tuletorn.Proxy.{connection, forwarded_for, forwarded_proto, hop_by_hop, connection_nominated}
use tuletorn.RouteTable.{RouteTable, lookup}
use tuletorn.RouteTable.Builder.{RouteAction}
use tuletorn.RouteTable.Trie.{Matchit}
use tuletorn.Server.{join_target}
use tuletorn.Simd.{Arch, Memchr}
use tuletorn.Target.{select}

pub record ServiceConfig : Type 0 where
  pub listen_addr : Bytes
  pub threads : ℕ
  pub upstream_keepalive_pool_size : ℕ
  pub forwarded_headers : Bool
  pub h2c : Bool
  pub so_reuseport : Bool

-- `cpus` is `num_cpus::get()`.
abbrev pub service_config : (cpus : ℕ) → (listen_addr : Bytes) → ServiceConfig
service_config cpus listen_addr = record {
  listen_addr = listen_addr;
  threads = cpus;
  upstream_keepalive_pool_size = 8192;
  forwarded_headers = true;
  h2c = true;
  so_reuseport = true;
}

-- The worker threads that `run_server` configures.
abbrev pub worker_threads : ServiceConfig → ℕ
worker_threads config = max config.threads 1

pub record ProxyCtx : Type 0 where
  pub matched : Bool

abbrev pub new_ctx : ProxyCtx
new_ctx = record { matched = false }

-- `RequestHeader` and `ResponseHeader` of the crate `pingora-http`: the operations act on the header map
-- as their namesakes of the crate `http` do.
pub record Headed (x : Http) : Type 1 where
  pub Header : Type 0
  pub headers : Header → x.HeaderMap
  pub insert_header : Header → x.HeaderName → x.HeaderValue → Header
  pub append_header : Header → x.HeaderName → x.HeaderValue → Header
  pub remove_header : Header → x.HeaderName → Header
  pub headers-insert :
      (r : Header) (n : x.HeaderName) (v : x.HeaderValue)
      → headers (insert_header r n v) ≡ x.insert (headers r) n v
  pub headers-append :
      (r : Header) (n : x.HeaderName) (v : x.HeaderValue)
      → headers (append_header r n v) ≡ x.append (headers r) n v
  pub headers-remove :
      (r : Header) (n : x.HeaderName) → headers (remove_header r n) ≡ x.remove (headers r) n

-- The URI of a request, which the operations on headers keep.
pub record Requests (x : Http) (u : Messages x) (r : Headed x) : Type 1 where
  pub uri : r.Header → u.Uri
  pub set_uri : r.Header → u.Uri → r.Header
  pub headers-set_uri : (h : r.Header) (v : u.Uri) → r.headers (set_uri h v) ≡ r.headers h

-- What both kinds of headers go through.
module _ (x : Http) (u : Messages x) (r : Headed x) where
  abbrev pub remove_names : List x.HeaderName → r.Header → r.Header
  remove_names [] h = h
  remove_names (n ∷ ns) h = remove_names ns (r.remove_header h n)

  abbrev pub append_values : x.HeaderName → List x.HeaderValue → r.Header → r.Header
  append_values n [] h = h
  append_values n (v ∷ vs) h = append_values n vs (r.append_header h n v)

  -- `values.next()`, and the values behind it.
  abbrev pub put_values : x.HeaderName → List x.HeaderValue → r.Header → r.Header
  put_values n [] h = h
  put_values n (v ∷ vs) h = append_values n vs (r.insert_header h n v)

  abbrev pub put_all : x.HeaderMap → List x.HeaderName → r.Header → r.Header
  put_all staged [] h = h
  put_all staged (n ∷ ns) h = put_all staged ns (put_values n (x.get_all staged n) h)

  abbrev pub contains_key : x.HeaderMap → x.HeaderName → Bool
  contains_key h n = not (is_empty (x.get_all h n))

  -- The staged headers, through the operations of the header.
  unfoldable pub replay : r.Header → (staged : x.HeaderMap) → r.Header
  replay h staged =
      let removed = filter (λ k. not (contains_key staged k)) (u.keys (r.headers h)) in
      put_all staged (u.keys staged) (remove_names removed h)

  unfoldable pub strip_header : r.Header → r.Header
  unfolding connection_nominated
  strip_header h =
      let nominated = connection_nominated x (r.headers h) in
      remove_names nominated (remove_names (hop_by_hop x) (r.remove_header h (connection x)))
