-- ===== src/Server/Connection/Tests.antt =====
-- A connection that serves a request, and the theorem about the states that it reaches.
use tuletorn.Common.{◌≡◌, refl, true, none, some, [], ◌∷◌, ◌++◌, arith}
use tuletorn.Common.Bytes.{
  Bytes, codes, bytes_eq, split, strip_suffix, strip_prefix, to_ascii_lowercase,
}
use tuletorn.Common.Bytes.Text.{
  find_sub, parse_digits, parse_u64, trim_ascii, trim_ascii_start, trim_ascii_end, trim,
  eq_ignore_case,
}
use tuletorn.Common.Map.{get, insert}
use tuletorn.Filter.{rewrites_path}
use tuletorn.Http.Model.{model}
use tuletorn.Http1.Model.{plain, read_head, raw_request, raw_response, header_of}
use tuletorn.Http1.Parse.{
  ends_chunked, disposition, is_bodyless, response_body, scan_shared, scan_request_header,
  scan_request, scan_response, finish_request, read_request, parse_request, read_response,
  parse_response,
}
use tuletorn.Http1.Write.{
  strip_cr, split_header_lines, eq_ci, is_hop_by_hop, connection_nominated, headers_start, fate,
  copy_lines, write_forward_head, returns, write_return_head,
}
use tuletorn.Pool
use tuletorn.RouteTable.{RouteTable, lookup}
use tuletorn.RouteTable.Builder.{RouteAction}
use tuletorn.RouteTable.Model.{trie}
use tuletorn.Server.{path_of, split_target, grow_for_read, body_prefix_len}
use tuletorn.Server.Connection.{
  Connection, next, decide, read_request_head, forward_body, pipelined,
}
use tuletorn.Server.Connection.Reached.{
  here, after, rounds, IsServing, reached-IsServing, IsLast, serve_connection-IsLast,
}
use tuletorn.Server.Connection.Serve.{
  Worker, route, acquire_upstream, exchange, serve_head, serve_one, serve_connection,
}
use tuletorn.Server.Model.{Pipe, pipe}
use tuletorn.Server.Preface.{detect_h2}
use tuletorn.Server.Relay.{relay_exact}
use tuletorn.Server.Response.{
  fill, send, relay_fixed, relay_body, read_response_head, answer_with, relay_response,
}
use tuletorn.Simd.{position, find_byte, eq_ignore_ascii_case}
use tuletorn.Target.{select, single}

abbrev line : Bytes → Bytes
line s = s ++ 13 ∷ 10 ∷ []

abbrev action : RouteAction model
action = record {
  target_group = record { inner = single (record { address = codes "up:80"; weight = 1 }) };
  filters = record { inner = none };
  route_name = codes "all";
}

abbrev table : RouteTable (trie (RouteAction model))
table = record {
  exact_hosts = [];
  wildcard_hosts = [];
  default_router = (codes "/", action) ∷ [];
  route_count = 1;
}

abbrev upstream : Pipe
upstream = record {
  incoming =
      line (codes "HTTP/1.1 200 OK")
      ++ (line (codes "Content-Length: 2") ++ (line [] ++ codes "ok"));
  outgoing = [];
}

abbrev worker : Worker Pipe model (trie (RouteAction model))
worker = record {
  peer = codes "1.1.1.1";
  forwarded_headers = true;
  tables = λ n. table;
  taken_at = λ n. 0;
  put_at = λ n. 0;
  connect = λ n a. some upstream;
}

abbrev accepted : Connection Pipe
accepted = record {
  buf = [];
  buf_len = 0;
  served = 0;
  downstream = record { incoming = line (codes "GET / HTTP/1.1") ++ line []; outgoing = [] };
  pool = [];
}

abbrev served_once : Connection Pipe
served_once = record {
  buf = [];
  buf_len = 4096;
  served = 1;
  downstream = record {
    incoming = [];
    outgoing =
        line (codes "HTTP/1.1 200 OK")
        ++ (line (codes "Content-Length: 2")
            ++ (line (codes "Connection: keep-alive") ++ (line [] ++ codes "ok")));
  };
  pool =
      (
        codes "up:80",
        record {
          stream = record {
            incoming = [];
            outgoing =
                line (codes "GET / HTTP/1.1")
                ++ (line (codes "Host: up:80")
                    ++ (line (codes "X-Forwarded-For: 1.1.1.1")
                        ++ (line (codes "X-Forwarded-Proto: http") ++ line [])));
          };
          parked_at = 0;
        }
            ∷ [],
      )
      ∷ [];
}

served :
    serve_one plain pipe (λ n. []) model (trie (RouteAction model)) worker 65537 accepted
    ≡ next served_once
unfolding serve_one read_request_head decide detect_h2 fill grow_for_read serve_head route
    acquire_upstream exchange forward_body pipelined body_prefix_len relay_response
    read_response_head answer_with relay_body relay_fixed send path_of split_target select lookup
    Pool.take Pool.put get insert write_forward_head write_return_head copy_lines fate returns
    headers_start connection_nominated is_hop_by_hop eq_ci split_header_lines strip_cr find_byte
    eq_ignore_ascii_case rewrites_path parse_response read_response scan_response response_body
    is_bodyless parse_request read_request finish_request scan_request scan_request_header
    scan_shared ends_chunked disposition trim eq_ignore_case bytes_eq to_ascii_lowercase split
    strip_suffix strip_prefix find_sub parse_digits parse_u64 read_head raw_request raw_response
    header_of position trim_ascii trim_ascii_start trim_ascii_end relay_exact
served = refl

reached-IsServing_example :
    IsServing plain pipe
      (λ n. [])
      model
      (trie (RouteAction model))
      worker
      65537
      served_once
      (rounds plain pipe
        (λ n. [])
        model
        (trie (RouteAction model))
        worker
        65537
        accepted
        served_once
        (after accepted served_once here served))
reached-IsServing_example =
    reached-IsServing plain pipe (λ n. []) model (trie (RouteAction model)) worker 65537 accepted
      served_once (omega arith) (refl, refl, refl) (after accepted served_once here served)

serve_connection-IsLast_example :
    IsLast plain pipe
      (λ n. [])
      model
      (trie (RouteAction model))
      worker
      65537
      accepted
      (serve_connection plain pipe
        (λ n. [])
        model
        (trie (RouteAction model))
        worker
        100000
        65537
        accepted)
serve_connection-IsLast_example =
    serve_connection-IsLast plain pipe (λ n. []) model (trie (RouteAction model)) worker 65537
      accepted (omega arith) (refl, refl, refl)
