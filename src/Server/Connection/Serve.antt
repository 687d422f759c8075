-- ===== src/Server/Connection/Serve.antt =====
-- crates/proxy-monoio/src/server.rs, `serve_connection` from a complete head on.
use tuletorn.Common.{
  ℕ, zero, suc, ◌+◌, Bool, not, ◌&&◌, Option, none, some, if◌then◌else◌, ltb, drop,
}
use tuletorn.Common.Bytes.{Bytes, codes}
use tuletorn.Filter.{RouteFilters, rewrites_path, apply_url_rewrite}
use tuletorn.Http.{Http}
use tuletorn.Http1.{RequestHead, Platform}
use tuletorn.Http1.Write.{write_forward_head, error_response}
use tuletorn.Pool
use tuletorn.Pool.{ConnectionPool}
use tuletorn.RouteTable.{RouteTable, lookup}
use tuletorn.RouteTable.Builder.{RouteAction}
use tuletorn.RouteTable.Trie.{Matchit}
use tuletorn.Server.{Stream, path_of, split_target, join_target, max_requests_per_connection}
use tuletorn.Server.Connection.{
  got, is_http_2, refused, hung_up, head_error, head_starved, Connection, Turn, next, finished,
  http_2, failed, spent, read_request_head, forward_body, pipelined,
}
use tuletorn.Server.Relay.{relayed, broken, closed, out_of_fuel}
use tuletorn.Server.Response.{Answer, answered, no_answer, starved, send, relay_response}
use tuletorn.Target.{select}

-- What `serve_connection` is given, and what it asks of its surroundings for the request with a number:
-- the table that is current, the two times of the pool, and `TcpStream::connect`.
pub record Worker (S : Type 0) (x : Http) (t : Matchit (RouteAction x)) : Type 0 where
  pub peer : Bytes
  pub forwarded_headers : Bool
  pub tables : ℕ → RouteTable t
  pub taken_at : ℕ → ℕ
  pub put_at : ℕ → ℕ
  pub connect : ℕ → Bytes → Option S

-- Where a request goes.
pub data Routed : Type 0 where
  not_found : Routed
  -- A group without endpoints: the code indexes an empty list.
  panics : Routed
  goes_to : (upstream_addr forward_target : Bytes) → Routed

abbrev pub forward_target : (p : Platform) (x : Http) → RouteFilters x → Bytes → Bytes
forward_target p x filters target =
    if rewrites_path x filters
    then join_target (apply_url_rewrite x filters (split_target p.bytes target).0)
        (split_target p.bytes target).1
    else target

abbrev pub keeps_alive : (served : ℕ) → RequestHead → Bool
keeps_alive served head = not head.close_requested && ltb served max_requests_per_connection

module _ (p : Platform) {S : Type 0} (io : Stream S) (show : ℕ → Bytes) (x : Http)
    (t : Matchit (RouteAction x)) (w : Worker S x t) where
  unfoldable pub route : (served : ℕ) → RequestHead → Routed
  unfolding lookup path_of split_target select rewrites_path apply_url_rewrite
  route served head =
      elim (lookup t p.bytes p.arch (w.tables served) head.host (path_of p.bytes head.target)) [
        | none ↦ not_found
        | some action ↦ elim (select action.target_group) [
          | none ↦ panics
          | some r ↦ goes_to r.0.address (forward_target p x action.filters head.target)
        ]
      ]

  unfoldable pub acquire_upstream :
      (served : ℕ) → Bytes → ConnectionPool S → Option S × ConnectionPool S
  unfolding Pool.take
  acquire_upstream served address pool =
      let (taken, pool') = Pool.take (w.taken_at served) address pool in
      elim taken [ none ↦ (w.connect served address, pool') | some s ↦ (some s, pool') ]

  -- `let _ = downstream.write_all(error_response(..))`
  abbrev pub refuse_with : (status : ℕ) (reason : Bytes) → S → S
  refuse_with status reason s = (io.write_all (error_response show status reason) s).1

  -- Once the response was relayed, with the vector that the relay of the body gave back.
  abbrev pub after_response :
      (served : ℕ)
      → RequestHead
      → (address : Bytes) → (buf : Bytes) (buf_len : ℕ) → ConnectionPool S
      → Answer S
      → Turn S
  after_response served head address buf buf_len pool (answered o u d) =
      let pool' = if o.upstream_reusable then Pool.put (w.put_at served) address u pool else pool in
      if keeps_alive served head && o.downstream_reusable
      then next (record {
        buf = pipelined head buf;
        buf_len = buf_len;
        served = served;
        downstream = d;
        pool = pool';
      })
      else finished d pool'
  after_response served head address buf buf_len pool no_answer = failed
  after_response served head address buf buf_len pool starved = spent

  -- From the write of the head to the upstream on.
  unfoldable pub exchange :
      (fuel served : ℕ)
      → RequestHead
      → (address target : Bytes) → (buf : Bytes) (buf_len : ℕ) → (downstream upstream : S)
      → ConnectionPool S
      → Turn S
  unfolding forward_body relay_response send write_forward_head Pool.put
  exchange fuel served head address target buf buf_len d u pool =
      elim (send io
        (write_forward_head p buf head target address
          (if w.forwarded_headers then some w.peer else none))
        u) [
          | none ↦ failed
          | some u' ↦
              elim (forward_body p io fuel head.body (drop head.head_len buf) buf_len d u') [
                | broken ↦ failed
                | closed n d' u'' ↦ failed
                | out_of_fuel ↦ spent
                | relayed n d' u'' ↦
                    after_response served head address buf n pool
                      (relay_response io p show fuel head.method (keeps_alive served head) u'' d')
              ]
        ]

  -- From a complete head on; `served` counts it.
  unfoldable pub serve_head :
      (fuel served : ℕ) → RequestHead → (buf : Bytes) (buf_len : ℕ) → S → ConnectionPool S → Turn S
  unfolding route acquire_upstream exchange
  serve_head fuel served head buf buf_len d pool = elim (route served head) [
    | not_found ↦ finished (refuse_with 404 (codes "Not Found") d) pool
    | panics ↦ failed
    | goes_to address target ↦
        let (upstream, pool') = acquire_upstream served address pool in
        elim upstream [
          | none ↦ finished (refuse_with 502 (codes "Bad Gateway") d) pool'
          | some u ↦ exchange fuel served head address target buf buf_len d u pool'
        ]
  ]

  -- One round of the outer loop.
  unfoldable pub serve_one : (fuel : ℕ) → Connection S → Turn S
  unfolding read_request_head serve_head
  serve_one fuel c = elim (read_request_head p io show fuel c.served c.buf c.buf_len c.downstream) [
    | got head buf buf_len d ↦ serve_head fuel (c.served + 1) head buf buf_len d c.pool
    | is_http_2 buffered d ↦ http_2 buffered d
    | refused d ↦ finished d c.pool
    | hung_up d ↦ finished d c.pool
    | head_error ↦ failed
    | head_starved ↦ spent
  ]

  -- The outer loop: `fuel` for the rounds of the loops in it, `rounds` for its own.
  unfoldable pub serve_connection : (rounds fuel : ℕ) → Connection S → Turn S
  unfolding serve_one
  serve_connection zero fuel c = spent
  serve_connection (suc rounds) fuel c = elim (serve_one fuel c) [
    | next c' ↦ serve_connection rounds fuel c'
    | finished d pool ↦ finished d pool
    | http_2 buffered d ↦ http_2 buffered d
    | failed ↦ failed
    | spent ↦ spent
  ]
