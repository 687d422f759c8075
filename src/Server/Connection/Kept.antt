-- ===== src/Server/Connection/Kept.antt =====
-- The states that a connection passes through.
use tuletorn.Common.{
  ℕ, ◌+◌, ◌≡◌, ◌≤◌, ◌<◌, refl, inl, inr, Bool, true, false, not, ◌&&◌, Option, none, some, length,
  arith, Bool-cases, if◌then◌else◌, ltb, drop,
}
use tuletorn.Common.Bytes.{Bytes, codes}
use tuletorn.Http.{Http}
use tuletorn.Http1.{RequestHead, Platform}
use tuletorn.Http1.Write.{write_forward_head}
use tuletorn.Pool.{ConnectionPool}
use tuletorn.RouteTable.Builder.{RouteAction}
use tuletorn.RouteTable.Trie.{Matchit}
use tuletorn.Server.{Stream}
use tuletorn.Server.Buffer.{IsBuffer}
use tuletorn.Server.Connection.{
  Connection, Turn, next, finished, http_2, failed, spent, HeadRead, got, is_http_2, refused,
  hung_up, head_error, head_starved, read_request_head, forward_body, pipelined,
}
use tuletorn.Server.Connection.Heads.{IsHeadRead, read_request_head-IsHeadRead}
use tuletorn.Server.Connection.Serve.{
  Worker, Routed, not_found, panics, goes_to, route, acquire_upstream, refuse_with, keeps_alive,
  after_response, exchange, serve_head, serve_one,
}
use tuletorn.Server.Connection.Keeping.{Keeps, forward_body-Keeps}
use tuletorn.Server.Relay.{Relayed, relayed, broken, closed, out_of_fuel}
use tuletorn.Server.Response.{Answer, answered, no_answer, starved, send, relay_response}

module _ (p : Platform) {S : Type 0} (io : Stream S) (show : ℕ → Bytes) (x : Http)
    (t : Matchit (RouteAction x)) (w : Worker S x t) where
  -- The next round, if there is one, starts with a buffer that lies in its vector, and the count of requests so far.
  abbrev pub IsNext : (served : ℕ) → Turn S → Type 0
  IsNext served (next c) =
      IsBuffer c.buf_len (length c.buf) × (c.served ≡ served) × (served < 100000)
  IsNext served (finished d pool) = Unit
  IsNext served (http_2 buffered d) = Unit
  IsNext served failed = Unit
  IsNext served spent = Unit

  module _ (fuel served : ℕ) (head : RequestHead) (address : Bytes) (buf : Bytes) where
    after_response-IsNext :
        (n : ℕ) (pool : ConnectionPool S) (a : Answer S)
        → length (pipelined head buf) ≤ n
        → IsNext served (after_response p io show x t w served head address buf n pool a)
    after_response-IsNext n pool (answered o u d) fits =
        elim (Bool-cases (keeps_alive served head && o.downstream_reusable)) [
          | inl e ↦ rw e (fits, refl, below head.close_requested o.downstream_reusable e)
          | inr e ↦ rw e tt
        ]
      where
        below : (a b : Bool) → (not a && ltb served 100000 && b) ≡ true → served < 100000
        below true b e = cc
        below false b e = ground arith
    after_response-IsNext n pool no_answer fits = tt
    after_response-IsNext n pool starved fits = tt

    exchange-IsNext :
        (buf_len : ℕ) (target : Bytes) (d u : S) (pool : ConnectionPool S)
        → IsBuffer buf_len (length buf)
        → IsNext served
            (exchange p io show x t w fuel served head address target buf buf_len d u pool)
    unfolding exchange
    exchange-IsNext buf_len target d u pool fits = sent (
        send io
          (write_forward_head p buf head target address
            (if w.forwarded_headers then some w.peer else none))
          u)
      where
        passed :
            (r : Relayed S)
            → Keeps p io head buf r
            → IsNext served (elim r as (λ _. Turn S) [
              | broken ↦ failed
              | closed n d' u' ↦ failed
              | out_of_fuel ↦ spent
              | relayed n d' u' ↦
                  after_response p io show x t w served head address buf n pool
                    (relay_response io p show fuel head.method (keeps_alive served head) u' d')
            ])
        passed broken kept = tt
        passed (closed n d' u') kept = tt
        passed out_of_fuel kept = tt
        passed (relayed n d' u') kept =
            after_response-IsNext n pool
              (relay_response io p show fuel head.method (keeps_alive served head) u' d') kept

        sent :
            (o : Option S)
            → IsNext served (elim o as (λ _. Turn S) [
              | none ↦ failed
              | some u' ↦
                  elim (forward_body p io fuel head.body (drop head.head_len buf) buf_len d u')
                    as (λ _. Turn S) [
                      | broken ↦ failed
                      | closed n d' u'' ↦ failed
                      | out_of_fuel ↦ spent
                      | relayed n d' u'' ↦
                          after_response p io show x t w served head address buf n pool (
                            relay_response io p show fuel head.method
                              (keeps_alive served head)
                              u''
                              d')
                    ]
            ])
        sent none = tt
        sent (some u') =
            passed (forward_body p io fuel head.body (drop head.head_len buf) buf_len d u')
              (forward_body-Keeps p io head buf fuel buf_len d u' fits)

  serve_head-IsNext :
      (fuel served : ℕ) (head : RequestHead) (buf : Bytes) (buf_len : ℕ) (d : S)
      (pool : ConnectionPool S)
      → IsBuffer buf_len (length buf)
      → IsNext served (serve_head p io show x t w fuel served head buf buf_len d pool)
  unfolding serve_head
  serve_head-IsNext fuel served head buf buf_len d pool bounded =
      routed (route p io show x t w served head)
    where
      connected :
          (address target : Bytes) (o : Option S) (pool' : ConnectionPool S)
          → IsNext served (elim o as (λ _. Turn S) [
            | none ↦ finished (refuse_with p io show x t w 502 (codes "Bad Gateway") d) pool'
            | some u ↦
                exchange p io show x t w fuel served head address target buf buf_len d u pool'
          ])
      connected address target none pool' = tt
      connected address target (some u) pool' =
          exchange-IsNext fuel served head address buf buf_len target d u pool' bounded

      routed :
          (r : Routed)
          → IsNext served (elim r as (λ _. Turn S) [
            | not_found ↦ finished (refuse_with p io show x t w 404 (codes "Not Found") d) pool
            | panics ↦ failed
            | goes_to address target ↦
                let (upstream, pool') = acquire_upstream p io show x t w served address pool in
                elim upstream as (λ _. Turn S) [
                  | none ↦ finished (refuse_with p io show x t w 502 (codes "Bad Gateway") d) pool'
                  | some u ↦
                      exchange p io show x t w fuel served head address target buf buf_len d u pool'
                ]
          ])
      routed not_found = tt
      routed panics = tt
      routed (goes_to address target) =
          connected address target (acquire_upstream p io show x t w served address pool).0
            (acquire_upstream p io show x t w served address pool).1

  pub serve_one-IsNext :
      (fuel : ℕ) (c : Connection S)
      → 65537 ≤ fuel
      → IsBuffer c.buf_len (length c.buf)
      → IsNext (c.served + 1) (serve_one p io show x t w fuel c)
  unfolding serve_one
  serve_one-IsNext fuel c enough bounded =
      from (read_request_head p io show fuel c.served c.buf c.buf_len c.downstream) (
        read_request_head-IsHeadRead p io show fuel c.served c.buf c.buf_len c.downstream
          (omega arith) (omega arith) bounded)
    where
      from :
          (r : HeadRead S)
          → IsHeadRead p io show c.buf c.downstream r
          → IsNext (c.served + 1) (elim r as (λ _. Turn S) [
            | got head buf buf_len d ↦
                serve_head p io show x t w fuel (c.served + 1) head buf buf_len d c.pool
            | is_http_2 buffered d ↦ http_2 buffered d
            | refused d ↦ finished d c.pool
            | hung_up d ↦ finished d c.pool
            | head_error ↦ failed
            | head_starved ↦ spent
          ])
      from (got head buf buf_len d) (parses, read, fits) =
          serve_head-IsNext fuel (c.served + 1) head buf buf_len d c.pool fits
      from (is_http_2 buffered d) h = tt
      from (refused d) h = tt
      from (hung_up d) h = tt
      from head_error h = tt
      from head_starved h = tt
