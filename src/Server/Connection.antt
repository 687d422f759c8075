-- ===== src/Server/Connection.antt =====
-- crates/proxy-monoio/src/server.rs, `serve_connection`. The other connections of the worker share its
-- pool; a run of this one has it to itself.
pub mod Serve
pub mod Heads
pub mod Pipelined
pub mod Keeping
pub mod Kept
pub mod Reached
mod Tests
use tuletorn.Common.{
  min, ℕ, zero, suc, ◌+◌, ◌-◌, Bool, true, false, not, ◌&&◌, ◌||◌, ◌==◌, Option, none, some, [],
  ◌++◌, if◌then◌else◌, ltb, leb, length, drop, ◌>>=◌,
}
use tuletorn.Common.Bytes.{Bytes, codes, is_empty}
use tuletorn.Filter.{RouteFilters, rewrites_path, apply_url_rewrite}
use tuletorn.Http.{Http}
use tuletorn.Http1.{
  BodyLength, fixed, chunked, until_close, empty, RequestHead, Parsed, complete, partial, invalid,
  Platform, max_head_size,
}
use tuletorn.Http1.Parse.{parse_request}
use tuletorn.Http1.Write.{write_forward_head, error_response}
use tuletorn.Pool
use tuletorn.Pool.{ConnectionPool}
use tuletorn.RouteTable.{RouteTable, lookup}
use tuletorn.RouteTable.Builder.{RouteAction}
use tuletorn.RouteTable.Trie.{Matchit}
use tuletorn.Server.{
  Stream, path_of, split_target, join_target, body_prefix_len, max_requests_per_connection,
}
use tuletorn.Server.Preface.{detect_h2}
use tuletorn.Server.Relay.{Relayed, relayed, broken, closed, out_of_fuel, widened}
use tuletorn.Server.Response.{
  RelayOutcome, Filled, more_bytes, at_end, read_error, Answer, answered, no_answer, starved, fill,
  send, relay_fixed, relay_all_chunked, relay_response,
}
use tuletorn.Target.{select}

-- What the loop that reads a head does with the filled part of the buffer.
pub data Decision : Type 0 where
  read_more upgrade : Decision
  accept : RequestHead → Decision
  refuse : (status : ℕ) (reason : Bytes) → Decision

pub data HeadRead (S : Type 0) : Type 0 where
  got : RequestHead → (buf : Bytes) (buf_len : ℕ) → S → HeadRead S
  is_http_2 : (buffered : Bytes) → S → HeadRead S
  refused : S → HeadRead S
  hung_up : S → HeadRead S
  head_error : HeadRead S
  head_starved : HeadRead S

-- The locals of `serve_connection`, and the worker's pool.
pub record Connection (S : Type 0) : Type 0 where
  pub buf : Bytes
  pub buf_len : ℕ
  pub served : ℕ
  pub downstream : S
  pub pool : ConnectionPool S

-- How a round ends: with the next one, with `Ok(())` and what was written to the client, in the HTTP/2
-- server, with an error, or in a loop that ran out of rounds.
pub data Turn (S : Type 0) : Type 0 where
  next : Connection S → Turn S
  finished : (downstream : S) → ConnectionPool S → Turn S
  http_2 : (buffered : Bytes) (downstream : S) → Turn S
  failed : Turn S
  spent : Turn S

module _ (p : Platform) where
  abbrev parsed : (filled : ℕ) → Parsed RequestHead → Decision
  parsed filled (complete head) = accept head
  parsed filled invalid = refuse 400 (codes "Bad Request")
  parsed filled partial =
      if leb max_head_size filled
      then refuse 431 (codes "Request Header Fields Too Large")
      else read_more

  abbrev sniffed : (buf : Bytes) → Option Bool → Decision
  sniffed buf none = read_more
  sniffed buf (some true) = upgrade
  sniffed buf (some false) = parsed (length buf) (parse_request p buf)

  unfoldable pub decide : (served : ℕ) → (buf : Bytes) → Decision
  unfolding detect_h2 parse_request
  decide served buf =
      if is_empty buf
      then read_more
      else (if served == 0 then sniffed buf (detect_h2 buf) else sniffed buf (some false))

  module _ {S : Type 0} (io : Stream S) where
    -- `match head.body`: from the client to the upstream.
    unfoldable pub forward_body :
        (fuel : ℕ)
        → BodyLength
        → (buffered : Bytes) (buf_len : ℕ) → (downstream upstream : S) → Relayed S
    unfolding relay_fixed relay_all_chunked
    forward_body fuel empty buffered buf_len d u = relayed buf_len d u
    forward_body fuel until_close buffered buf_len d u = relayed buf_len d u
    forward_body fuel (fixed len) buffered buf_len d u = relay_fixed io len buffered buf_len d u
    forward_body fuel chunked buffered buf_len d u =
        relay_all_chunked io p fuel buffered buf_len d u

    module _ (show : ℕ → Bytes) where
      unfoldable pub read_request_head :
          (fuel served : ℕ) (buf : Bytes) (buf_len : ℕ) → S → HeadRead S
      unfolding fill decide error_response
      read_request_head zero served buf buf_len s = head_starved
      read_request_head (suc fuel) served buf buf_len s = elim (decide served buf) [
        | accept head ↦ got head buf buf_len s
        | upgrade ↦ is_http_2 buf s
        | refuse status reason ↦ refused (io.write_all (error_response show status reason) s).1
        | read_more ↦ elim (fill io buf buf_len s) [
          | read_error ↦ head_error
          | at_end s' ↦ hung_up s'
          | more_bytes buf' buf_len' s' ↦ read_request_head fuel served buf' buf_len' s'
        ]
      ]

-- `leftover` behind that `match`.
abbrev pub leftover_of : BodyLength → (available : ℕ) → ℕ
leftover_of empty available = available
leftover_of until_close available = available
leftover_of chunked available = 0
leftover_of (fixed len) available = if ltb available len then 0 else available - len

-- The bytes of the next request, moved to the front.
unfoldable pub pipelined : RequestHead → Bytes → Bytes
unfolding body_prefix_len
pipelined head buf =
    let available = length buf - head.head_len in
    let leftover = leftover_of head.body available in
    let start = head.head_len + body_prefix_len head available in
    if ltb 0 leftover
    then drop (head.head_len + (available - leftover)) buf
    else (if ltb start (length buf) then drop start buf else [])
