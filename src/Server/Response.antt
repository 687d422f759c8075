-- ===== src/Server/Response.antt =====
-- crates/proxy-monoio/src/server.rs, `relay_response` and what it shares with `serve_connection`.
use tuletorn.Common.{
  min, ℕ, zero, suc, ◌+◌, ◌-◌, ◌==◌, Bool, true, false, not, ◌&&◌, Option, none, some, [], ◌++◌,
  if◌then◌else◌, length, take, drop,
}
use tuletorn.Common.Bytes.{Bytes, codes, is_empty}
use tuletorn.Http1.{
  BodyLength, fixed, chunked, until_close, empty, ResponseHead, complete, partial, invalid,
  Platform,
}
use tuletorn.Http1.Parse.{parse_response}
use tuletorn.Http1.Write.{write_return_head, error_response}
use tuletorn.Server.{Stream, grow_for_read}
use tuletorn.Server.Relay.{
  Relayed, relayed, broken, closed, out_of_fuel, relay_exact, relay_chunked, relay_until_close,
}

pub record RelayOutcome : Type 0 where
  pub upstream_reusable : Bool
  pub downstream_reusable : Bool

-- A read into the tail of the buffer, which was grown for it.
pub data Filled (S : Type 0) : Type 0 where
  more_bytes : (buf : Bytes) (buf_len : ℕ) → S → Filled S
  at_end : S → Filled S
  read_error : Filled S

pub data ResponseRead (S : Type 0) : Type 0 where
  found : ResponseHead → (buf : Bytes) (buf_len : ℕ) → S → ResponseRead S
  malformed no_head : S → ResponseRead S
  head_error : ResponseRead S
  head_starved : ResponseRead S

-- `Ok(RelayOutcome)` with both streams, an error, or a loop that ran out of rounds.
pub data Answer (S : Type 0) : Type 0 where
  answered : RelayOutcome → (upstream downstream : S) → Answer S
  no_answer : Answer S
  starved : Answer S

abbrev pub is_until_close : BodyLength → Bool
is_until_close until_close = true
is_until_close (fixed n) = false
is_until_close chunked = false
is_until_close empty = false

abbrev pub downstream_keep : (keep_alive : Bool) → ResponseHead → Bool
downstream_keep keep_alive head = keep_alive && not (is_until_close head.body)

abbrev pub outcome_of : (keep_alive : Bool) → ResponseHead → RelayOutcome
outcome_of keep_alive head = record {
  upstream_reusable = not head.close_requested && not (is_until_close head.body);
  downstream_reusable = downstream_keep keep_alive head;
}

abbrev pub unusable : RelayOutcome
unusable = record { upstream_reusable = false; downstream_reusable = false }

module _ {S : Type 0} (io : Stream S) where
  abbrev pub filled_with : (buf : Bytes) (buf_len : ℕ) → Bytes → S → Filled S
  filled_with buf buf_len b s =
      if is_empty b
      then at_end s
      else more_bytes (buf ++ b) (io.vec_len buf_len (length buf + length b)) s

  -- `grow_for_read` and the read into `buf.slice_mut(filled..)`
  unfoldable pub fill : (buf : Bytes) (buf_len : ℕ) → S → Filled S
  unfolding grow_for_read
  fill buf buf_len s =
      let room = grow_for_read buf_len (length buf) in
      let (got, s') = io.read (io.room room (length buf) s) s in
      elim got [ none ↦ read_error | some b ↦ filled_with buf room b s' ]

  -- `write_all(..)` and `res?`
  unfoldable pub send : Bytes → S → Option S
  send b s = let (ok, s') = io.write_all b s in if ok then some s' else none

  -- Under `if already > 0`.
  abbrev pub send_part : Bytes → S → Option S
  send_part b s = if is_empty b then some s else send b s

  unfoldable pub relay_fixed :
      (len : ℕ) (buffered : Bytes) (buf_len : ℕ) → (src dst : S) → Relayed S
  unfolding relay_exact send
  relay_fixed len buffered buf_len src dst =
      let already = min (length buffered) len in
      elim (send_part (take already buffered) dst) [
        | none ↦ broken
        | some dst' ↦
            if len - already == 0
            then relayed buf_len src dst'
            else relay_exact io buf_len (len - already) src dst'
      ]

  module _ (p : Platform) where
    unfoldable pub relay_all_chunked :
        (fuel : ℕ) (buffered : Bytes) (buf_len : ℕ) → (src dst : S) → Relayed S
    unfolding relay_chunked send
    relay_all_chunked fuel buffered buf_len src dst = elim (send_part buffered dst) [
      | none ↦ broken
      | some dst' ↦ relay_chunked io p.memmem fuel buf_len src dst'
    ]

    -- `match head.body` of a response.
    unfoldable pub relay_body :
        (fuel : ℕ) → BodyLength → (buffered : Bytes) (buf_len : ℕ) → (src dst : S) → Relayed S
    unfolding relay_fixed relay_all_chunked relay_until_close send
    relay_body fuel empty buffered buf_len src dst = relayed buf_len src dst
    relay_body fuel (fixed len) buffered buf_len src dst = relay_fixed len buffered buf_len src dst
    relay_body fuel chunked buffered buf_len src dst =
        relay_all_chunked fuel buffered buf_len src dst
    relay_body fuel until_close buffered buf_len src dst = elim (send_part buffered dst) [
      | none ↦ broken
      | some dst' ↦ relay_until_close io fuel buf_len src dst'
    ]

    -- The loop that reads the head: `none` of the parser's answer reads on.
    unfoldable pub read_response_head :
        (fuel : ℕ) (request_method : Bytes) (buf : Bytes) (buf_len : ℕ) → S → ResponseRead S
    unfolding fill parse_response
    read_response_head zero request_method buf buf_len s = head_starved
    read_response_head (suc fuel) request_method buf buf_len s =
        elim (if is_empty buf then partial else parse_response p buf request_method) [
          | complete head ↦ found head buf buf_len s
          | invalid ↦ malformed s
          | partial ↦ elim (fill buf buf_len s) [
            | read_error ↦ head_error
            | at_end s' ↦ no_head s'
            | more_bytes buf' buf_len' s' ↦ read_response_head fuel request_method buf' buf_len' s'
          ]
        ]

    -- From the head on.
    unfoldable pub answer_with :
        (fuel : ℕ) (keep_alive : Bool)
        → ResponseHead
        → (buf : Bytes) (buf_len : ℕ) → (upstream downstream : S) → Answer S
    unfolding relay_body write_return_head send
    answer_with fuel keep_alive head buf buf_len upstream downstream =
        elim (send (write_return_head p buf head (downstream_keep keep_alive head)) downstream) [
          | none ↦ no_answer
          | some d ↦ elim (relay_body fuel head.body (drop head.head_len buf) buf_len upstream d) [
            | relayed n u' d' ↦ answered (outcome_of keep_alive head) u' d'
            | broken ↦ no_answer
            | closed n u' d' ↦ no_answer
            | out_of_fuel ↦ starved
          ]
        ]

    unfoldable pub relay_response :
        (show : ℕ → Bytes) (fuel : ℕ) (request_method : Bytes) (keep_alive : Bool)
        → (upstream downstream : S) → Answer S
    unfolding read_response_head answer_with error_response
    relay_response show fuel request_method keep_alive upstream downstream =
        elim (read_response_head fuel request_method [] 0 upstream) [
          | found head buf buf_len u ↦ answer_with fuel keep_alive head buf buf_len u downstream
          | malformed u ↦
              answered unusable u
                (io.write_all (error_response show 502 (codes "Bad Gateway")) downstream).1
          | no_head u ↦ answered unusable u downstream
          | head_error ↦ no_answer
          | head_starved ↦ starved
        ]
