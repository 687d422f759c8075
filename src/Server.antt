-- ===== src/Server.antt =====
-- crates/proxy-monoio/src/server.rs: one worker's connections. A buffer is the list of its filled bytes
-- with the length of the vector beside it; a socket is a state of the type that `Stream` is about.
pub mod Relay
pub mod Buffer
pub mod Exact
pub mod Ended
pub mod Response
pub mod Delivered
pub mod Bodies
pub mod Preface
pub mod Replay
pub mod Http2
pub mod Connection
pub mod Received
pub mod Answered
pub mod Model
mod Tests
use tuletorn.Common.{
  ℕ, ◌+◌, ◌-◌, ◌*◌, ◌≡◌, ◌≤◌, ◌<◌, Bool, true, Option, none, some, List, [], ◌∷◌, ◌++◌,
  if◌then◌else◌, ltb, leb, min, max, length, take, drop,
}
use tuletorn.Common.Bytes.{Bytes}
use tuletorn.Http1.{BodyLength, fixed, chunked, until_close, empty, RequestHead}
use tuletorn.Simd.{Memchr}

abbrev pub io_buf_size : ℕ
io_buf_size = 32 * 1024

abbrev pub io_buf_initial : ℕ
io_buf_initial = 4 * 1024

abbrev pub max_requests_per_connection : ℕ
max_requests_per_connection = 100000

-- A socket of the runtime. `read` offers room for `want` bytes and gives what has arrived, or `none`
-- for an error; no bytes mean the end, where there was room. `write_all` says whether all was written.
-- `pending` is what the other side still sends, and `written` what was written so far. The vector's
-- capacity is the runtime's matter: behind `filled` bytes, `slice_mut(filled..)` offers `room`, which has
-- the vector's length in it, and a read up to `end` leaves the vector with the length `vec_len`, which
-- has the bytes that were read in it.
pub record Stream (S : Type 0) : Type 0 where
  pub read : (want : ℕ) → S → Option Bytes × S
  pub write_all : Bytes → S → Bool × S
  pub pending : S → Bytes
  pub written : S → Bytes
  pub room : (buf_len filled : ℕ) → S → ℕ
  pub vec_len : (buf_len end : ℕ) → ℕ
  pub room_lem : (buf_len filled : ℕ) (s : S) → buf_len ≤ filled + room buf_len filled s
  pub vec_len_lem : (buf_len end : ℕ) → end ≤ vec_len buf_len end
  pub read_lem :
      (want : ℕ) (s s' : S) (b : Bytes)
      → read want s ≡ (some b, s')
      → (length b ≤ want) × (pending s ≡ b ++ pending s')
  pub read_end : (want : ℕ) (s s' : S) → read want s ≡ (some [], s') → 0 < want → pending s ≡ []
  pub write_all_lem :
      (b : Bytes) (s s' : S) → write_all b s ≡ (true, s') → written s' ≡ written s ++ b

-- The length that the vector is grown to.
unfoldable pub grow_for_read : (buf_len filled : ℕ) → ℕ
grow_for_read buf_len filled =
    if leb io_buf_initial (buf_len - filled)
    then buf_len
    else (if ltb buf_len io_buf_initial
        then io_buf_initial
        else max (min (buf_len * 2) (filled + io_buf_size)) (filled + io_buf_initial))

unfoldable pub body_prefix_len : RequestHead → (available : ℕ) → ℕ
body_prefix_len head available = elim head.body [
  | empty ↦ 0
  | fixed n ↦ min n available
  | chunked ↦ available
  | until_close ↦ available
]

unfoldable pub path_of : Memchr → Bytes → Bytes
path_of m target = elim (m.memchr b'?' target) [ none ↦ target | some pos ↦ take pos target ]

unfoldable pub split_target : Memchr → Bytes → Bytes × Option Bytes
split_target m target = elim (m.memchr b'?' target) [
  | none ↦ (target, none)
  | some pos ↦ (take pos target, some (drop (pos + 1) target))
]

-- `format!("{rewritten}?{q}")`, or the path alone.
abbrev pub join_target : (path : Bytes) → (query : Option Bytes) → Bytes
join_target path none = path
join_target path (some q) = path ++ b'?' ∷ q
