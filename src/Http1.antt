-- ===== src/Http1.antt =====
-- crates/proxy-monoio/src/http1.rs: heads of HTTP/1.1 messages. A buffer that the code fills is the
-- list of the bytes written. The parser of the crate `httparse`, the searches of `memchr` and UTF-8
-- validation are parameters.
pub mod Parse
pub mod Write
pub mod Framing
pub mod Framed
pub mod Refused
pub mod Lines
pub mod Withheld
pub mod Forward
pub mod Heads
pub mod Returned
pub mod Model
mod Tests
use tuletorn.Common.{ℕ, ◌*◌, ◌==◌, ◌≡◌, ◌≤◌, Bool, true, false, Option, none, some, List, length}
use tuletorn.Common.Bytes.{Bytes}
use tuletorn.Common.Bytes.Text.{find_sub}
use tuletorn.Simd.{Arch, Memchr}

abbrev pub max_head_size : ℕ
max_head_size = 64 * 1024

abbrev pub max_headers : ℕ
max_headers = 96

pub data BodyLength : Type 0 where
  fixed : ℕ → BodyLength
  chunked until_close empty : BodyLength

-- `BodyLength::is_empty`
abbrev pub body_is_empty : BodyLength → Bool
body_is_empty empty = true
body_is_empty (fixed n) = n == 0
body_is_empty chunked = false
body_is_empty until_close = false

pub record RequestHead : Type 0 where
  pub head_len : ℕ
  pub method : Bytes
  pub target : Bytes
  pub host : Option Bytes
  pub body : BodyLength
  pub close_requested : Bool
  pub target_span : ℕ × ℕ

pub record ResponseHead : Type 0 where
  pub head_len : ℕ
  pub status : ℕ
  pub body : BodyLength
  pub close_requested : Bool

-- The reason of `Invalid` is only logged, and left out.
pub data Parsed {ℓ} (A : Type ℓ) : Type ℓ where
  complete : A → Parsed A
  partial : Parsed A
  invalid : Parsed A

-- What `httparse` reads: the fields of its `Request` and `Response`, once a head is complete.
pub record RawRequest : Type 0 where
  pub method : Option Bytes
  pub path : Option Bytes
  pub version : Option ℕ
  pub headers : List (Bytes × Bytes)

pub record RawResponse : Type 0 where
  pub code : Option ℕ
  pub version : Option ℕ
  pub headers : List (Bytes × Bytes)

pub data Status (A : Type 0) : Type 0 where
  done : (consumed : ℕ) → A → Status A
  more : Status A
  failed : Status A

-- What `http1.rs` calls of other crates, and the CPU that it runs on.
pub record Platform : Type 0 where
  pub arch : Arch
  pub avx2 : Bool
  pub bytes : Memchr
  -- `memchr::memmem::find` returns the first occurrence.
  pub memmem : (haystack needle : Bytes) → Option ℕ
  pub memmem_lem : (h n : Bytes) → memmem h n ≡ find_sub h n
  -- `simd::validate_utf8`, which returns its input where it is UTF-8.
  pub validate_utf8 : Bytes → Option Bytes
  pub validate_utf8_lem : (s r : Bytes) → validate_utf8 s ≡ some r → r ≡ s
  -- `httparse::Request::parse` and `Response::parse` with room for so many headers.
  pub request_parser : (room : ℕ) → Bytes → Status RawRequest
  pub response_parser : (room : ℕ) → Bytes → Status RawResponse
  -- A head lies in the buffer.
  pub request_parser_lem :
      (room : ℕ) (buf : Bytes) (n : ℕ) (r : RawRequest)
      → request_parser room buf ≡ done n r
      → n ≤ length buf
  pub response_parser_lem :
      (room : ℕ) (buf : Bytes) (n : ℕ) (r : RawResponse)
      → response_parser room buf ≡ done n r
      → n ≤ length buf
