-- ===== src/Http1/Parse.antt =====
-- crates/proxy-monoio/src/http1.rs, `parse_request` and `parse_response`.
use tuletorn.Common.{
  ℕ, ◌+◌, Bool, true, false, ◌||◌, ◌&&◌, not, Option, none, some, List, [], ◌∷◌, if◌then◌else◌,
  ◌>>=◌, leb, ltb, ◌==◌, length,
}
use tuletorn.Common.Bytes.{Bytes, codes, split}
use tuletorn.Common.Bytes.Text.{trim, eq_ignore_case, parse_u64, last_or}
use tuletorn.Http1.{
  BodyLength, fixed, chunked, until_close, empty, RequestHead, ResponseHead, Parsed, complete,
  partial, invalid, RawRequest, RawResponse, done, more, failed, Platform, max_headers,
}

-- The locals that the loop over the headers fills.
pub record Scan : Type 0 where
  pub host : Option Bytes
  pub content_length : Option ℕ
  pub is_chunked : Bool
  pub close_requested : Bool

-- `v.rsplit(',').next().is_some_and(|last| ..)`
unfoldable pub ends_chunked : Bytes → Bool
unfolding split trim eq_ignore_case
ends_chunked v = eq_ignore_case (trim (last_or [] (split b',' v))) (codes "chunked")

-- `for token in v.split(',')`
unfoldable pub disposition : Bool → List Bytes → Bool
unfolding trim eq_ignore_case
disposition close [] = close
disposition close (token ∷ tokens) =
    disposition
      (if eq_ignore_case (trim token) (codes "close")
        then true
        else if eq_ignore_case (trim token) (codes "keep-alive")
        then false
        else close)
      tokens

-- The locals before the loop; `http_11` is `version != Some(0)`.
abbrev pub is_http_11 : Option ℕ → Bool
is_http_11 none = true
is_http_11 (some v) = not (v == 0)

abbrev pub fresh_scan : Option ℕ → Scan
fresh_scan version = record {
  host = none;
  content_length = none;
  is_chunked = false;
  close_requested = not (is_http_11 version);
}

abbrev pub request_body : Scan → BodyLength
request_body s =
    if s.is_chunked
    then chunked
    else (elim s.content_length [ none ↦ empty | some n ↦ if n == 0 then empty else fixed n ])

unfoldable pub is_bodyless : (request_method : Bytes) → (status : ℕ) → Bool
unfolding eq_ignore_case
is_bodyless request_method status =
    eq_ignore_case request_method (codes "HEAD")
    || status == 204
    || status == 304
    || leb 100 status && ltb status 200

unfoldable pub response_body : (request_method : Bytes) → (status : ℕ) → Scan → BodyLength
unfolding is_bodyless
response_body request_method status s =
    if is_bodyless request_method status
    then empty
    else if s.is_chunked
    then chunked
    else (elim s.content_length [ none ↦ until_close | some n ↦ if n == 0 then empty else fixed n ])

module _ (p : Platform) where
  abbrev pub content_length_of : Bytes → Option ℕ
  content_length_of value = p.validate_utf8 value >>= λ v. parse_u64 (trim v)

  -- The branches for `Transfer-Encoding` and `Connection`, which the two parsers share.
  unfoldable pub scan_shared : Scan → (name value : Bytes) → Scan
  unfolding ends_chunked disposition split eq_ignore_case
  scan_shared s name value =
      if eq_ignore_case name (codes "transfer-encoding")
      then (elim (p.validate_utf8 value) [
        | none ↦ s
        | some v ↦ record s { is_chunked = ends_chunked v }
      ])
      else (if eq_ignore_case name (codes "connection")
          then (elim (p.validate_utf8 value) [
            | none ↦ s
            | some v ↦ record s { close_requested = disposition s.close_requested (split b',' v) }
          ])
          else s)

  -- One round of the loop of `parse_request`; `none` returns `Invalid`.
  unfoldable pub scan_request_header : Scan → Bytes × Bytes → Option Scan
  unfolding scan_shared eq_ignore_case
  scan_request_header s (name, value) =
      if eq_ignore_case name (codes "host")
      then some (record s { host = p.validate_utf8 value })
      else (if eq_ignore_case name (codes "content-length")
          then (content_length_of value >>= λ n. some (record s { content_length = some n }))
          else some (scan_shared s name value))

  unfoldable pub scan_request : Scan → List (Bytes × Bytes) → Option Scan
  unfolding scan_request_header
  scan_request s [] = some s
  scan_request s (h ∷ hs) = scan_request_header s h >>= λ s'. scan_request s' hs

  -- The rounds of `parse_response`, which takes an unreadable length for none.
  unfoldable pub scan_response : Scan → List (Bytes × Bytes) → Scan
  unfolding scan_shared eq_ignore_case
  scan_response s [] = s
  scan_response s ((name, value) ∷ hs) =
      scan_response
        (if eq_ignore_case name (codes "content-length")
          then record s { content_length = content_length_of value }
          else scan_shared s name value)
        hs

  -- The rest of `parse_request`, once method, target and the target's place are known.
  unfoldable pub finish_request :
      RawRequest → (head_len : ℕ) → (method target : Bytes) → (start : ℕ) → Parsed RequestHead
  unfolding scan_request
  finish_request req head_len method target start =
      elim (scan_request (fresh_scan req.version) req.headers) [
        | none ↦ invalid
        | some s ↦ complete (record {
          head_len = head_len;
          method = method;
          target = target;
          host = s.host;
          body = request_body s;
          close_requested = s.close_requested;
          target_span = (start, start + length target);
        })
      ]

  -- `let Some(method)`, `let Some(target)`, `let Some(target_start)`
  unfoldable pub read_request : Bytes → (head_len : ℕ) → RawRequest → Parsed RequestHead
  unfolding finish_request
  read_request buf head_len req = elim req.method [
    | none ↦ invalid
    | some method ↦ elim req.path [
      | none ↦ invalid
      | some target ↦ elim (p.memmem buf target) [
        | none ↦ invalid
        | some start ↦ finish_request req head_len method target start
      ]
    ]
  ]

  unfoldable pub parse_request : Bytes → Parsed RequestHead
  unfolding read_request
  parse_request buf = elim (p.request_parser max_headers buf) [
    | done n req ↦ read_request buf n req
    | more ↦ partial
    | failed ↦ invalid
  ]

  unfoldable pub read_response :
      (request_method : Bytes) → (head_len : ℕ) → RawResponse → Parsed ResponseHead
  unfolding scan_response response_body
  read_response request_method head_len resp = elim resp.code [
    | none ↦ invalid
    | some status ↦
        let s = scan_response (fresh_scan resp.version) resp.headers in
        complete (record {
          head_len = head_len;
          status = status;
          body = response_body request_method status s;
          close_requested = s.close_requested;
        })
  ]

  unfoldable pub parse_response : Bytes → (request_method : Bytes) → Parsed ResponseHead
  unfolding read_response
  parse_response buf request_method = elim (p.response_parser max_headers buf) [
    | done n resp ↦ read_response request_method n resp
    | more ↦ partial
    | failed ↦ invalid
  ]
