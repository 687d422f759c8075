-- ===== src/Http1/Write.antt =====
-- crates/proxy-monoio/src/http1.rs: the heads that the proxy writes. The address of a peer is its text.
use tuletorn.Common.{
  ℕ, ◌+◌, Bool, false, ◌||◌, not, Option, none, some, List, [], ◌∷◌, ◌++◌, map, filter, flat_map,
  any, if◌then◌else◌, take, drop,
}
use tuletorn.Common.Bytes.{Bytes, codes, is_empty, split, strip_suffix, to_ascii_lowercase}
use tuletorn.Common.Bytes.Text.{trim_ascii}
use tuletorn.Http1.{RequestHead, ResponseHead, Platform}
use tuletorn.Simd.{eq_ignore_ascii_case, find_byte}

abbrev pub crlf : Bytes
crlf = 13 ∷ 10 ∷ []

-- `line.strip_suffix(b"\r").unwrap_or(line)`
unfoldable pub strip_cr : Bytes → Bytes
unfolding strip_suffix
strip_cr line = elim (strip_suffix (13 ∷ []) line) [ none ↦ line | some s ↦ s ]

unfoldable pub split_header_lines : Bytes → List Bytes
unfolding split strip_cr
split_header_lines block = filter (λ line. not (is_empty line)) (map strip_cr (split 10 block))

-- What the loop of `write_forward_head` does with a line.
pub data Fate : Type 0 where
  dropped kept : Fate
  forwarded_for : Bytes → Fate

abbrev pub forwarded_line : Option Bytes → (peer : Option Bytes) → Bytes
forwarded_line xff none = []
forwarded_line none (some ip) = codes "X-Forwarded-For: " ++ (ip ++ crlf)
forwarded_line (some prev) (some ip) =
    codes "X-Forwarded-For: " ++ (prev ++ (codes ", " ++ (ip ++ crlf)))

module _ (p : Platform) where
  unfoldable pub eq_ci : Bytes → Bytes → Bool
  unfolding trim_ascii eq_ignore_ascii_case
  eq_ci a b = eq_ignore_ascii_case p.arch p.avx2 (trim_ascii a) b

  abbrev pub hop_names : List Bytes
  hop_names =
      codes "connection"
      ∷ codes "keep-alive"
      ∷ codes "proxy-authenticate"
      ∷ codes "proxy-authorization"
      ∷ codes "proxy-connection"
      ∷ codes "te"
      ∷ codes "trailer"
      ∷ codes "upgrade"
      ∷ []

  unfoldable pub is_hop_by_hop : Bytes → Bool
  unfolding eq_ci
  is_hop_by_hop name = any (λ n. eq_ci name n) hop_names

  -- One token of a `Connection` header: the name that it nominates, if it does.
  abbrev pub nominated_token : Bytes → List Bytes
  nominated_token token =
      if is_empty (trim_ascii token)
        || eq_ci (trim_ascii token) (codes "close")
        || eq_ci (trim_ascii token) (codes "keep-alive")
      then []
      else to_ascii_lowercase (trim_ascii token) ∷ []

  -- One round of the loop over the lines: `None` of `memchr` continues.
  abbrev pub nominated_line : Bytes → List Bytes
  nominated_line line = elim (find_byte p.bytes b':' line) [
    | none ↦ []
    | some colon ↦
        if eq_ci (take colon line) (codes "connection")
        then flat_map nominated_token (split b',' (drop (colon + 1) line))
        else []
  ]

  unfoldable pub connection_nominated : Bytes → List Bytes
  unfolding split_header_lines eq_ci split
  connection_nominated block = flat_map nominated_line (split_header_lines block)

  -- Where the headers start: behind the first line.
  unfoldable pub headers_start : Bytes → ℕ → ℕ
  headers_start original head_len = elim (p.memmem (take head_len original) crlf) [
    | some pos ↦ pos + 2
    | none ↦ head_len
  ]

  -- `&original[headers_start..head.head_len]`
  abbrev pub header_block : Bytes → ℕ → Bytes
  header_block original head_len = drop (headers_start original head_len) (take head_len original)

  unfoldable pub fate : (nominated : List Bytes) → Bytes → Fate
  unfolding is_hop_by_hop
  fate nominated line = elim (find_byte p.bytes b':' line) [
    | none ↦ dropped
    | some colon ↦
        let name = take colon line in
        if is_hop_by_hop name || eq_ci name (codes "host") || any (λ n. eq_ci name n) nominated
        then dropped
        else (if eq_ci name (codes "x-forwarded-for")
            then forwarded_for (trim_ascii (drop (colon + 1) line))
            else kept)
  ]

  -- The loop: the bytes that it writes, and `existing_xff`.
  unfoldable pub copy_lines :
      List Bytes → (out : Bytes) → Option Bytes → List Bytes → Bytes × Option Bytes
  copy_lines nominated out xff [] = (out, xff)
  copy_lines nominated out xff (line ∷ lines) = elim (fate nominated line) [
    | dropped ↦ copy_lines nominated out xff lines
    | kept ↦ copy_lines nominated (out ++ (line ++ crlf)) xff lines
    | forwarded_for v ↦ copy_lines nominated out (some v) lines
  ]

  unfoldable pub write_forward_head :
      (original : Bytes)
      → RequestHead
      → (target upstream_host : Bytes) → (peer : Option Bytes) → Bytes
  unfolding fate headers_start copy_lines connection_nominated split_header_lines
  write_forward_head original head target upstream_host peer =
      let request_line = head.method ++ (codes " " ++ (target ++ (codes " HTTP/1.1" ++ crlf))) in
      let block = header_block original head.head_len in
      let (copied, xff) =
        copy_lines (connection_nominated block) request_line none (split_header_lines block) in
      copied
      ++ (codes "Host: "
          ++ (upstream_host
              ++ (crlf
                  ++ (forwarded_line xff peer
                      ++ (codes "X-Forwarded-Proto: http" ++ (crlf ++ crlf))))))

  -- The test of the loop of `write_return_head`.
  unfoldable pub returns : (nominated : List Bytes) → Bytes → Bool
  unfolding is_hop_by_hop
  returns nominated line = elim (find_byte p.bytes b':' line) [
    | none ↦ false
    | some colon ↦
        let name = take colon line in not (is_hop_by_hop name || any (λ n. eq_ci name n) nominated)
  ]

  unfoldable pub write_return_head : (original : Bytes) → ResponseHead → (keep_alive : Bool) → Bytes
  unfolding headers_start returns connection_nominated split_header_lines
  write_return_head original head keep_alive =
      let block = header_block original head.head_len in
      take (headers_start original head.head_len) original
      ++ (flat_map (λ line. line ++ crlf)
            (filter (returns (connection_nominated block)) (split_header_lines block))
          ++ (if keep_alive
              then codes "Connection: keep-alive" ++ (crlf ++ crlf)
              else codes "Connection: close" ++ (crlf ++ crlf)))

-- `show` writes the status as a number.
unfoldable pub error_response : (show : ℕ → Bytes) → (status : ℕ) → (reason : Bytes) → Bytes
error_response show status reason =
    codes "HTTP/1.1 "
    ++ (show status
        ++ (codes " "
            ++ (reason
                ++ (crlf
                    ++ (codes "Content-Length: 0"
                        ++ (crlf ++ (codes "Connection: close" ++ (crlf ++ crlf))))))))
