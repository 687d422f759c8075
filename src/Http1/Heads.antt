-- ===== src/Http1/Heads.antt =====
-- The heads that the proxy writes, read back line by line.
use tuletorn.Common.{
  ◌≡◌, ◌≢◌, ap, ◌∙◌, Option, none, some, [], ◌∷◌, ◌++◌, append-nil, All, All-append, arith,
}
use tuletorn.Common.Bytes.{Bytes, codes}
use tuletorn.Http1.{RequestHead, Platform}
use tuletorn.Http1.Forward.{
  split_header_lines-text_of, kept_lines-IsLine, last_forwarded-IsFree, IsFreeOption,
  forwarded_lines, added_lines, forwarded_head, write_forward_head_lem, append-ne-nil,
}
use tuletorn.Http1.Lines.{IsLine, split_header_lines-IsLine, split_header_lines_nil}
use tuletorn.Http1.Withheld.{kept_lines, last_forwarded, named}
use tuletorn.Http1.Write.{crlf, split_header_lines, header_block, write_forward_head}
use tuletorn.Simd.Host.{IsFree}

IsFree-append : (s t : Bytes) → IsFree 10 s → IsFree 10 t → IsFree 10 (s ++ t)
IsFree-append s t h k = All-append (λ c. c ≢ 10) s t h k

forwarded_lines-IsLine :
    (xff peer : Option Bytes)
    → IsFreeOption xff
    → IsFreeOption peer
    → All IsLine (forwarded_lines xff peer)
forwarded_lines-IsLine xff none h k = tt
forwarded_lines-IsLine none (some ip) h k =
    ((IsFree-append (codes "X-Forwarded-For: ") ip (omega arith) k, λ e. cc), tt)
forwarded_lines-IsLine (some prev) (some ip) h k = (
  (
    IsFree-append (codes "X-Forwarded-For: ") (prev ++ (codes ", " ++ ip)) (omega arith)
        (IsFree-append prev (codes ", " ++ ip) h (IsFree-append (codes ", ") ip (omega arith) k)),
    λ e. cc,
  ),
  tt,
)

module _ (p : Platform) (original : Bytes) (head : RequestHead) (target upstream_host : Bytes)
    (peer : Option Bytes) where
  forwarded_head-IsLine :
      IsFree 10 head.method
      → IsFree 10 target
      → IsFree 10 upstream_host
      → IsFreeOption peer
      → All IsLine (forwarded_head p original head target upstream_host peer)
  forwarded_head-IsLine fm ft fu fp =
      let block = header_block p original head.head_len in
      let lines = split_header_lines block in
      let nominated = named p block in
      (
        (
          IsFree-append head.method (codes " " ++ (target ++ codes " HTTP/1.1")) fm (
              IsFree-append (codes " ") (target ++ codes " HTTP/1.1") (omega arith)
                (IsFree-append target (codes " HTTP/1.1") ft (omega arith))),
          append-ne-nil head.method (target ++ codes " HTTP/1.1") 32,
        ),
        All-append IsLine (kept_lines p nominated lines)
            (added_lines upstream_host (last_forwarded p nominated none lines) peer)
            (kept_lines-IsLine p nominated lines (split_header_lines-IsLine block))
            (
              (IsFree-append (codes "Host: ") upstream_host (omega arith) fu, λ e. cc),
              All-append IsLine (forwarded_lines (last_forwarded p nominated none lines) peer)
                  (codes "X-Forwarded-Proto: http" ∷ [])
                  (forwarded_lines-IsLine (last_forwarded p nominated none lines) peer
                    (last_forwarded-IsFree p nominated none lines tt
                      (split_header_lines-IsLine block))
                    fp)
                  ((omega arith, λ e. cc), tt),
            ),
      )

  -- With no line feed in the method, the target, the upstream's address and the peer's, the upstream
  -- reads the forwarded head as exactly these lines: the request line with the new target; the client's
  -- header lines in order, less those without a colon, the hop-by-hop ones, those that a `Connection`
  -- header nominates, `Host` and `X-Forwarded-For`; one `Host` with the upstream's address; where a peer
  -- is given, one `X-Forwarded-For` that appends it to the last value the client sent; and
  -- `X-Forwarded-Proto: http`.
  pub split_header_lines-write_forward_head :
      IsFree 10 head.method
      → IsFree 10 target
      → IsFree 10 upstream_host
      → IsFreeOption peer
      → split_header_lines (write_forward_head p original head target upstream_host peer)
        ≡ forwarded_head p original head target upstream_host peer
  split_header_lines-write_forward_head fm ft fu fp =
      ap split_header_lines (write_forward_head_lem p original head target upstream_host peer)
      ∙ split_header_lines-text_of (forwarded_head p original head target upstream_host peer) crlf
          (forwarded_head-IsLine fm ft fu fp)
      ∙ ap (λ r. forwarded_head p original head target upstream_host peer ++ r)
          split_header_lines_nil
      ∙ append-nil (forwarded_head p original head target upstream_host peer)
