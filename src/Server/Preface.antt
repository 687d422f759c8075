-- ===== src/Server/Preface.antt =====
-- crates/proxy-monoio/src/http2.rs: how an HTTP/2 connection is told apart, and the stream that gives the
-- bytes read for that once more. The server and the client of HTTP/2 are those of the crate `hyper`.
use tuletorn.Common.{
  min, ℕ, ◌+◌, ◌-◌, Bool, true, false, not, Option, none, some, [], ◌∷◌, ◌++◌, if◌then◌else◌, ltb,
  leb, length, take, drop,
}
use tuletorn.Common.Bytes.{Bytes, codes, bytes_eq}
use tuletorn.Server.{Stream}

abbrev pub h2_preface : Bytes
h2_preface = codes "PRI * HTTP/2.0" ++ 13 ∷ 10 ∷ 13 ∷ 10 ∷ (codes "SM" ++ 13 ∷ 10 ∷ 13 ∷ 10 ∷ [])

unfoldable pub detect_h2 : Bytes → Option Bool
unfolding bytes_eq
detect_h2 buf =
    let n = min (length buf) (length h2_preface) in
    if not (bytes_eq (take n buf) (take n h2_preface))
    then some false
    else if leb (length h2_preface) (length buf)
    then some true
    else none

pub record PrefixedIo (S : Type 0) : Type 0 where
  pub prefix : Bytes
  pub position : ℕ
  pub inner : S

module _ {S : Type 0} where
  abbrev pub prefixed : Bytes → S → PrefixedIo S
  prefixed prefix inner = record { prefix = prefix; position = 0; inner = inner }

  unfoldable pub remaining_prefix : PrefixedIo S → ℕ
  remaining_prefix s = length s.prefix - s.position

  module _ (io : Stream S) where
    unfoldable pub poll_read : (want : ℕ) → PrefixedIo S → Option Bytes × PrefixedIo S
    poll_read want s =
        if ltb s.position (length s.prefix)
        then (let available = drop s.position s.prefix in
            let n = min (length available) want in
            (some (take n available), record s { position = s.position + n }))
        else (let (got, inner) = io.read want s.inner in (got, record s { inner = inner }))

    unfoldable pub poll_write : Bytes → PrefixedIo S → Bool × PrefixedIo S
    poll_write b s = let (ok, inner) = io.write_all b s.inner in (ok, record s { inner = inner })
