-- ===== src/Server/Connection/Keeping.antt =====
-- What a connection keeps for its next request lies in the vector that the relay of a body gives back.
use tuletorn.Common.{
  length-drop, ℕ, ◌+◌, ◌-◌, ◌≡◌, ◌≤◌, ◌<◌, refl, inl, inr, Bool, true, false, Option, none, some,
  [], length, arith, Bool-cases, if◌then◌else◌, ltb, drop, take, min, ◌==◌,
}
use tuletorn.Common.Bytes.{Bytes}
use tuletorn.Http1.{BodyLength, fixed, chunked, until_close, empty, RequestHead, Platform}
use tuletorn.Server.{Stream, body_prefix_len}
use tuletorn.Server.Connection.{forward_body, leftover_of, pipelined}
use tuletorn.Server.Relay.{Relayed, relayed, broken, closed, out_of_fuel, relay_exact}
use tuletorn.Server.Response.{send_part, relay_fixed, relay_all_chunked}

pub length-pipelined : (head : RequestHead) (buf : Bytes) → length (pipelined head buf) ≤ length buf
unfolding pipelined
length-pipelined head buf =
    whether (ltb 0 (leftover_of head.body (length buf - head.head_len)))
      (ltb (head.head_len + body_prefix_len head (length buf - head.head_len)) (length buf))
      (head.head_len
        + ((length buf - head.head_len) - leftover_of head.body (length buf - head.head_len)))
      (head.head_len + body_prefix_len head (length buf - head.head_len))
  where
    whether :
        (a b : Bool) (i j : ℕ)
        → length (if a then drop i buf else (if b then drop j buf else [])) ≤ length buf
    whether true b i j = omega (arith, length-drop i buf)
    whether false true i j = omega (arith, length-drop j buf)
    whether false false i j = omega arith

-- Nothing is kept where the body takes all that is buffered.
pipelined_nil :
    (head : RequestHead) (buf : Bytes)
    → leftover_of head.body (length buf - head.head_len) ≡ 0
    → length buf - head.head_len ≤ body_prefix_len head (length buf - head.head_len)
    → pipelined head buf ≡ []
unfolding pipelined
pipelined_nil head buf e whole =
    let past : ltb (head.head_len + body_prefix_len head (length buf - head.head_len)) (length buf)
        ≡ false =
      ground arith in
    rw (pipelined, e, past) refl

pipelined-chunked :
    (head : RequestHead) (buf : Bytes) → head.body ≡ chunked → pipelined head buf ≡ []
unfolding body_prefix_len
pipelined-chunked head buf e = pipelined_nil head buf (rw e refl) (rw e (omega arith))

pipelined-fixed :
    (head : RequestHead) (buf : Bytes) (len : ℕ)
    → head.body ≡ fixed len
    → length buf - head.head_len < len
    → pipelined head buf ≡ []
unfolding body_prefix_len
pipelined-fixed head buf len e short =
    let test : ltb (length buf - head.head_len) len ≡ true = ground arith in
    pipelined_nil head buf (rw (e, test) refl) (rw e (ground arith))

module _ (p : Platform) {S : Type 0} (io : Stream S) (head : RequestHead) (buf : Bytes) where
  abbrev pub Keeps : Relayed S → Type 0
  Keeps (relayed n d u) = length (pipelined head buf) ≤ n
  Keeps broken = Unit
  Keeps (closed n d u) = Unit
  Keeps out_of_fuel = Unit

  none_kept : pipelined head buf ≡ [] → (x : Relayed S) → Keeps x
  none_kept e (relayed n d u) = rw e (omega arith)
  none_kept e broken = tt
  none_kept e (closed n d u) = tt
  none_kept e out_of_fuel = tt

  relay_fixed-Keeps :
      (len buf_len : ℕ) (d u : S)
      → head.body ≡ fixed len
      → length buf ≤ buf_len
      → Keeps (relay_fixed io len (drop head.head_len buf) buf_len d u)
  unfolding relay_fixed
  relay_fixed-Keeps len buf_len d u e fits = sent (send_part io (take already buffered) u)
    where
      buffered : Bytes
      buffered = drop head.head_len buf

      already : ℕ
      already = min (length buffered) len

      sent :
          (o : Option S)
          → Keeps (elim o as (λ _. Relayed S) [
            | none ↦ broken
            | some u' ↦
                if len - already == 0
                then relayed buf_len d u'
                else relay_exact io buf_len (len - already) d u'
          ])
      sent none = tt
      sent (some u') = elim (Bool-cases (len - already == 0)) [
        | inl f ↦ rw f (omega (arith, length-pipelined head buf))
        | inr f ↦
            let size = length-drop head.head_len buf in
            let short : length buf - head.head_len < len = ground arith in
            rw f (
              none_kept (pipelined-fixed head buf len e short)
                (relay_exact io buf_len (len - already) d u'))
      ]

  relay_all_chunked-Keeps :
      (fuel buf_len : ℕ) (d u : S)
      → head.body ≡ chunked
      → Keeps (relay_all_chunked io p fuel (drop head.head_len buf) buf_len d u)
  relay_all_chunked-Keeps fuel buf_len d u e =
      none_kept (pipelined-chunked head buf e)
        (relay_all_chunked io p fuel (drop head.head_len buf) buf_len d u)

  pub forward_body-Keeps :
      (fuel buf_len : ℕ) (d u : S)
      → length buf ≤ buf_len
      → Keeps (forward_body p io fuel head.body (drop head.head_len buf) buf_len d u)
  unfolding forward_body
  forward_body-Keeps fuel buf_len d u fits = from head.body refl
    where
      from :
          (body : BodyLength)
          → head.body ≡ body
          → Keeps (forward_body p io fuel body (drop head.head_len buf) buf_len d u)
      from empty e = omega (arith, length-pipelined head buf)
      from until_close e = omega (arith, length-pipelined head buf)
      from (fixed len) e = relay_fixed-Keeps len buf_len d u e fits
      from chunked e = relay_all_chunked-Keeps fuel buf_len d u e
