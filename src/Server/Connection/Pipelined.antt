-- ===== src/Server/Connection/Pipelined.antt =====
-- Between two requests of a connection no byte is lost or sent twice.
use tuletorn.Common.{
  length-drop, ℕ, ◌+◌, ◌-◌, ◌≡◌, ◌≢◌, ◌≤◌, ◌<◌, refl, ap, subst, sym, ◌∙◌, inl, inr, false, [],
  ◌++◌, append-nil, length, arith, Bool-cases, if◌then◌else◌, ltb, drop, min,
}
use tuletorn.Common.Bytes.{Bytes}
use tuletorn.Common.Bytes.Parts.{drop-add, drop_all}
use tuletorn.Http1.{BodyLength, fixed, chunked, until_close, empty, RequestHead, Platform}
use tuletorn.Server.{Stream, body_prefix_len}
use tuletorn.Server.Connection.{forward_body, pipelined}
use tuletorn.Server.Bodies.{relay_all_chunked-IsDelivered}
use tuletorn.Server.Delivered.{IsDelivered, left_of, relay_fixed-IsDelivered, IsBodyOf, IsShort}
use tuletorn.Server.Relay.{Relayed, relayed, broken, closed, out_of_fuel}

-- What the move to the front leaves, with `k` bytes left over, or `q` bytes in front.
moved_lem :
    (hl k q : ℕ) (buf : Bytes)
    → hl ≤ length buf
    → k ≤ length buf - hl
    → length buf - hl ≤ q + k
    → (if ltb 0 k
        then drop (hl + ((length buf - hl) - k)) buf
        else (if ltb (hl + q) (length buf) then drop (hl + q) buf else []))
      ≡ drop ((length buf - hl) - k) (drop hl buf)
moved_lem hl k q buf le inside covers = elim (Bool-cases (ltb 0 k)) [
  | inl e ↦ rw e (drop-add hl ((length buf - hl) - k) buf)
  | inr e ↦
      let past : ltb (hl + q) (length buf) ≡ false = ground arith in
      let none_left : length (drop hl buf) ≤ (length buf - hl) - k =
        let size = length-drop hl buf in ground arith in
      rw (e, past) (sym (drop_all ((length buf - hl) - k) (drop hl buf) none_left))
]

-- The bytes moved to the front are those behind the body.
pub pipelined_lem :
    (head : RequestHead) (buf : Bytes)
    → head.head_len ≤ length buf
    → head.body ≢ until_close
    → pipelined head buf ≡ left_of head.body (drop head.head_len buf)
unfolding pipelined body_prefix_len
pipelined_lem head buf le not_open = from head.body refl
  where
    hl : ℕ
    hl = head.head_len

    size : length (drop hl buf) ≡ length buf - hl
    size = length-drop hl buf

    from : (b : BodyLength) → head.body ≡ b → pipelined head buf ≡ left_of head.body (drop hl buf)
    from empty e =
        let all : (length buf - hl) - (length buf - hl) ≡ 0 = omega arith in
        rw (e, pipelined, body_prefix_len)
          (moved_lem hl (length buf - hl) 0 buf le (omega arith) (omega arith)
            ∙ ap (λ n. drop n (drop hl buf)) all)
    from until_close e = absurd (not_open e)
    from chunked e =
        rw (e, pipelined, body_prefix_len)
          (moved_lem hl 0 (length buf - hl) buf le (omega arith) (omega arith)
            ∙ drop_all ((length buf - hl) - 0) (drop hl buf) (omega (arith, size)))
    from (fixed n) e = elim (Bool-cases (ltb (length buf - hl) n)) [
      | inl f ↦
          rw (e, f, pipelined, body_prefix_len)
            (moved_lem hl 0 (min n (length buf - hl)) buf le (omega arith) (ground arith)
              ∙ drop_all ((length buf - hl) - 0) (drop hl buf) (omega (arith, size))
              ∙ sym (drop_all n (drop hl buf) (let h = size in ground arith)))
      | inr f ↦
          let all : (length buf - hl) - ((length buf - hl) - n) ≡ n = ground arith in
          rw (e, f, pipelined, body_prefix_len)
            (moved_lem hl ((length buf - hl) - n) (min n (length buf - hl)) buf le (omega arith)
                (ground arith)
              ∙ ap (λ k. drop k (drop hl buf)) all)
    ]

module _ (p : Platform) {S : Type 0} (io : Stream S) where
  -- The upstream gets a body that is framed as the head says, and the client's bytes go on behind it: those
  -- that wait at the front of the buffer, and those still to be read.
  abbrev pub IsForwarded : RequestHead → (buf : Bytes) → (d u : S) → Relayed S → Type 0
  IsForwarded head buf d u (relayed n d' u') =
      (b : Bytes) × (drop head.head_len buf ++ io.pending d
        ≡ b ++ (pipelined head buf ++ io.pending d'))
      × (io.written u' ≡ io.written u ++ b)
      × IsBodyOf head.body b (pipelined head buf ++ io.pending d')
  IsForwarded head buf d u broken = Unit
  IsForwarded head buf d u (closed n d' u') =
      IsShort head.body (length (drop head.head_len buf ++ io.pending d)) n
  IsForwarded head buf d u out_of_fuel = ⊥

  forward_body-IsDelivered :
      (fuel : ℕ) (body : BodyLength) (buffered : Bytes) (buf_len : ℕ) (d u : S)
      → body ≢ until_close
      → length (io.pending d) < fuel
      → IsDelivered io body buffered d u (forward_body p io fuel body buffered buf_len d u)
  unfolding forward_body
  forward_body-IsDelivered fuel empty buffered buf_len d u ne enough =
      ([], refl, sym (append-nil (io.written u)), refl)
  forward_body-IsDelivered fuel until_close buffered buf_len d u ne enough = absurd (ne refl)
  forward_body-IsDelivered fuel (fixed len) buffered buf_len d u ne enough =
      relay_fixed-IsDelivered io len buffered buf_len d u
  forward_body-IsDelivered fuel chunked buffered buf_len d u ne enough =
      relay_all_chunked-IsDelivered io p fuel buffered buf_len d u enough

  -- For a head that lies in the buffer and whose body does not run until the connection closes, which holds
  -- of every head that is parsed: with a round for each byte that the client still sends and one more, the
  -- relay of the request's body terminates. Without an I/O error, what the client sent behind the head is
  -- the body that the upstream got, then the bytes that are kept for the next request, then those still to
  -- be read: none is lost, none is sent twice. A body that ends too soon is an error, with the bytes that
  -- are missing counted.
  pub forward_body-IsForwarded :
      (fuel : ℕ) (head : RequestHead) (buf : Bytes) (buf_len : ℕ) (d u : S)
      → head.head_len ≤ length buf
      → head.body ≢ until_close
      → length (io.pending d) < fuel
      → IsForwarded head buf d u
          (forward_body p io fuel head.body (drop head.head_len buf) buf_len d u)
  forward_body-IsForwarded fuel head buf buf_len d u le ne enough =
      from (forward_body p io fuel head.body (drop head.head_len buf) buf_len d u)
        (forward_body-IsDelivered fuel head.body (drop head.head_len buf) buf_len d u ne enough)
    where
      from :
          (x : Relayed S)
          → IsDelivered io head.body (drop head.head_len buf) d u x
          → IsForwarded head buf d u x
      from (relayed n d' u') (b, split, wrote, framed) =
          let same = pipelined_lem head buf le ne in
          (
            b,
            split ∙ ap (λ r. b ++ (r ++ io.pending d')) (sym same),
            wrote,
            subst (λ r. IsBodyOf head.body b (r ++ io.pending d')) (sym same) framed,
          )
      from broken h = tt
      from (closed n d' u') h = h
      from out_of_fuel h = h
