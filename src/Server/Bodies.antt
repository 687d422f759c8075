-- ===== src/Server/Bodies.antt =====
-- The body of a message, by its framing.
use tuletorn.Common.{
  ℕ, ◌≡◌, ◌<◌, refl, ap, sym, ◌∙◌, inl, inr, Option, none, some, [], ◌++◌, append_assoc, append-nil,
  length,
}
use tuletorn.Common.Bytes.{Bytes}
use tuletorn.Http1.{BodyLength, fixed, chunked, until_close, empty, Platform}
use tuletorn.Server.{Stream}
use tuletorn.Server.Ended.{
  IsRelayed, IsTerminated, relay_chunked-IsTerminated, relay_until_close-IsRelayed,
}
use tuletorn.Server.Relay.{
  Relayed, relayed, broken, closed, out_of_fuel, relay_chunked, relay_until_close, terminator,
}
use tuletorn.Server.Response.{send_part, relay_all_chunked, relay_body}
use tuletorn.Server.Delivered.{
  IsSent, send_part-IsSent, IsDelivered, IsBodyOf, left_of, relay_fixed-IsDelivered,
}

module _ {S : Type 0} (io : Stream S) where
  -- What a loop without a length relays after the buffered bytes.
  IsRelayed-IsDelivered :
      (body : BodyLength) (P : Bytes → S → Type 0) (buffered : Bytes) (src dst dst' : S)
      → left_of body buffered ≡ []
      → ((b : Bytes) (s : S) → P b s → IsBodyOf body (buffered ++ b) (io.pending s))
      → io.written dst' ≡ io.written dst ++ buffered
      → (x : Relayed S) → IsRelayed io P src dst' x
      → IsDelivered io body buffered src dst x
  IsRelayed-IsDelivered body P buffered src dst dst' none_left f to_dst (relayed n s d)
        (b, from_src, to_d, h) =
      (
        buffered ++ b,
        ap (λ r. buffered ++ r) from_src
            ∙ sym (append_assoc buffered b (io.pending s))
            ∙ ap (λ r. (buffered ++ b) ++ (r ++ io.pending s)) (sym none_left),
        to_d ∙ ap (λ r. r ++ b) to_dst ∙ append_assoc (io.written dst) buffered b,
        rw none_left (f b s h),
      )
  IsRelayed-IsDelivered body P buffered src dst dst' none_left f to_dst broken h = tt
  IsRelayed-IsDelivered body P buffered src dst dst' none_left f to_dst (closed n s d) h =
      elim h [ ]
  IsRelayed-IsDelivered body P buffered src dst dst' none_left f to_dst out_of_fuel h = h

  module _ (p : Platform) where
    pub relay_all_chunked-IsDelivered :
        (fuel : ℕ) (buffered : Bytes) (buf_len : ℕ) (src dst : S)
        → length (io.pending src) < fuel
        → IsDelivered io chunked buffered src dst
            (relay_all_chunked io p fuel buffered buf_len src dst)
    unfolding relay_all_chunked
    relay_all_chunked-IsDelivered fuel buffered buf_len src dst enough =
        from (send_part io buffered dst) (send_part-IsSent io buffered dst)
      where
        ends :
            (b : Bytes) (s : S)
            → IsTerminated io p.memmem b s
            → IsBodyOf chunked (buffered ++ b) (io.pending s)
        ends b s (inl e) = inl e
        ends b s (inr (before, after, e)) = inr (
          buffered ++ before,
          after,
          ap (λ r. buffered ++ r) e ∙ sym (append_assoc buffered before (terminator ++ after)),
        )

        from :
            (o : Option S)
            → IsSent io buffered dst o
            → IsDelivered io chunked buffered src dst (elim o as (λ _. Relayed S) [
              | none ↦ broken
              | some d ↦ relay_chunked io p.memmem fuel buf_len src d
            ])
        from none h = tt
        from (some d) h =
            IsRelayed-IsDelivered chunked (IsTerminated io p.memmem) buffered src dst d refl ends h
              (relay_chunked io p.memmem fuel buf_len src d)
              (relay_chunked-IsTerminated io p.memmem p.memmem_lem fuel buf_len src d enough)

    relay_until_close-IsDelivered :
        (fuel : ℕ) (buffered : Bytes) (buf_len : ℕ) (src dst : S)
        → length (io.pending src) < fuel
        → IsDelivered io until_close buffered src dst
            (relay_body io p fuel until_close buffered buf_len src dst)
    unfolding relay_body
    relay_until_close-IsDelivered fuel buffered buf_len src dst enough =
        from (send_part io buffered dst) (send_part-IsSent io buffered dst)
      where
        from :
            (o : Option S)
            → IsSent io buffered dst o
            → IsDelivered io until_close buffered src dst (elim o as (λ _. Relayed S) [
              | none ↦ broken
              | some d ↦ relay_until_close io fuel buf_len src d
            ])
        from none h = tt
        from (some d) h =
            IsRelayed-IsDelivered until_close (λ b s. io.pending s ≡ []) buffered src dst d refl
              (λ b s e. e) h (relay_until_close io fuel buf_len src d)
              (relay_until_close-IsRelayed io fuel buf_len src d enough)

    -- C
    pub relay_body-IsDelivered :
        (fuel : ℕ) (body : BodyLength) (buffered : Bytes) (buf_len : ℕ) (src dst : S)
        → length (io.pending src) < fuel
        → IsDelivered io body buffered src dst (relay_body io p fuel body buffered buf_len src dst)
    unfolding relay_body
    relay_body-IsDelivered fuel empty buffered buf_len src dst enough =
        ([], refl, sym (append-nil (io.written dst)), refl)
    relay_body-IsDelivered fuel (fixed len) buffered buf_len src dst enough =
        relay_fixed-IsDelivered io len buffered buf_len src dst
    relay_body-IsDelivered fuel chunked buffered buf_len src dst enough =
        relay_all_chunked-IsDelivered fuel buffered buf_len src dst enough
    relay_body-IsDelivered fuel until_close buffered buf_len src dst enough =
        relay_until_close-IsDelivered fuel buffered buf_len src dst enough
