-- ===== src/Server/Delivered.antt =====
-- What it means that a body was delivered, and a body of a known length.
use tuletorn.Common.{
  min, ℕ, ◌+◌, ◌-◌, ◌≡◌, ◌≤◌, ◌<◌, refl, ap, subst, sym, ◌∙◌, inl, inr, ◌⊎◌, Bool, true, false,
  Option, none, some, [], ◌∷◌, ◌++◌, append_assoc, append-nil, length, length-append, arith, take,
  drop, Bool-cases, if◌then◌else◌, ◌==◌,
}
use tuletorn.Common.Bytes.{Bytes}
use tuletorn.Common.Bytes.Parts.{take_and_rest, take_all, length-take, drop_all}
use tuletorn.Http1.{BodyLength, fixed, chunked, until_close, empty}
use tuletorn.Server.{Stream}
use tuletorn.Server.Exact.{IsExact, relay_exact-IsExact}
use tuletorn.Server.Relay.{Relayed, relayed, broken, closed, out_of_fuel, relay_exact, terminator}
use tuletorn.Server.Response.{send, send_part, relay_fixed}

-- The bytes that are buffered behind a body.
abbrev pub left_of : BodyLength → (buffered : Bytes) → Bytes
left_of empty buffered = buffered
left_of (fixed n) buffered = drop n buffered
left_of chunked buffered = []
left_of until_close buffered = []

-- The bytes that a framing allows: `rest` is what the source still sends behind them.
abbrev pub IsBodyOf : BodyLength → (b rest : Bytes) → Type 0
IsBodyOf empty b rest = b ≡ []
IsBodyOf (fixed n) b rest = length b ≡ n
IsBodyOf chunked b rest =
    (rest ≡ []) ⊎ ((before : Bytes) × (after : Bytes) × (b ≡ before ++ (terminator ++ after)))
IsBodyOf until_close b rest = rest ≡ []

-- Too little was sent for a length, by `n` bytes.
abbrev pub IsShort : BodyLength → (sent n : ℕ) → Type 0
IsShort (fixed len) sent n = (0 < n) × (sent + n ≡ len)
IsShort empty sent n = ⊥
IsShort chunked sent n = ⊥
IsShort until_close sent n = ⊥

module _ {S : Type 0} (io : Stream S) where
  abbrev pub IsSent : Bytes → S → Option S → Type 0
  IsSent b s none = Unit
  IsSent b s (some s') = io.written s' ≡ io.written s ++ b

  pub send-IsSent : (b : Bytes) (s : S) → IsSent b s (send io b s)
  unfolding send
  send-IsSent b s = from (io.write_all b s) refl
    where
      from : (w : Bool × S) → io.write_all b s ≡ w → IsSent b s (if w.0 then some w.1 else none)
      from (true, s') e = io.write_all_lem b s s' e
      from (false, s') e = tt

  pub send_part-IsSent : (b : Bytes) (s : S) → IsSent b s (send_part io b s)
  send_part-IsSent [] s = sym (append-nil (io.written s))
  send_part-IsSent (c ∷ b) s = send-IsSent (c ∷ b) s

  -- Of a message with this framing, whose body starts with the bytes that are buffered.
  abbrev pub IsDelivered : BodyLength → (buffered : Bytes) (src dst : S) → Relayed S → Type 0
  IsDelivered body buffered src dst (relayed n src' dst') =
      (b : Bytes) × (buffered ++ io.pending src ≡ b ++ (left_of body buffered ++ io.pending src'))
      × (io.written dst' ≡ io.written dst ++ b)
      × IsBodyOf body b (left_of body buffered ++ io.pending src')
  IsDelivered body buffered src dst broken = Unit
  IsDelivered body buffered src dst (closed n s d) =
      IsShort body (length (buffered ++ io.pending src)) n
  IsDelivered body buffered src dst out_of_fuel = ⊥

  buffered_first :
      (len : ℕ) (buffered : Bytes) (src dst dst' : S)
      → length buffered ≤ len
      → io.written dst' ≡ io.written dst ++ buffered
      → (x : Relayed S) → IsExact io (len - length buffered) src dst' x
      → IsDelivered (fixed len) buffered src dst x
  buffered_first len buffered src dst dst' le to_dst (relayed n s d) (b, size, from_src, to_d) = (
    buffered ++ b,
    ap (λ r. buffered ++ r) from_src
        ∙ sym (append_assoc buffered b (io.pending s))
        ∙ ap (λ r. (buffered ++ b) ++ (r ++ io.pending s)) (sym (drop_all len buffered le)),
    to_d ∙ ap (λ r. r ++ b) to_dst ∙ append_assoc (io.written dst) buffered b,
    omega (arith, length-append buffered b),
  )
  buffered_first len buffered src dst dst' le to_dst broken h = tt
  buffered_first len buffered src dst dst' le to_dst (closed n s d) (pos, size, to_d) =
      (pos, omega (arith, length-append buffered (io.pending src)))
  buffered_first len buffered src dst dst' le to_dst out_of_fuel h = h

  pub relay_fixed-IsDelivered :
      (len : ℕ) (buffered : Bytes) (buf_len : ℕ) (src dst : S)
      → IsDelivered (fixed len) buffered src dst (relay_fixed io len buffered buf_len src dst)
  unfolding relay_fixed
  relay_fixed-IsDelivered len buffered buf_len src dst =
      from (send_part io (take already buffered) dst) (send_part-IsSent (take already buffered) dst)
    where
      already : ℕ
      already = min (length buffered) len

      size : length (take already buffered) ≡ already
      size = let h = length-take already buffered in ground arith

      sent_on :
          (d : S)
          → io.written d ≡ io.written dst ++ take already buffered
          → IsDelivered (fixed len) buffered src dst (
              if len - already == 0
              then relayed buf_len src d
              else relay_exact io buf_len (len - already) src d)
      sent_on d to_dst = elim (Bool-cases (len - already == 0)) [
        | inl e ↦
            let whole : already ≡ len = ground arith in
            rw e (
              take already buffered,
              ap (λ r. r ++ io.pending src) (take_and_rest already buffered)
                  ∙ append_assoc (take already buffered) (drop already buffered) (io.pending src)
                  ∙ ap (λ n. take already buffered ++ (drop n buffered ++ io.pending src)) whole,
              to_dst,
              size ∙ ground arith,
            )
        | inr e ↦
            let all : already ≡ length buffered = ground arith in
            rw e (
              buffered_first len buffered src dst d (ground arith)
                (to_dst
                  ∙ ap (λ r. io.written dst ++ r)
                      (ap (λ n. take n buffered) all ∙ take_all buffered))
                (relay_exact io buf_len (len - already) src d)
                (subst
                  (λ n. IsExact io (len - n) src d (relay_exact io buf_len (len - already) src d))
                  all (relay_exact-IsExact io buf_len (len - already) src d)))
      ]

      from :
          (o : Option S)
          → IsSent (take already buffered) dst o
          → IsDelivered (fixed len) buffered src dst (elim o as (λ _. Relayed S) [
            | none ↦ broken
            | some dst' ↦
                if len - already == 0
                then relayed buf_len src dst'
                else relay_exact io buf_len (len - already) src dst'
          ])
      from none h = tt
      from (some d) h = sent_on d h
