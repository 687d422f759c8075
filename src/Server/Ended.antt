-- ===== src/Server/Ended.antt =====
-- What the relay loops without a known length deliver, with a round for each byte and one more.
use tuletorn.Common.{
  ℕ, zero, suc, ◌+◌, ◌≡◌, ◌<◌, refl, ap, sym, ◌∙◌, inl, inr, ◌⊎◌, Option, none, some, [], ◌++◌,
  append_assoc, length, length-append, arith, append-nil, take,
}
use tuletorn.Common.Bytes.{Bytes}
use tuletorn.Common.Bytes.Search.{append_of_find_sub}
use tuletorn.Common.Bytes.Text.{find_sub}
use tuletorn.Server.{Stream}
use tuletorn.Server.Exact.{IsPass, pass-IsPass}
use tuletorn.Server.Relay.{
  Relayed, relayed, broken, closed, out_of_fuel, Pass, moved, ended, failed, widened, pass,
  relay_chunked, relay_until_close, chunked_from, until_close_from, terminator,
}

module _ {S : Type 0} (io : Stream S) where
  -- A part of what the source sends was written, in order, of which `P` holds together with the source's
  -- state.
  abbrev pub IsRelayed : (P : Bytes → S → Type 0) → (src dst : S) → Relayed S → Type 0
  IsRelayed P src dst (relayed n src' dst') =
      (b : Bytes) × (io.pending src ≡ b ++ io.pending src')
      × (io.written dst' ≡ io.written dst ++ b)
      × P b src'
  IsRelayed P src dst broken = Unit
  IsRelayed P src dst (closed n s d) = ⊥
  IsRelayed P src dst out_of_fuel = ⊥

  IsRelayed-moved :
      (P : Bytes → S → Type 0) (src src' dst dst' : S) (b : Bytes)
      → ((c : Bytes) (s : S) → P c s → P (b ++ c) s)
      → io.pending src ≡ b ++ io.pending src'
      → io.written dst' ≡ io.written dst ++ b
      → (x : Relayed S) → IsRelayed P src' dst' x
      → IsRelayed P src dst x
  IsRelayed-moved P src src' dst dst' b grows from_src to_dst (relayed n s d) (c, from_s, to_d, h) =
      (
        b ++ c,
        from_src ∙ ap (λ r. b ++ r) from_s ∙ sym (append_assoc b c (io.pending s)),
        to_d ∙ ap (λ r. r ++ c) to_dst ∙ append_assoc (io.written dst) b c,
        grows c s h,
      )
  IsRelayed-moved P src src' dst dst' b grows from_src to_dst broken h = tt
  IsRelayed-moved P src src' dst dst' b grows from_src to_dst (closed n s d) h = h
  IsRelayed-moved P src src' dst dst' b grows from_src to_dst out_of_fuel h = h

  IsRelayed-mono :
      (P Q : Bytes → S → Type 0) (src dst : S)
      → ((b : Bytes) (s : S) → P b s → Q b s)
      → (x : Relayed S) → IsRelayed P src dst x
      → IsRelayed Q src dst x
  IsRelayed-mono P Q src dst f (relayed n s d) (b, from_src, to_dst, h) =
      (b, from_src, to_dst, f b s h)
  IsRelayed-mono P Q src dst f broken h = tt
  IsRelayed-mono P Q src dst f (closed n s d) h = h
  IsRelayed-mono P Q src dst f out_of_fuel h = h

module _ {S : Type 0} (io : Stream S) (memmem : (haystack needle : Bytes) → Option ℕ) where
  -- The last read is one in which the search found the terminator.
  abbrev IsHit : Bytes → Type 0
  IsHit b =
      (before : Bytes) × (last : Bytes) × (i : ℕ) × (b ≡ before ++ last)
      × (memmem last terminator ≡ some i)

  abbrev StopsOrEnds : Bytes → S → Type 0
  StopsOrEnds b s = (io.pending s ≡ []) ⊎ IsHit b

  stops_later : (b c : Bytes) (s : S) → StopsOrEnds c s → StopsOrEnds (b ++ c) s
  stops_later b c s (inl e) = inl e
  stops_later b c s (inr (before, last, i, e, f)) =
      inr (b ++ before, last, i, ap (λ r. b ++ r) e ∙ sym (append_assoc b before last), f)

  chunked_from-IsRelayed :
      (fuel room : ℕ) (src dst : S)
      → length (io.pending src) < fuel
      → 0 < room
      → IsRelayed io StopsOrEnds src dst (chunked_from io memmem fuel room src dst)
  unfolding chunked_from
  chunked_from-IsRelayed zero room src dst enough pos = absurd (omega arith)
  chunked_from-IsRelayed (suc fuel) room src dst enough pos =
      from (pass io (io.room room 0 src) src dst)
        (pass-IsPass io (io.room room 0 src) src dst (omega (arith, io.room_lem room 0 src)))
        (λ r s d le more. chunked_from-IsRelayed fuel r s d le more)
    where
      from_search :
          (b : Bytes) (src' dst' : S) (o : Option ℕ)
          → memmem b terminator ≡ o
          → IsPass io (io.room room 0 src) src dst (moved b src' dst')
          → ((r : ℕ) (s d : S)
              → length (io.pending s) < fuel
              → 0 < r
              → IsRelayed io StopsOrEnds s d (chunked_from io memmem fuel r s d))
          → IsRelayed io StopsOrEnds src dst (elim o as (λ _. Relayed S) [
            | none ↦ chunked_from io memmem fuel (io.vec_len room (length b)) src' dst'
            | some _ ↦ relayed (io.vec_len room (length b)) src' dst'
          ])
      from_search b src' dst' none e (pos, le, from_src, to_dst) rest =
          let total : length (io.pending src) ≡ length b + length (io.pending src') =
            ap length from_src ∙ length-append b (io.pending src') in
          IsRelayed-moved io StopsOrEnds src src' dst dst' b (stops_later b) from_src to_dst
            (chunked_from io memmem fuel (io.vec_len room (length b)) src' dst')
            (rest (io.vec_len room (length b)) src' dst' (omega arith)
              (omega (arith, io.vec_len_lem room (length b))))
      from_search b src' dst' (some i) e (pos, le, from_src, to_dst) rest =
          (b, from_src, to_dst, inr ([], b, i, refl, e))

      from :
          (x : Pass S)
          → IsPass io (io.room room 0 src) src dst x
          → ((r : ℕ) (s d : S)
              → length (io.pending s) < fuel
              → 0 < r
              → IsRelayed io StopsOrEnds s d (chunked_from io memmem fuel r s d))
          → IsRelayed io StopsOrEnds src dst (elim x as (λ _. Relayed S) [
            | failed ↦ broken
            | ended src' ↦ relayed (io.vec_len room 0) src' dst
            | moved b src' dst' ↦ elim (memmem b terminator) as (λ _. Relayed S) [
              | none ↦ chunked_from io memmem fuel (io.vec_len room (length b)) src' dst'
              | some _ ↦ relayed (io.vec_len room (length b)) src' dst'
            ]
          ])
      from failed h rest = tt
      from (ended src') (e, f) rest = ([], e ∙ sym f, sym (append-nil (io.written dst)), inl f)
      from (moved b src' dst') h rest = from_search b src' dst' (memmem b terminator) refl h rest

  relay_chunked-IsRelayed :
      (fuel buf_len : ℕ) (src dst : S)
      → length (io.pending src) < fuel
      → IsRelayed io StopsOrEnds src dst (relay_chunked io memmem fuel buf_len src dst)
  unfolding relay_chunked
  relay_chunked-IsRelayed fuel buf_len src dst enough =
      chunked_from-IsRelayed fuel (widened buf_len) src dst enough (ground arith)

  -- The text has the terminator in it, or the source has ended.
  abbrev pub IsTerminated : Bytes → S → Type 0
  IsTerminated b s =
      (io.pending s ≡ [])
      ⊎ ((before : Bytes) × (after : Bytes) × (b ≡ before ++ (terminator ++ after)))

  -- Where the search finds a first occurrence: with a round for each byte that the source still sends and
  -- one more, the relay of a chunked body terminates. Without an I/O error it has written a part of what
  -- the source sends, in order, and either the source has ended or that part has the bytes of the last
  -- chunk's end in it.
  pub relay_chunked-IsTerminated :
      ((h n : Bytes) → memmem h n ≡ find_sub h n)
      → (fuel buf_len : ℕ) (src dst : S) → length (io.pending src) < fuel
      → IsRelayed io IsTerminated src dst (relay_chunked io memmem fuel buf_len src dst)
  relay_chunked-IsTerminated first fuel buf_len src dst enough =
      IsRelayed-mono io StopsOrEnds IsTerminated src dst found
        (relay_chunked io memmem fuel buf_len src dst)
        (relay_chunked-IsRelayed fuel buf_len src dst enough)
    where
      found : (b : Bytes) (s : S) → StopsOrEnds b s → IsTerminated b s
      found b s (inl e) = inl e
      found b s (inr (before, last, i, e, f)) =
          let (after, split) =
            append_of_find_sub last terminator i (sym (first last terminator) ∙ f) in
          inr (
            before ++ take i last,
            after,
            e
                ∙ ap (λ r. before ++ r) split
                ∙ sym (append_assoc before (take i last) (terminator ++ after)),
          )

module _ {S : Type 0} (io : Stream S) where
  until_close_from-chunked :
      (fuel room : ℕ) (src dst : S)
      → until_close_from io fuel room src dst ≡ chunked_from io (λ h n. none) fuel room src dst
  unfolding until_close_from chunked_from
  until_close_from-chunked zero room src dst = refl
  until_close_from-chunked (suc fuel) room src dst =
      from (pass io (io.room room 0 src) src dst) (λ r s d. until_close_from-chunked fuel r s d)
    where
      from :
          (x : Pass S)
          → ((r : ℕ) (s d : S)
              → until_close_from io fuel r s d ≡ chunked_from io (λ h n. none) fuel r s d)
          → (elim x as (λ _. Relayed S) [
            | failed ↦ broken
            | ended src' ↦ relayed (io.vec_len room 0) src' dst
            | moved b src' dst' ↦ until_close_from io fuel (io.vec_len room (length b)) src' dst'
          ])
            ≡ (elim x as (λ _. Relayed S) [
              | failed ↦ broken
              | ended src' ↦ relayed (io.vec_len room 0) src' dst
              | moved b src' dst' ↦
                  chunked_from io (λ h n. none) fuel (io.vec_len room (length b)) src' dst'
            ])
      from failed rest = refl
      from (ended src') rest = refl
      from (moved b src' dst') rest = rest (io.vec_len room (length b)) src' dst'

  relay_until_close-chunked :
      (fuel buf_len : ℕ) (src dst : S)
      → relay_until_close io fuel buf_len src dst
        ≡ relay_chunked io (λ h n. none) fuel buf_len src dst
  unfolding relay_until_close relay_chunked
  relay_until_close-chunked fuel buf_len src dst =
      until_close_from-chunked fuel (widened buf_len) src dst

  -- With a round for each byte that the source still sends and one more, the relay until the source closes
  -- terminates. Without an I/O error, everything that the source sends was written, in order.
  pub relay_until_close-IsRelayed :
      (fuel buf_len : ℕ) (src dst : S)
      → length (io.pending src) < fuel
      → IsRelayed io (λ b s. io.pending s ≡ []) src dst (relay_until_close io fuel buf_len src dst)
  relay_until_close-IsRelayed fuel buf_len src dst enough =
      rw (relay_until_close-chunked fuel buf_len src dst) (
        IsRelayed-mono io (StopsOrEnds io (λ h n. none)) (λ b s. io.pending s ≡ []) src dst no_hit
          (relay_chunked io (λ h n. none) fuel buf_len src dst)
          (relay_chunked-IsRelayed io (λ h n. none) fuel buf_len src dst enough))
    where
      no_hit : (b : Bytes) (s : S) → StopsOrEnds io (λ h n. none) b s → io.pending s ≡ []
      no_hit b s (inl e) = e
      no_hit b s (inr (before, last, i, e, f)) = cc
