-- ===== src/Server/Exact.antt =====
-- What the relay loops deliver.
use tuletorn.Common.{
  min, ℕ, zero, suc, ◌+◌, ◌-◌, ◌≡◌, ◌≤◌, ◌<◌, refl, ap, sym, ◌∙◌, Bool, true, false, Option, none,
  some, [], ◌∷◌, ◌++◌, append_assoc, if◌then◌else◌, length, length-append, is_some, arith,
  append-nil,
}
use tuletorn.Common.Bytes.{Bytes}
use tuletorn.Server.{Stream}
use tuletorn.Server.Relay.{
  Relayed, relayed, broken, closed, out_of_fuel, Pass, moved, ended, failed, widened, write_read,
  pass, exact_from, relay_exact,
}

module _ {S : Type 0} (io : Stream S) where
  -- A pass delivers what it reads, in order, and ends where nothing is left to read.
  abbrev pub IsPass : (want : ℕ) → (src dst : S) → Pass S → Type 0
  IsPass want src dst (moved b src' dst') =
      (0 < length b)
      × (length b ≤ want)
      × (io.pending src ≡ b ++ io.pending src')
      × (io.written dst' ≡ io.written dst ++ b)
  IsPass want src dst (ended src') = (io.pending src ≡ []) × (io.pending src' ≡ [])
  IsPass want src dst failed = Unit

  pub pass-IsPass : (want : ℕ) (src dst : S) → 0 < want → IsPass want src dst (pass io want src dst)
  unfolding pass
  pass-IsPass want src dst room = from (io.read want src) refl
    where
      from_write :
          (c : ℕ) (b : Bytes) (src' : S) (w : Bool × S)
          → io.write_all (c ∷ b) dst ≡ w
          → io.read want src ≡ (some (c ∷ b), src')
          → IsPass want src dst (if w.0 then moved (c ∷ b) src' w.1 else failed)
      from_write c b src' (true, dst') e f =
          let (le, split) = io.read_lem want src src' (c ∷ b) f in
          (omega arith, le, split, io.write_all_lem (c ∷ b) dst dst' e)
      from_write c b src' (false, dst') e f = tt

      from :
          (r : Option Bytes × S)
          → io.read want src ≡ r
          → IsPass want src dst
              (elim r.0 as (λ _. Pass S) [ none ↦ failed | some b ↦ write_read io b r.1 dst ])
      from (none, src') e = tt
      from (some [], src') e =
          let none_left = io.read_end want src src' e room in
          (none_left, sym (io.read_lem want src src' [] e).1 ∙ none_left)
      from (some (c ∷ b), src') e = from_write c b src' (io.write_all (c ∷ b) dst) refl e

  abbrev pub IsExact : (remaining : ℕ) → (src dst : S) → Relayed S → Type 0
  IsExact remaining src dst (relayed n src' dst') =
      (b : Bytes) × (length b ≡ remaining)
      × (io.pending src ≡ b ++ io.pending src')
      × (io.written dst' ≡ io.written dst ++ b)
  IsExact remaining src dst broken = Unit
  IsExact remaining src dst (closed left src' dst') =
      (0 < left)
      × (length (io.pending src) + left ≡ remaining)
      × (io.written dst' ≡ io.written dst ++ io.pending src)
  IsExact remaining src dst out_of_fuel = ⊥

  -- What was relayed before adds to what is relayed after.
  IsExact-moved :
      (remaining : ℕ) (src src' dst dst' : S) (b : Bytes)
      → length b ≤ remaining
      → io.pending src ≡ b ++ io.pending src'
      → io.written dst' ≡ io.written dst ++ b
      → (x : Relayed S) → IsExact (remaining - length b) src' dst' x
      → IsExact remaining src dst x
  IsExact-moved remaining src src' dst dst' b le from_src to_dst (relayed n s d)
        (c, size, from_s, to_d) =
      (
        b ++ c,
        omega (arith, length-append b c),
        from_src ∙ ap (λ r. b ++ r) from_s ∙ sym (append_assoc b c (io.pending s)),
        to_d ∙ ap (λ r. r ++ c) to_dst ∙ append_assoc (io.written dst) b c,
      )
  IsExact-moved remaining src src' dst dst' b le from_src to_dst broken h = tt
  IsExact-moved remaining src src' dst dst' b le from_src to_dst (closed left s d)
        (pos, size, to_d) =
      (
        pos,
        let total : length (io.pending src) ≡ length b + length (io.pending src') =
              ap length from_src ∙ length-append b (io.pending src') in
            omega arith,
        to_d
            ∙ ap (λ r. r ++ io.pending src') to_dst
            ∙ append_assoc (io.written dst) b (io.pending src')
            ∙ ap (λ r. io.written dst ++ r) (sym from_src),
      )
  IsExact-moved remaining src src' dst dst' b le from_src to_dst out_of_fuel h = elim h [ ]

  exact_from-IsExact :
      (fuel room remaining : ℕ) (src dst : S)
      → remaining ≤ fuel
      → 0 < room
      → IsExact remaining src dst (exact_from io fuel room remaining src dst)
  unfolding exact_from
  exact_from-IsExact fuel room zero src dst enough pos =
      ([], refl, refl, sym (append-nil (io.written dst)))
  exact_from-IsExact zero room (suc remaining) src dst enough pos = absurd (omega arith)
  exact_from-IsExact (suc fuel) room (suc remaining) src dst enough pos =
      from (pass io (min (suc remaining) room) src dst)
        (pass-IsPass (min (suc remaining) room) src dst (ground arith))
        (λ r left s d le more. exact_from-IsExact fuel r left s d le more)
    where
      from :
          (x : Pass S)
          → IsPass (min (suc remaining) room) src dst x
          → ((r left : ℕ) (s d : S)
              → left ≤ fuel
              → 0 < r
              → IsExact left s d (exact_from io fuel r left s d))
          → IsExact (suc remaining) src dst (elim x as (λ _. Relayed S) [
            | failed ↦ broken
            | ended src' ↦ closed (suc remaining) src' dst
            | moved b src' dst' ↦
                exact_from io fuel (io.vec_len room (length b)) (suc remaining - length b) src' dst'
          ])
      from failed h rest = tt
      from (ended src') h rest =
          (omega arith, rw h.0 (omega arith), rw h.0 (sym (append-nil (io.written dst))))
      from (moved b src' dst') (some_bytes, le, from_src, to_dst) rest =
          IsExact-moved (suc remaining) src src' dst dst' b (ground arith) from_src to_dst
            (exact_from io fuel (io.vec_len room (length b)) (suc remaining - length b) src' dst')
            (rest (io.vec_len room (length b)) (suc remaining - length b) src' dst' (omega arith)
              (omega (arith, io.vec_len_lem room (length b))))

  -- Whatever the reads and writes give, the relay of a body of a known length terminates. It ends with
  -- just that many bytes of the source written to the destination, in order, or with an I/O error, or
  -- because the source ended too soon, with all that it sent written and the rest counted.
  pub relay_exact-IsExact :
      (buf_len remaining : ℕ) (src dst : S)
      → IsExact remaining src dst (relay_exact io buf_len remaining src dst)
  unfolding relay_exact
  relay_exact-IsExact buf_len remaining src dst =
      exact_from-IsExact remaining (widened buf_len) remaining src dst (omega arith) (ground arith)

-- A stream without errors.
abbrev pub IsReliable : (S : Type 0) → Stream S → Type 0
IsReliable S io =
    ((want : ℕ) (s : S) → is_some (io.read want s).0 ≡ true)
    × ((b : Bytes) (s : S) → (io.write_all b s).0 ≡ true)

module _ {S : Type 0} (io : Stream S) (sound : IsReliable S io) where
  abbrev IsWhole : Relayed S → Type 0
  IsWhole broken = ⊥
  IsWhole (relayed n s d) = Unit
  IsWhole (closed n s d) = Unit
  IsWhole out_of_fuel = Unit

  abbrev HasPassed : Pass S → Type 0
  HasPassed failed = ⊥
  HasPassed (moved b s d) = Unit
  HasPassed (ended s) = Unit

  pass-HasPassed : (want : ℕ) (src dst : S) → HasPassed (pass io want src dst)
  unfolding pass
  pass-HasPassed want src dst = from (io.read want src) (sound.0 want src)
    where
      from :
          (r : Option Bytes × S)
          → is_some r.0 ≡ true
          → HasPassed
              (elim r.0 as (λ _. Pass S) [ none ↦ failed | some b ↦ write_read io b r.1 dst ])
      from (none, s) e = cc
      from (some [], s) e = tt
      from (some (c ∷ b), s) e = rw (sound.1 (c ∷ b) dst) tt

  exact_from-IsWhole :
      (fuel room remaining : ℕ) (src dst : S) → IsWhole (exact_from io fuel room remaining src dst)
  unfolding exact_from
  exact_from-IsWhole fuel room zero src dst = tt
  exact_from-IsWhole zero room (suc remaining) src dst = tt
  exact_from-IsWhole (suc fuel) room (suc remaining) src dst =
      from (pass io (min (suc remaining) room) src dst)
        (pass-HasPassed (min (suc remaining) room) src dst)
        (λ r left s d. exact_from-IsWhole fuel r left s d)
    where
      from :
          (x : Pass S)
          → HasPassed x
          → ((r left : ℕ) (s d : S) → IsWhole (exact_from io fuel r left s d))
          → IsWhole (elim x as (λ _. Relayed S) [
            | failed ↦ broken
            | ended src' ↦ closed (suc remaining) src' dst
            | moved b src' dst' ↦
                exact_from io fuel (io.vec_len room (length b)) (suc remaining - length b) src' dst'
          ])
      from failed h rest = h
      from (ended src') h rest = tt
      from (moved b src' dst') h rest =
          rest (io.vec_len room (length b)) (suc remaining - length b) src' dst'

  -- Between streams without errors, a source that still sends as many bytes as remain has them all
  -- relayed.
  pub relay_exact_completes :
      (buf_len remaining : ℕ) (src dst : S)
      → remaining ≤ length (io.pending src)
      → (n : ℕ) × (src' : S) × (dst' : S) × (relay_exact io buf_len remaining src dst
          ≡ relayed n src' dst')
  unfolding relay_exact
  relay_exact_completes buf_len remaining src dst enough =
      from (relay_exact io buf_len remaining src dst)
        (relay_exact-IsExact io buf_len remaining src dst)
        (exact_from-IsWhole remaining (widened buf_len) remaining src dst)
    where
      from :
          (x : Relayed S)
          → IsExact io remaining src dst x
          → IsWhole x
          → (n : ℕ) × (src' : S) × (dst' : S) × (x ≡ relayed n src' dst')
      from (relayed n s d) h k = (n, s, d, refl)
      from broken h k = elim k [ ]
      from (closed left s d) h k = absurd (omega (arith, h.0, h.1))
      from out_of_fuel h k = elim h [ ]
