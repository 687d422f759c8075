-- ===== src/Server/Replay.antt =====
-- What a stream with a prefix reads, and what the test for HTTP/2 decides.
use tuletorn.Common.{
  length-drop, min, ℕ, ◌+◌, ◌-◌, ◌≡◌, ◌≤◌, ◌<◌, refl, ap, sym, ◌∙◌, inl, inr, ◌⊎◌, true, false,
  Option, none, some, [], ◌∷◌, ◌++◌, append_assoc, ltb, length, take, drop, Bool-cases, arith,
}
use tuletorn.Common.Bytes.{Bytes}
use tuletorn.Server.{Stream}
use tuletorn.Common.Bytes.Parts.{length-take, take_and_rest, drop-add, drop_all}
use tuletorn.Server.Preface.{PrefixedIo, poll_read}

module _ {S : Type 0} (io : Stream S) where
  -- The prefix that is left, and then the stream.
  abbrev pub pending_of : PrefixedIo S → Bytes
  pending_of s = drop s.position s.prefix ++ io.pending s.inner

  -- What was asked for at most, from the front, and something unless nothing is left.
  abbrev pub IsRead : (want : ℕ) → (s s' : PrefixedIo S) → Bytes → Type 0
  IsRead want s s' b =
      (length b ≤ want)
      × (pending_of s ≡ b ++ pending_of s')
      × ((0 < length b) ⊎ (pending_of s ≡ []))

  abbrev Gives : (want : ℕ) → (s : PrefixedIo S) → Option Bytes × PrefixedIo S → Type 0
  Gives want s (none, s') = Unit
  Gives want s (some b, s') = IsRead want s s' b

  from_prefix :
      (want : ℕ) (s : PrefixedIo S)
      → 0 < want
      → s.position < length s.prefix
      → Gives want s (poll_read io want s)
  unfolding poll_read
  from_prefix want s room inside =
      let available = drop s.position s.prefix in
      let n = min (length available) want in
      let left : length available ≡ length s.prefix - s.position =
        length-drop s.position s.prefix in
      let size : length (take n available) ≡ min (length available) n = length-take n available in
      let test : ltb s.position (length s.prefix) ≡ true = ground arith in
      rw test (
        ground arith,
        ap (λ r. r ++ io.pending s.inner)
              (take_and_rest n available
                ∙ ap (λ r. take n available ++ r) (sym (drop-add s.position n s.prefix)))
            ∙ append_assoc (take n available) (drop (s.position + n) s.prefix) (io.pending s.inner),
        inl (ground arith),
      )

  from_inner :
      (want : ℕ) (s : PrefixedIo S)
      → 0 < want
      → length s.prefix ≤ s.position
      → Gives want s (poll_read io want s)
  unfolding poll_read
  from_inner want s room outside =
      let test : ltb s.position (length s.prefix) ≡ false = ground arith in
      rw test (given (io.read want s.inner) refl)
    where
      behind : drop s.position s.prefix ≡ []
      behind = drop_all s.position s.prefix outside

      given :
          (r : Option Bytes × S)
          → io.read want s.inner ≡ r
          → Gives want s (r.0, record s { inner = r.1 })
      given (none, i) e = tt
      given (some [], i) e =
          let (le, split) = io.read_lem want s.inner i [] e in
          let none_left = io.read_end want s.inner i e room in
          (
            omega arith,
            ap (λ r. drop s.position s.prefix ++ r) split,
            inr (rw (behind, none_left) refl),
          )
      given (some (c ∷ b), i) e =
          let (le, split) = io.read_lem want s.inner i (c ∷ b) e in
          (le, rw behind split, inl (omega arith))

  poll_read-Gives : (want : ℕ) (s : PrefixedIo S) → 0 < want → Gives want s (poll_read io want s)
  poll_read-Gives want s room = elim (Bool-cases (ltb s.position (length s.prefix))) [
    | inl e ↦ from_prefix want s room (ground arith)
    | inr e ↦ from_inner want s room (ground arith)
  ]

  -- A read from the stream that replays the sniffed bytes gives the bytes that are left of them, and then
  -- those of the socket, in order: not more than there is room for, and something unless nothing is left.
  pub poll_read-IsRead :
      (want : ℕ) (s s' : PrefixedIo S) (b : Bytes)
      → 0 < want
      → poll_read io want s ≡ (some b, s')
      → IsRead want s s' b
  poll_read-IsRead want s s' b room e = rw e at (poll_read-Gives want s room)
