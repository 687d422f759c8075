-- ===== src/Server/Relay.antt =====
-- crates/proxy-monoio/src/server.rs, the loops that relay a body. Each counts its rounds down from the
-- fuel that its caller gives.
use tuletorn.Common.{
  min, ℕ, zero, suc, ◌-◌, Option, none, some, [], ◌∷◌, ◌++◌, if◌then◌else◌, ltb, length,
}
use tuletorn.Common.Bytes.{Bytes, codes}
use tuletorn.Server.{Stream, io_buf_size}

-- A relay that is done gives its vector back, here its length.
pub data Relayed (S : Type 0) : Type 0 where
  relayed : (buf_len : ℕ) (src dst : S) → Relayed S
  -- An error of a read or a write.
  broken : Relayed S
  -- The error "upstream closed with {remaining} body bytes outstanding".
  closed : (remaining : ℕ) (src dst : S) → Relayed S
  out_of_fuel : Relayed S

-- A read and the write of what it gave.
pub data Pass (S : Type 0) : Type 0 where
  moved : Bytes → (src dst : S) → Pass S
  ended : (src : S) → Pass S
  failed : Pass S

-- `if buf.len() < IO_BUF_SIZE { buf.resize(IO_BUF_SIZE, 0) }`
abbrev pub widened : ℕ → ℕ
widened buf_len = if ltb buf_len io_buf_size then io_buf_size else buf_len

abbrev pub terminator : Bytes
terminator = codes "0" ++ 13 ∷ 10 ∷ 13 ∷ 10 ∷ []

module _ {S : Type 0} (io : Stream S) where
  abbrev pub write_read : Bytes → S → (dst : S) → Pass S
  write_read [] src dst = ended src
  write_read (c ∷ b) src dst =
      let (ok, dst') = io.write_all (c ∷ b) dst in if ok then moved (c ∷ b) src dst' else failed

  unfoldable pub pass : (want : ℕ) → (src dst : S) → Pass S
  pass want src dst =
      let (got, src') = io.read want src in
      elim got [ none ↦ failed | some b ↦ write_read b src' dst ]

  unfoldable pub exact_from : (fuel room remaining : ℕ) → (src dst : S) → Relayed S
  exact_from fuel room zero src dst = relayed room src dst
  exact_from zero room (suc remaining) src dst = out_of_fuel
  exact_from (suc fuel) room (suc remaining) src dst =
      elim (pass (min (suc remaining) room) src dst) [
        | failed ↦ broken
        | ended src' ↦ closed (suc remaining) src' dst
        | moved b src' dst' ↦
            exact_from fuel (io.vec_len room (length b)) (suc remaining - length b) src' dst'
      ]

  -- Every round relays a byte at least.
  unfoldable pub relay_exact : (buf_len remaining : ℕ) → (src dst : S) → Relayed S
  unfolding exact_from
  relay_exact buf_len remaining src dst = exact_from remaining (widened buf_len) remaining src dst

  module _ (memmem : (haystack needle : Bytes) → Option ℕ) where
    unfoldable pub chunked_from : (fuel room : ℕ) → (src dst : S) → Relayed S
    unfolding pass
    chunked_from zero room src dst = out_of_fuel
    chunked_from (suc fuel) room src dst = elim (pass (io.room room 0 src) src dst) [
      | failed ↦ broken
      | ended src' ↦ relayed (io.vec_len room 0) src' dst
      | moved b src' dst' ↦ elim (memmem b terminator) [
        | none ↦ chunked_from fuel (io.vec_len room (length b)) src' dst'
        | some _ ↦ relayed (io.vec_len room (length b)) src' dst'
      ]
    ]

    unfoldable pub relay_chunked : (fuel buf_len : ℕ) → (src dst : S) → Relayed S
    unfolding chunked_from
    relay_chunked fuel buf_len src dst = chunked_from fuel (widened buf_len) src dst

  unfoldable pub until_close_from : (fuel room : ℕ) → (src dst : S) → Relayed S
  unfolding pass
  until_close_from zero room src dst = out_of_fuel
  until_close_from (suc fuel) room src dst = elim (pass (io.room room 0 src) src dst) [
    | failed ↦ broken
    | ended src' ↦ relayed (io.vec_len room 0) src' dst
    | moved b src' dst' ↦ until_close_from fuel (io.vec_len room (length b)) src' dst'
  ]

  unfoldable pub relay_until_close : (fuel buf_len : ℕ) → (src dst : S) → Relayed S
  unfolding until_close_from
  relay_until_close fuel buf_len src dst = until_close_from fuel (widened buf_len) src dst
