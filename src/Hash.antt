-- ===== src/Hash.antt =====
-- crates/core/src/hash.rs: the multiply-rotate hash of a byte string on `u64`, with the wrap-around
-- written out. `from_ne_bytes` reads bytes with the lowest first, as the program's targets do.
pub mod Words
mod Tests
use Prim.Native.Nat.{bit_xor}
use tuletorn.Common.{
  ℕ, zero, suc, ◌+◌, ◌*◌, ◌/◌, ◌%◌, ◌^◌, List, [], ◌∷◌, if◌then◌else◌, leb, length, take, drop,
}
use tuletorn.Common.Bytes.{Bytes}

abbrev pub seed : ℕ
seed = 0x517cc1b727220a95

-- `self.hash.rotate_left(5)`: the upper 5 of the 64 bits come in below.
abbrev pub rotate_left_5 : ℕ → ℕ
rotate_left_5 hash = hash * 2 ^ 5 % 2 ^ 64 + hash / 2 ^ 59

pub add_to_hash : (hash word : ℕ) → ℕ
add_to_hash hash word = bit_xor (rotate_left_5 hash) word * seed % 2 ^ 64

abbrev pub from_ne_bytes : Bytes → ℕ
from_ne_bytes [] = 0
from_ne_bytes (c ∷ s) = c + 256 * from_ne_bytes s

-- `while let Some((chunk, tail)) = rest.split_first_chunk::<8>()`: the hash and the rest. Every round
-- takes 8 bytes, so the length is fuel enough.
pub fold_8 : (fuel : ℕ) → ℕ → Bytes → ℕ × Bytes
unfolding add_to_hash
fold_8 zero hash rest = (hash, rest)
fold_8 (suc fuel) hash rest =
    let next = fold_8 fuel (add_to_hash hash (from_ne_bytes (take 8 rest))) (drop 8 rest) in
    if leb 8 (length rest) then next else (hash, rest)

-- `if let Some((chunk, tail)) = rest.split_first_chunk::<width>()`; for the last byte, `first`.
pub fold_once : (width : ℕ) → ℕ × Bytes → ℕ × Bytes
unfolding add_to_hash
fold_once width (hash, rest) =
    if leb width (length rest)
    then (add_to_hash hash (from_ne_bytes (take width rest)), drop width rest)
    else (hash, rest)

unfoldable pub write : (hash : ℕ) → Bytes → ℕ
unfolding fold_8 fold_once
write hash bytes =
    (fold_once 1
      (fold_once 2 (fold_once 4 (fold_8 (length bytes) (add_to_hash hash (length bytes)) bytes)))).0

unfoldable pub hash_of : Bytes → ℕ
unfolding write
hash_of bytes = write seed bytes

-- The writes of single numbers, each of which folds one word.
unfoldable pub write_u8 : (hash i : ℕ) → ℕ
unfolding add_to_hash
write_u8 hash i = add_to_hash hash i

unfoldable pub write_u64 : (hash i : ℕ) → ℕ
unfolding add_to_hash
write_u64 hash i = add_to_hash hash i

unfoldable pub write_usize : (hash i : ℕ) → ℕ
unfolding add_to_hash
write_usize hash i = add_to_hash hash i
