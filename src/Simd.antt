-- ===== src/Simd.antt =====
-- crates/core/src/simd.rs: byte primitives of the request path. A vector register is a list of
-- lanes, and an intrinsic is its effect on one lane. `memchr` is a third-party crate: its search is
-- a parameter. UTF-8 validation (`simdutf8`) and the CPU probe `has_avx2` are parameters where used.
pub mod Lanes
pub mod CaseFold
pub mod Host
mod Tests
use Prim.Native.Nat.{bit_and, bit_or, bit_xor}
use tuletorn.Common.{
  ℕ, zero, suc, ◌+◌, ◌%◌, ◌≡◌, Bool, true, false, ◌&&◌, Option, none, some, List, [], ◌∷◌, map, leb,
  ltb, ◌==◌, if◌then◌else◌, length, take, drop, ◌++◌,
}
use tuletorn.Common.Bytes.{Bytes, to_ascii_lowercase_byte}

-- The first position of a byte.
unfoldable pub position : ℕ → Bytes → Option ℕ
position b [] = none
position b (c ∷ s) =
    if c == b then some 0 else (elim (position b s) [ none ↦ none | some i ↦ some (i + 1) ])

-- `memchr::memchr` returns the index of the first occurrence.
pub record Memchr : Type 0 where
  pub memchr : ℕ → Bytes → Option ℕ
  pub memchr_lem : (b : ℕ) (s : Bytes) → memchr b s ≡ position b s

unfoldable pub find_byte : Memchr → ℕ → Bytes → Option ℕ
find_byte m needle haystack = m.memchr needle haystack

abbrev pub starts_bracket : Bytes → Bool
starts_bracket [] = false
starts_bracket (c ∷ s) = c == b'['

unfoldable pub host_without_port : Memchr → Bytes → Bytes
unfolding find_byte
host_without_port m host =
    if starts_bracket host
    then (elim (find_byte m b']' host) [ none ↦ host | some close ↦ take (close + 1) host ])
    else (elim (find_byte m b':' host) [ none ↦ host | some pos ↦ take pos host ])

-- `u8::eq_ignore_ascii_case`
abbrev eq_ignore_ascii_case_byte : ℕ → ℕ → Bool
eq_ignore_ascii_case_byte x y = to_ascii_lowercase_byte x == to_ascii_lowercase_byte y

abbrev all_eq_ignore_case : Bytes → Bytes → Bool
all_eq_ignore_case [] b = true
all_eq_ignore_case (x ∷ a) [] = true
all_eq_ignore_case (x ∷ a) (y ∷ b) = eq_ignore_ascii_case_byte x y && all_eq_ignore_case a b

unfoldable pub eq_ignore_ascii_case_scalar : Bytes → Bytes → Bool
unfolding to_ascii_lowercase_byte
eq_ignore_ascii_case_scalar a b = length a == length b && all_eq_ignore_case a b

-- One lane of NEON: `vorrq(v, vandq(vandq(vcgeq(v, 'A'), vcleq(v, 'Z')), 0x20))`.
mask : Bool → ℕ
mask true = 0xff
mask false = 0

pub fold_neon : ℕ → ℕ
unfolding mask
fold_neon v = bit_or v (bit_and (bit_and (mask (leb b'A' v)) (mask (leb v b'Z'))) 0x20)

-- `cmpgt_epi8` compares lanes as signed bytes.
cmpgt_epi8 : ℕ → ℕ → ℕ
unfolding mask
cmpgt_epi8 a b = mask (ltb ((b + 128) % 256) ((a + 128) % 256))

-- One lane of SSE2 and AVX2: the range test on bytes biased by 0x80, then the case bit.
pub fold_x86 : ℕ → ℕ
unfolding cmpgt_epi8
fold_x86 v =
    let s = bit_xor v 0x80 in
    let lo = (bit_xor b'A' 0x80 + 255) % 256 in
    let hi = (bit_xor b'Z' 0x80 + 1) % 256 in
    bit_or v (bit_and (bit_and (cmpgt_epi8 s lo) (cmpgt_epi8 hi s)) 0x20)

-- `_mm_movemask_epi8(_mm_cmpeq_epi8(la, lb)) != -1` is false: all lanes are equal.
lanes_equal : (ℕ → ℕ) → Bytes → Bytes → Bool
lanes_equal fold [] b = true
lanes_equal fold (x ∷ a) [] = true
lanes_equal fold (x ∷ a) (y ∷ b) = fold x == fold y && lanes_equal fold a b

-- `while i + width <= len`, then the scalar routine on the rest. Every round drops `width` bytes, so
-- the length is fuel enough.
pub eq_chunks : (ℕ → ℕ) → (width fuel : ℕ) → Bytes → Bytes → Bool
eq_chunks fold width zero a b = eq_ignore_ascii_case_scalar a b
eq_chunks fold width (suc fuel) a b =
    let rest = eq_chunks fold width fuel (drop width a) (drop width b) in
    if leb width (length a)
    then lanes_equal fold (take width a) (take width b) && rest
    else eq_ignore_ascii_case_scalar a b

pub eq_ignore_ascii_case_neon : Bytes → Bytes → Bool
unfolding eq_chunks fold_neon lanes_equal eq_ignore_ascii_case_scalar
eq_ignore_ascii_case_neon a b = eq_chunks fold_neon 16 (length a) a b

pub eq_ignore_ascii_case_avx2 : Bytes → Bytes → Bool
unfolding eq_chunks fold_x86 lanes_equal eq_ignore_ascii_case_scalar
eq_ignore_ascii_case_avx2 a b = eq_chunks fold_x86 32 (length a) a b

pub eq_ignore_ascii_case_sse2 : Bytes → Bytes → Bool
unfolding eq_chunks fold_x86 lanes_equal eq_ignore_ascii_case_scalar
eq_ignore_ascii_case_sse2 a b = eq_chunks fold_x86 16 (length a) a b

-- The build's `target_arch`.
pub data Arch : Type 0 where
  aarch64 x86_64 other : Arch

vector_eq : Arch → (avx2 : Bool) → Bytes → Bytes → Bool
unfolding eq_ignore_ascii_case_neon eq_ignore_ascii_case_avx2 eq_ignore_ascii_case_sse2
vector_eq aarch64 avx2 a b = eq_ignore_ascii_case_neon a b
vector_eq x86_64 avx2 a b =
    if avx2 then eq_ignore_ascii_case_avx2 a b else eq_ignore_ascii_case_sse2 a b
vector_eq other avx2 a b = eq_ignore_ascii_case_scalar a b

-- `avx2` is the answer of the cached CPU probe.
unfoldable pub eq_ignore_ascii_case : Arch → (avx2 : Bool) → Bytes → Bytes → Bool
unfolding vector_eq
eq_ignore_ascii_case arch avx2 a b = if length a == length b then vector_eq arch avx2 a b else false

-- The lowercasing loops: whole registers first, then the scalar rest.
pub lowercase_chunks : (ℕ → ℕ) → (width fuel : ℕ) → Bytes → Bytes
lowercase_chunks fold width zero buf = map to_ascii_lowercase_byte buf
lowercase_chunks fold width (suc fuel) buf =
    let rest = lowercase_chunks fold width fuel (drop width buf) in
    if leb width (length buf)
    then map fold (take width buf) ++ rest
    else map to_ascii_lowercase_byte buf

pub lowercase_ascii_neon : Bytes → Bytes
unfolding lowercase_chunks fold_neon to_ascii_lowercase_byte
lowercase_ascii_neon buf = lowercase_chunks fold_neon 16 (length buf) buf

pub lowercase_ascii_sse2 : Bytes → Bytes
unfolding lowercase_chunks fold_x86 to_ascii_lowercase_byte
lowercase_ascii_sse2 buf = lowercase_chunks fold_x86 16 (length buf) buf

lowercase_vector : Arch → Bytes → Bytes
unfolding lowercase_ascii_neon lowercase_ascii_sse2
lowercase_vector aarch64 buf = lowercase_ascii_neon buf
lowercase_vector x86_64 buf = lowercase_ascii_sse2 buf
lowercase_vector other buf = map to_ascii_lowercase_byte buf

-- `dst` is a buffer of `capacity` bytes; the result is the written part.
unfoldable pub lowercase_ascii_into : Arch → (capacity : ℕ) → Bytes → Option Bytes
unfolding lowercase_vector
lowercase_ascii_into arch capacity src =
    if ltb capacity (length src) then none else some (lowercase_vector arch src)
