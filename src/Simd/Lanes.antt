-- ===== src/Simd/Lanes.antt =====
-- The vector lanes fold case as the scalar `to_ascii_lowercase` does, for each of the 256 bytes.
use native.Mathlib.Decide.{ℕ_discrete}
use tuletorn.Common.{ℕ, zero, suc, ◌<◌, ◌≡◌, refl, Bool, true, ◌&&◌, arith, ◌==◌}
use tuletorn.Common.Bytes.{to_ascii_lowercase_byte}
use tuletorn.Simd.{fold_neon, fold_x86}

-- Two functions agree on the first `n` numbers.
agree : (f g : ℕ → ℕ) → ℕ → Bool
agree f g zero = true
agree f g (suc n) = agree f g n && f n == g n

eq_of_agree : (f g : ℕ → ℕ) (n : ℕ) → agree f g n ≡ true → (c : ℕ) → c < n → f c ≡ g c
unfolding agree
eq_of_agree f g zero same c l = elim l [ ]
eq_of_agree f g (suc n) same c l = elim (ℕ_discrete c n) [
  | yes last ↦ rw last (ground arith)
  | no before ↦ eq_of_agree f g n (ground arith) c (omega arith)
]

neon_table : agree fold_neon to_ascii_lowercase_byte 256 ≡ true
unfolding agree fold_neon to_ascii_lowercase_byte
neon_table = refl

x86_table : agree fold_x86 to_ascii_lowercase_byte 256 ≡ true
unfolding agree fold_x86 to_ascii_lowercase_byte
x86_table = refl

pub fold_neon_lem : (x : ℕ) → x < 256 → fold_neon x ≡ to_ascii_lowercase_byte x
fold_neon_lem = eq_of_agree fold_neon to_ascii_lowercase_byte 256 neon_table

pub fold_x86_lem : (x : ℕ) → x < 256 → fold_x86 x ≡ to_ascii_lowercase_byte x
fold_x86_lem = eq_of_agree fold_x86 to_ascii_lowercase_byte 256 x86_table
