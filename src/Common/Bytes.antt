-- ===== src/Common/Bytes.antt =====
-- A `&str` or `&[u8]` of the program is the list of its bytes. Here are the operations of the Rust
-- standard library that the program calls on them.
pub mod Laws
pub mod Text
pub mod Every
pub mod Search
pub mod Parts
use Prim.Native.Char.{code}
use Prim.Native.String.{String}
use Prim.Native.Nat.{ℕ, ◌+◌}
use mathlib.Core.Path.{◌≡◌, refl, ap}
use mathlib.Core.Logic.{◌↔◌}
use mathlib.Core.Bool.{Bool, true, false, ◌&&◌}
use mathlib.Core.Option
use mathlib.Core.Option.{Option, none, some}
use mathlib.Core.List.{List, [], ◌∷◌, map}
use native.Mathlib.Omega.{arith}
use tuletorn.Common.Map.{Keys}
use tuletorn.Common.Tests.{leb, ◌==◌, if◌then◌else◌}

abbrev pub Bytes : Type 0
Bytes = List ℕ

-- The bytes of an ASCII literal.
abbrev pub codes : String → Bytes
codes String.[] = []
codes (String.◌∷◌ c s) = code c ∷ codes s

-- Equality of byte strings.
unfoldable pub bytes_eq : Bytes → Bytes → Bool
bytes_eq [] [] = true
bytes_eq [] (y ∷ ys) = false
bytes_eq (x ∷ xs) [] = false
bytes_eq (x ∷ xs) (y ∷ ys) = x == y && bytes_eq xs ys

pub bytes_eq_iff : (xs ys : Bytes) → (bytes_eq xs ys ≡ true) ↔ (xs ≡ ys)
unfolding bytes_eq
bytes_eq_iff [] [] = ground arith
bytes_eq_iff [] (y ∷ ys) = ground arith
bytes_eq_iff (x ∷ xs) [] = ground arith
bytes_eq_iff (x ∷ xs) (y ∷ ys) = ground (arith, bytes_eq_iff xs ys)

pub bytes_eq_refl : (xs : Bytes) → bytes_eq xs xs ≡ true
bytes_eq_refl xs = (bytes_eq_iff xs xs).1 refl

-- `slice::is_empty`.
abbrev pub is_empty {ℓ} : {A : Type ℓ} → List A → Bool
is_empty [] = true
is_empty (x ∷ xs) = false

-- `str::strip_prefix`.
unfoldable pub strip_prefix : Bytes → Bytes → Option Bytes
strip_prefix [] s = some s
strip_prefix (p ∷ ps) [] = none
strip_prefix (p ∷ ps) (c ∷ s) = if p == c then strip_prefix ps s else none

-- `str::strip_suffix`: what stands before `suf`, where `s` ends in it.
unfoldable pub strip_suffix : Bytes → Bytes → Option Bytes
unfolding bytes_eq
strip_suffix suf [] = if bytes_eq suf [] then some [] else none
strip_suffix suf (c ∷ s) =
    if bytes_eq suf (c ∷ s) then some [] else Option.map (◌∷◌ c) (strip_suffix suf s)

-- `str::starts_with`.
abbrev pub starts_with : Bytes → Bytes → Bool
starts_with p s = elim (strip_prefix p s) [ none ↦ false | some _ ↦ true ]

-- `str::trim_end_matches` of one byte.
unfoldable pub trim_end_matches : ℕ → Bytes → Bytes
trim_end_matches b [] = []
trim_end_matches b (c ∷ s) =
    let rest = trim_end_matches b s in if is_empty rest && c == b then [] else c ∷ rest

-- `str::split` at one byte: there is always a first part.
abbrev pub in_first : ℕ → List Bytes → List Bytes
in_first c [] = (c ∷ []) ∷ []
in_first c (part ∷ parts) = (c ∷ part) ∷ parts

unfoldable pub split : ℕ → Bytes → List Bytes
split b [] = [] ∷ []
split b (c ∷ s) = let rest = split b s in if c == b then [] ∷ rest else in_first c rest

-- `u8::to_ascii_lowercase`.
unfoldable pub to_ascii_lowercase_byte : ℕ → ℕ
to_ascii_lowercase_byte c = if leb b'A' c && leb c b'Z' then c + 32 else c

-- `str::to_ascii_lowercase`.
unfoldable pub to_ascii_lowercase : Bytes → Bytes
unfolding to_ascii_lowercase_byte
to_ascii_lowercase s = map to_ascii_lowercase_byte s

instance abbrev pub bytes_keys : Keys Bytes
bytes_keys = record { eq = bytes_eq; eq_iff = bytes_eq_iff }

abbrev pub pair_eq : Bytes × Bytes → Bytes × Bytes → Bool
pair_eq j k = bytes_eq j.0 k.0 && bytes_eq j.1 k.1

pub pair_eq_iff : (j k : Bytes × Bytes) → (pair_eq j k ≡ true) ↔ (j ≡ k)
pair_eq_iff j k =
    let both : (bytes_eq j.0 k.0 && bytes_eq j.1 k.1) ≡ true → j ≡ k = λ h.
      let first : j.0 ≡ k.0 = (bytes_eq_iff j.0 k.0).0 (ground arith) in
      let second : j.1 ≡ k.1 = (bytes_eq_iff j.1 k.1).0 (ground arith) in cc in
    (
      both,
      λ h.
          rw
            ((bytes_eq_iff j.0 k.0).1 (ap (λ p. p.0) h), (bytes_eq_iff j.1 k.1).1 (ap (λ p. p.1) h))
            refl,
    )

instance abbrev pub pair_keys : Keys (Bytes × Bytes)
pair_keys = record { eq = pair_eq; eq_iff = pair_eq_iff }
