-- ===== src/Common/Bytes/Laws.antt =====
-- Laws of the operations on byte texts.
use tuletorn.Common.Tests.{◌==◌, Bool-cases, ==_refl}
use Prim.Native.Nat.{ℕ}
use mathlib.Core.Path.{◌≡◌, refl, ap}
use mathlib.Core.Logic.{inl, inr}
use mathlib.Core.Bool.{◌&&◌}
use mathlib.Core.Option.{some}
use mathlib.Core.List.{List, [], ◌∷◌, ◌++◌, map-append}
use native.Mathlib.Omega.{arith}
use tuletorn.Common.Bytes.{
  Bytes, split, is_empty, strip_prefix, trim_end_matches, to_ascii_lowercase_byte,
  to_ascii_lowercase,
}

pub strip_prefix-append : (p s : Bytes) → strip_prefix p (p ++ s) ≡ some s
unfolding strip_prefix
strip_prefix-append [] s = refl
strip_prefix-append (b ∷ p) s = rw (==_refl b) (strip_prefix-append p s)

pub append_of_strip_prefix : (p s r : Bytes) → strip_prefix p s ≡ some r → s ≡ p ++ r
unfolding strip_prefix
append_of_strip_prefix [] s r h = ground arith
append_of_strip_prefix (b ∷ p) [] r h = cc
append_of_strip_prefix (b ∷ p) (c ∷ s) r h = ground (arith, append_of_strip_prefix p s r)

pub trim_end_matches_idem :
    (b : ℕ) (s : Bytes) → trim_end_matches b (trim_end_matches b s) ≡ trim_end_matches b s
unfolding trim_end_matches
trim_end_matches_idem b [] = refl
trim_end_matches_idem b (c ∷ s) = elim (Bool-cases (is_empty (trim_end_matches b s) && c == b)) [
  | inl dropped ↦ rw dropped
  | inr kept ↦ rw (kept, trim_end_matches) (rw (trim_end_matches_idem b s) (rw kept))
]

-- Trimming takes a run of the byte off the end.
pub append_of_trim_end_matches :
    (b : ℕ) (s : Bytes) → (run : Bytes) × (s ≡ trim_end_matches b s ++ run)
unfolding trim_end_matches
append_of_trim_end_matches b [] = ([], refl)
append_of_trim_end_matches b (c ∷ s) =
    elim (Bool-cases (is_empty (trim_end_matches b s) && c == b)) [
      | inl dropped ↦ (c ∷ s, rw dropped)
      | inr kept ↦ let (run, e) = append_of_trim_end_matches b s in (run, rw kept (ap (◌∷◌ c) e))
    ]

pub to_ascii_lowercase-append :
    (s t : Bytes) → to_ascii_lowercase (s ++ t) ≡ to_ascii_lowercase s ++ to_ascii_lowercase t
unfolding to_ascii_lowercase
to_ascii_lowercase-append s t = map-append to_ascii_lowercase_byte s t

to_ascii_lowercase_byte_idem :
    (c : ℕ) → to_ascii_lowercase_byte (to_ascii_lowercase_byte c) ≡ to_ascii_lowercase_byte c
unfolding to_ascii_lowercase_byte
to_ascii_lowercase_byte_idem c = ground arith

pub to_ascii_lowercase_idem :
    (s : Bytes) → to_ascii_lowercase (to_ascii_lowercase s) ≡ to_ascii_lowercase s
unfolding to_ascii_lowercase
to_ascii_lowercase_idem [] = refl
to_ascii_lowercase_idem (c ∷ s) = cc (to_ascii_lowercase_byte_idem c, to_ascii_lowercase_idem s)

split_cons :
    (b : ℕ) (s : Bytes) → (part : Bytes) × (parts : List Bytes) × (split b s ≡ part ∷ parts)
unfolding split
split_cons b [] = ([], [], refl)
split_cons b (c ∷ s) = elim (Bool-cases (c == b)) [
  | inl e ↦ ([], split b s, rw e)
  | inr e ↦ let (part, parts, f) = split_cons b s in (c ∷ part, parts, rw (e, f))
]

-- Splitting at a separator splits the texts on both sides of it.
pub split-append : (b : ℕ) (s t : Bytes) → split b (s ++ b ∷ t) ≡ split b s ++ split b t
unfolding split
split-append b [] t = rw (==_refl b)
split-append b (c ∷ s) t = elim (Bool-cases (c == b)) [
  | inl e ↦ rw e (ap (◌∷◌ []) (split-append b s t))
  | inr e ↦ let (part, parts, f) = split_cons b s in rw e (rw (split-append b s t, f))
]
