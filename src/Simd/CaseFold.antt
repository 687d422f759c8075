-- ===== src/Simd/CaseFold.antt =====
-- The vector routines compute what the scalar ones compute, on every architecture.
use tuletorn.Common.{
  ℕ, zero, suc, ◌<◌, ◌≡◌, refl, ap, sym, ◌∙◌, inl, inr, Bool, true, false, ◌&&◌, [], ◌∷◌, ◌++◌, map,
  arith, ◌==◌, leb, ltb, if◌then◌else◌, Bool-cases, length, length-map, ◌↔◌, length-drop, take,
  drop, All, some, none,
}
use tuletorn.Common.Bytes.{Bytes, to_ascii_lowercase, to_ascii_lowercase_byte}
use tuletorn.Simd.{
  Arch, aarch64, x86_64, other, fold_neon, fold_x86, all_eq_ignore_case,
  eq_ignore_ascii_case_scalar, lanes_equal, eq_chunks, vector_eq, eq_ignore_ascii_case,
  lowercase_chunks, lowercase_vector, lowercase_ascii_into,
}
use tuletorn.Simd.Lanes.{fold_neon_lem, fold_x86_lem}

-- A text of bytes.
abbrev pub IsBytes : Bytes → Type 0
IsBytes s = All (λ c. c < 256) s

IsBytes-drop : (n : ℕ) (s : Bytes) → IsBytes s → IsBytes (drop n s)
IsBytes-drop zero s h = h
IsBytes-drop (suc n) [] h = h
IsBytes-drop (suc n) (c ∷ s) (_, h) = IsBytes-drop n s h

all_eq-split :
    (n : ℕ) (a b : Bytes)
    → length a ≡ length b
    → all_eq_ignore_case a b
      ≡ (all_eq_ignore_case (take n a) (take n b) && all_eq_ignore_case (drop n a) (drop n b))
all_eq-split zero a b e = refl
all_eq-split (suc n) [] b e = refl
all_eq-split (suc n) (x ∷ a) [] e = absurd (omega arith)
all_eq-split (suc n) (x ∷ a) (y ∷ b) e = ground (arith, all_eq-split n a b (omega arith))

scalar_of_same_length :
    (a b : Bytes) → length a ≡ length b → eq_ignore_ascii_case_scalar a b ≡ all_eq_ignore_case a b
unfolding eq_ignore_ascii_case_scalar
scalar_of_same_length a b e = ground arith

module _ (fold : ℕ → ℕ) (folds : (c : ℕ) → c < 256 → fold c ≡ to_ascii_lowercase_byte c) where
  lanes_equal_lem :
      (n : ℕ) (a b : Bytes)
      → IsBytes a
      → IsBytes b
      → lanes_equal fold (take n a) (take n b) ≡ all_eq_ignore_case (take n a) (take n b)
  unfolding lanes_equal
  lanes_equal_lem zero a b h k = refl
  lanes_equal_lem (suc n) [] b h k = refl
  lanes_equal_lem (suc n) (x ∷ a) [] h k = refl
  lanes_equal_lem (suc n) (x ∷ a) (y ∷ b) (p, h) (q, k) =
      rw (folds x p, folds y q, lanes_equal_lem n a b h k)

  eq_chunks_lem :
      (width fuel : ℕ) (a b : Bytes)
      → length a ≡ length b
      → IsBytes a
      → IsBytes b
      → eq_chunks fold width fuel a b ≡ all_eq_ignore_case a b
  unfolding eq_chunks
  eq_chunks_lem width zero a b e h k = scalar_of_same_length a b e
  eq_chunks_lem width (suc fuel) a b e h k = elim (Bool-cases (leb width (length a))) [
    | inl more ↦
        rw
          (
            more,
            lanes_equal_lem width a b h k,
            eq_chunks_lem width fuel (drop width a) (drop width b)
                (omega (arith, length-drop width a, length-drop width b)) (IsBytes-drop width a h)
                (IsBytes-drop width b k),
          )
          (sym (all_eq-split width a b e))
    | inr done ↦ rw done (scalar_of_same_length a b e)
  ]

  map_folds :
      (n : ℕ) (s : Bytes) → IsBytes s → map fold (take n s) ≡ map to_ascii_lowercase_byte (take n s)
  map_folds zero s h = refl
  map_folds (suc n) [] h = refl
  map_folds (suc n) (c ∷ s) (p, h) = cc (folds c p, map_folds n s h)

  lowercase_chunks_lem :
      (width fuel : ℕ) (s : Bytes)
      → IsBytes s
      → lowercase_chunks fold width fuel s ≡ map to_ascii_lowercase_byte s
  unfolding lowercase_chunks
  lowercase_chunks_lem width zero s h = refl
  lowercase_chunks_lem width (suc fuel) s h = elim (Bool-cases (leb width (length s))) [
    | inl more ↦
        rw
          (
            more,
            map_folds width s h,
            lowercase_chunks_lem width fuel (drop width s) (IsBytes-drop width s h),
          )
          (map-take_and_rest width s)
    | inr done ↦ rw done
  ]
    where
      map-take_and_rest :
          (n : ℕ) (t : Bytes)
          → map to_ascii_lowercase_byte (take n t) ++ map to_ascii_lowercase_byte (drop n t)
            ≡ map to_ascii_lowercase_byte t
      map-take_and_rest zero t = refl
      map-take_and_rest (suc n) [] = refl
      map-take_and_rest (suc n) (c ∷ t) =
          ap (◌∷◌ (to_ascii_lowercase_byte c)) (map-take_and_rest n t)

vector_eq_lem :
    (arch : Arch) (avx2 : Bool) (a b : Bytes)
    → length a ≡ length b
    → IsBytes a
    → IsBytes b
    → vector_eq arch avx2 a b ≡ all_eq_ignore_case a b
unfolding vector_eq
vector_eq_lem aarch64 avx2 a b e h k = eq_chunks_lem fold_neon fold_neon_lem 16 (length a) a b e h k
vector_eq_lem x86_64 true a b e h k = eq_chunks_lem fold_x86 fold_x86_lem 32 (length a) a b e h k
vector_eq_lem x86_64 false a b e h k = eq_chunks_lem fold_x86 fold_x86_lem 16 (length a) a b e h k
vector_eq_lem other avx2 a b e h k = scalar_of_same_length a b e

-- On every architecture, with and without AVX2, the comparison of two byte strings is the scalar
-- reference's.
pub eq_ignore_ascii_case-scalar :
    (arch : Arch) (avx2 : Bool) (a b : Bytes)
    → IsBytes a
    → IsBytes b
    → eq_ignore_ascii_case arch avx2 a b ≡ eq_ignore_ascii_case_scalar a b
unfolding eq_ignore_ascii_case eq_ignore_ascii_case_scalar
eq_ignore_ascii_case-scalar arch avx2 a b h k = elim (Bool-cases (length a == length b)) [
  | inl same ↦ rw same (vector_eq_lem arch avx2 a b (ground arith) h k)
  | inr differ ↦ rw differ
]

all_eq_of_lowercase :
    (a b : Bytes)
    → length a ≡ length b
    → map to_ascii_lowercase_byte a ≡ map to_ascii_lowercase_byte b
    → all_eq_ignore_case a b ≡ true
all_eq_of_lowercase [] b l e = refl
all_eq_of_lowercase (x ∷ a) [] l e = refl
all_eq_of_lowercase (x ∷ a) (y ∷ b) l e = ground (arith, all_eq_of_lowercase a b (omega arith))

lowercase_of_all_eq :
    (a b : Bytes)
    → length a ≡ length b
    → all_eq_ignore_case a b ≡ true
    → map to_ascii_lowercase_byte a ≡ map to_ascii_lowercase_byte b
lowercase_of_all_eq [] [] l e = refl
lowercase_of_all_eq [] (y ∷ b) l e = absurd (omega arith)
lowercase_of_all_eq (x ∷ a) [] l e = absurd (omega arith)
lowercase_of_all_eq (x ∷ a) (y ∷ b) l e = ground (arith, lowercase_of_all_eq a b (omega arith))

length-map_eq :
    (a b : Bytes)
    → map to_ascii_lowercase_byte a ≡ map to_ascii_lowercase_byte b
    → length a ≡ length b
length-map_eq a b e =
    sym (length-map a to_ascii_lowercase_byte) ∙ ap length e ∙ length-map b to_ascii_lowercase_byte

-- On every architecture the vectorised comparison of two byte strings holds exactly when they have
-- the same ASCII lowercase.
pub eq_ignore_ascii_case_iff :
    (arch : Arch) (avx2 : Bool) (a b : Bytes)
    → IsBytes a
    → IsBytes b
    → (eq_ignore_ascii_case arch avx2 a b ≡ true) ↔ (to_ascii_lowercase a ≡ to_ascii_lowercase b)
unfolding eq_ignore_ascii_case to_ascii_lowercase
eq_ignore_ascii_case_iff arch avx2 a b h k = elim (Bool-cases (length a == length b)) [
  | inl same ↦
      let l : length a ≡ length b = ground arith in
      rw (same, vector_eq_lem arch avx2 a b l h k)
        (lowercase_of_all_eq a b l, all_eq_of_lowercase a b l)
  | inr differ ↦
      let apart : map to_ascii_lowercase_byte a ≡ map to_ascii_lowercase_byte b → ⊥ =
        λ e. absurd_length (length-map_eq a b e) differ in
      rw differ (λ e. cc, λ e. absurd (apart e))
]
  where
    absurd_length : length a ≡ length b → (length a == length b) ≡ false → ⊥
    absurd_length e d = ground arith

lowercase_vector_lem :
    (arch : Arch) (s : Bytes) → IsBytes s → lowercase_vector arch s ≡ map to_ascii_lowercase_byte s
unfolding lowercase_vector
lowercase_vector_lem aarch64 s h = lowercase_chunks_lem fold_neon fold_neon_lem 16 (length s) s h
lowercase_vector_lem x86_64 s h = lowercase_chunks_lem fold_x86 fold_x86_lem 16 (length s) s h
lowercase_vector_lem other s h = refl

-- On every architecture the lowercasing writes the ASCII lowercase of a source that fits the buffer,
-- and refuses a longer one.
pub lowercase_ascii_into_lem :
    (arch : Arch) (capacity : ℕ) (src : Bytes)
    → IsBytes src
    → lowercase_ascii_into arch capacity src
      ≡ (if ltb capacity (length src) then none else some (to_ascii_lowercase src))
unfolding lowercase_ascii_into to_ascii_lowercase
lowercase_ascii_into_lem arch capacity src h = rw (lowercase_vector_lem arch src h)
