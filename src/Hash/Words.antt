-- ===== src/Hash/Words.antt =====
-- The words that a byte string is hashed as.
use tuletorn.Common.{
  ℕ, zero, suc, ◌+◌, ◌≤◌, ◌<◌, ◌≡◌, refl, ap, sym, ◌∙◌, inl, inr, List, [], ◌∷◌, ◌++◌, map, leb,
  length, take, drop, append_assoc, append-nil, Bool-cases, flat_map, All, All-append, map-append,
  arith, length-drop,
}
use tuletorn.Common.Bytes.{Bytes}
use tuletorn.Common.Bytes.Parts.{take_and_rest}
use tuletorn.Hash.{add_to_hash, from_ne_bytes, fold_8, fold_once, write}

abbrev pub fold_words : ℕ → List ℕ → ℕ
fold_words hash [] = hash
fold_words hash (w ∷ ws) = fold_words (add_to_hash hash w) ws

fold_words-append :
    (h : ℕ) (us vs : List ℕ) → fold_words h (us ++ vs) ≡ fold_words (fold_words h us) vs
fold_words-append h [] vs = refl
fold_words-append h (u ∷ us) vs = fold_words-append (add_to_hash h u) us vs

abbrev pub joined : List Bytes → Bytes
joined parts = flat_map (λ p. p) parts

joined-append : (ps qs : List Bytes) → joined (ps ++ qs) ≡ joined ps ++ joined qs
joined-append [] qs = refl
joined-append (p ∷ ps) qs =
    ap (λ s. p ++ s) (joined-append ps qs) ∙ sym (append_assoc p (joined ps) (joined qs))

length-take_le : (n : ℕ) (s : Bytes) → length (take n s) ≤ n
length-take_le zero s = omega arith
length-take_le (suc n) [] = omega arith
length-take_le (suc n) (c ∷ s) = omega (arith, length-take_le n s)

-- A chunk fits a word.
abbrev pub IsChunk : Bytes → Type 0
IsChunk p = length p ≤ 8

-- The chunks that were folded into a hash, in order: with the rest they are the text.
abbrev IsFolded : ℕ → Bytes → ℕ × Bytes → Type 0
IsFolded h s after =
    (parts : List Bytes) × All IsChunk parts
    × (joined parts ++ after.1 ≡ s)
    × (after.0 ≡ fold_words h (map from_ne_bytes parts))

fold_8-IsFolded :
    (fuel h : ℕ) (s : Bytes)
    → length s ≤ fuel
    → IsFolded h s (fold_8 fuel h s) × (length (fold_8 fuel h s).1 < 8)
unfolding fold_8
fold_8-IsFolded zero h s l = (([], tt, refl, refl), omega arith)
fold_8-IsFolded (suc fuel) h s l = elim (Bool-cases (leb 8 (length s))) [
  | inl e ↦
      let ((parts, fit, whole, hash), short) =
        fold_8-IsFolded fuel (add_to_hash h (from_ne_bytes (take 8 s))) (drop 8 s)
          (ground (arith, length-drop 8 s)) in
      rw e (
        (
          take 8 s ∷ parts,
          (length-take_le 8 s, fit),
          append_assoc (take 8 s) (joined parts) _
              ∙ ap (λ r. take 8 s ++ r) whole
              ∙ sym (take_and_rest 8 s),
          hash,
        ),
        short,
      )
  | inr e ↦ rw e (([], tt, refl, refl), ground arith)
]

-- One more chunk behind those that were folded.
fold_once-IsFolded :
    (width h : ℕ) (s : Bytes) (before : ℕ × Bytes)
    → width ≤ 8
    → length before.1 < width + width
    → IsFolded h s before
    → IsFolded h s (fold_once width before) × (length (fold_once width before).1 < width)
unfolding fold_once
fold_once-IsFolded width h s (hash, rest) w l (parts, fit, whole, same) =
    elim (Bool-cases (leb width (length rest))) [
      | inl e ↦ rw e (
        (
          parts ++ take width rest ∷ [],
          All-append IsChunk parts (take width rest ∷ []) fit
              (omega (arith, length-take_le width rest, w), tt),
          ap (λ r. r ++ drop width rest) (joined-append parts (take width rest ∷ []))
              ∙ append_assoc (joined parts) (take width rest ++ []) (drop width rest)
              ∙ ap (λ r. joined parts ++ (r ++ drop width rest)) (append-nil (take width rest))
              ∙ ap (λ r. joined parts ++ r) (sym (take_and_rest width rest))
              ∙ whole,
          ap (λ g. add_to_hash g (from_ne_bytes (take width rest))) same
              ∙ sym (
                  ap (fold_words h) (map-append from_ne_bytes parts (take width rest ∷ []))
                  ∙ fold_words-append h (map from_ne_bytes parts)
                      (from_ne_bytes (take width rest) ∷ [])),
        ),
        ground (arith, length-drop width rest, l),
      )
      | inr e ↦ rw e ((parts, fit, whole, same), ground arith)
    ]

nothing_left : (s : Bytes) → length s < 1 → s ≡ []
nothing_left [] l = refl
nothing_left (c ∷ s) l = absurd (omega arith)

-- Writing a byte string folds its length and then words of at most 8 bytes each into the hash, and
-- the words' bytes in order are the byte string: none is left out, none is read twice.
pub write-words :
    (hash : ℕ) (bytes : Bytes)
    → (parts : List Bytes) × All IsChunk parts
      × (joined parts ≡ bytes)
      × (write hash bytes ≡ fold_words hash (length bytes ∷ map from_ne_bytes parts))
unfolding write
write-words hash bytes =
    let start : ℕ = add_to_hash hash (length bytes) in
    let (eight, l8) = fold_8-IsFolded (length bytes) start bytes (omega arith) in
    let (four, l4) = fold_once-IsFolded 4 start bytes _ (omega arith) l8 eight in
    let (two, l2) = fold_once-IsFolded 2 start bytes _ (omega arith) l4 four in
    let ((parts, fit, whole, same), l1) = fold_once-IsFolded 1 start bytes _ (omega arith) l2 two in
    (
      parts,
      fit,
      sym (append-nil (joined parts))
          ∙ ap (λ r. joined parts ++ r) (sym (nothing_left _ l1))
          ∙ whole,
      same,
    )
