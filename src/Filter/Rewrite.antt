-- ===== src/Filter/Rewrite.antt =====
-- What a URL rewrite makes of a path.
use tuletorn.Common.{
  ℕ, ◌≡◌, refl, sym, ◌≢◌, inl, inr, true, [], ◌∷◌, ◌++◌, if◌then◌else◌, Bool-cases, arith,
  append-nil,
}
use tuletorn.Common.Bytes.{Bytes, is_empty, strip_prefix, starts_with, trim_end_matches}
use tuletorn.Common.Bytes.Laws.{strip_prefix-append}
use tuletorn.Filter.{prefix, rewrite_prefix, rewrite}

-- The rest of a path after a whole prefix: nothing, or text that a slash opens.
pub data IsTail : Bytes → Type 0 where
  at_end : IsTail []
  below : (s : Bytes) → IsTail (b'/' ∷ s)

IsTail-of_slash : (c : ℕ) (r : Bytes) → starts_with (b'/' ∷ []) (c ∷ r) ≡ true → IsTail (c ∷ r)
unfolding strip_prefix
IsTail-of_slash c r e = let same : b'/' ≡ c = ground arith in rw (← same) (below r)

rewrite_prefix-IsTail :
    (replacement rest : Bytes)
    → (tail : Bytes) × (rewrite_prefix replacement rest ≡ trim_end_matches b'/' replacement ++ tail)
      × IsTail tail
      × (rewrite_prefix replacement rest ≢ [])
unfolding rewrite_prefix
rewrite_prefix-IsTail replacement rest = go (trim_end_matches b'/' replacement) rest
  where
    done : Bytes → Bytes → Bytes
    done base r =
        let out =
          if is_empty r
          then (if is_empty base then b'/' ∷ [] else base)
          else (if starts_with (b'/' ∷ []) r then base ++ r else base ++ b'/' ∷ r) in
        if is_empty out then b'/' ∷ [] else out

    go :
        (base r : Bytes)
        → (tail : Bytes) × (done base r ≡ base ++ tail) × IsTail tail × (done base r ≢ [])
    go [] [] = (b'/' ∷ [], refl, below [], cc)
    go (b ∷ base) [] = ([], sym (append-nil (b ∷ base)), at_end, cc)
    go [] (c ∷ r) = elim (Bool-cases (starts_with (b'/' ∷ []) (c ∷ r))) [
      | inl e ↦ (c ∷ r, rw (e, if◌then◌else◌), IsTail-of_slash c r e, rw (e, if◌then◌else◌) (cc))
      | inr e ↦ (b'/' ∷ c ∷ r, rw (e, if◌then◌else◌), below (c ∷ r), rw (e, if◌then◌else◌) (cc))
    ]
    go (b ∷ base) (c ∷ r) = elim (Bool-cases (starts_with (b'/' ∷ []) (c ∷ r))) [
      | inl e ↦ (c ∷ r, rw (e, if◌then◌else◌), IsTail-of_slash c r e, rw (e, if◌then◌else◌) (cc))
      | inr e ↦ (b'/' ∷ c ∷ r, rw (e, if◌then◌else◌), below (c ∷ r), rw (e, if◌then◌else◌) (cc))
    ]

-- A path under the prefix is rewritten to the replacement, less its trailing slashes, and then either
-- nothing or text that a slash opens; so no two texts are glued together, the replacement's slashes
-- are not doubled, and the result is never empty.
pub rewrite_seam :
    (pre replacement rest : Bytes)
    → (tail : Bytes) × (rewrite (prefix pre replacement) (pre ++ rest)
        ≡ trim_end_matches b'/' replacement ++ tail)
      × IsTail tail
      × (rewrite (prefix pre replacement) (pre ++ rest) ≢ [])
unfolding rewrite
rewrite_seam pre replacement rest =
    rw (strip_prefix-append pre rest, rewrite) (rewrite_prefix-IsTail replacement rest)

rewrite_prefix_of_IsTail :
    (replacement rest : Bytes)
    → IsTail rest
    → replacement ≢ []
    → trim_end_matches b'/' replacement ≡ replacement
    → rewrite_prefix replacement rest ≡ replacement ++ rest
unfolding rewrite_prefix strip_prefix
rewrite_prefix_of_IsTail [] rest t p q = absurd (p refl)
rewrite_prefix_of_IsTail (b ∷ base) [] at_end p q = rw q (sym (append-nil (b ∷ base)))
rewrite_prefix_of_IsTail (b ∷ base) (_ ∷ _) (below s) p q = rw q

-- Rewriting one prefix to another and back gives the path again, if neither ends in a slash or is
-- empty and the path goes on with nothing or a slash.
pub rewrite_back :
    (pre replacement rest : Bytes)
    → pre ≢ []
    → replacement ≢ []
    → trim_end_matches b'/' pre ≡ pre
    → trim_end_matches b'/' replacement ≡ replacement
    → IsTail rest
    → rewrite (prefix replacement pre) (rewrite (prefix pre replacement) (pre ++ rest))
      ≡ pre ++ rest
unfolding rewrite
rewrite_back pre replacement rest p q tp tq t =
    rw (strip_prefix-append pre rest, rewrite)
      (rw (rewrite_prefix_of_IsTail replacement rest t q tq) (
        rw (strip_prefix-append replacement rest, rewrite)
          (rewrite_prefix_of_IsTail pre rest t p tp)))
