-- ===== src/Server/Buffer.antt =====
-- The buffer of a connection, and the target of a request.
use tuletorn.Common.{
  max, ℕ, suc, ◌+◌, ◌≡◌, ◌≢◌, ◌≤◌, ◌<◌, refl, ap, sym, inl, inr, Option, none, some, [], ◌∷◌, ◌++◌,
  arith, ◌==◌, Bool-cases, Option-cases, take, drop,
}
use tuletorn.Common.Bytes.{Bytes}
use tuletorn.Server.{grow_for_read, path_of, split_target, join_target}
use tuletorn.Simd.{Memchr, position}
use tuletorn.Simd.Host.{IsFree}

-- The filled part lies in the vector.
abbrev pub IsBuffer : (buf_len filled : ℕ) → Type 0
IsBuffer buf_len filled = filled ≤ buf_len

-- A buffer that was grown has room behind its filled part, and has lost nothing; and it is not longer than
-- the larger of its length before and 32 KiB behind the filled part.
pub grow_for_read_bounds :
    (buf_len filled : ℕ)
    → IsBuffer buf_len filled
    → (filled < grow_for_read buf_len filled)
      × (buf_len ≤ grow_for_read buf_len filled)
      × (grow_for_read buf_len filled ≤ max buf_len (filled + 32768))
unfolding grow_for_read
grow_for_read_bounds buf_len filled le = ground arith

-- A byte stands at its first position, and not before.
abbrev IsPosition : ℕ → Bytes → Option ℕ → Type 0
IsPosition b s none = IsFree b s
IsPosition b s (some i) = IsFree b (take i s) × (s ≡ take i s ++ b ∷ drop (i + 1) s)

position-IsPosition : (b : ℕ) (s : Bytes) → IsPosition b s (position b s)
unfolding position
position-IsPosition b [] = tt
position-IsPosition b (c ∷ s) = elim (Bool-cases (c == b)) [
  | inl e ↦ let same : c ≡ b = ground arith in rw e (tt, ap (λ d. d ∷ s) same)
  | inr e ↦
      let other : c ≢ b = ground arith in
      rw e (later other (position b s) (position-IsPosition b s))
]
  where
    later :
        c ≢ b
        → (o : Option ℕ) → IsPosition b s o
        → IsPosition b (c ∷ s) (elim o as (λ _. Option ℕ) [ none ↦ none | some i ↦ some (i + 1) ])
    later other none h = (other, h)
    later other (some i) (free, h) =
        let e : i + 1 ≡ suc i = omega arith in
        let f : suc i + 1 ≡ suc (i + 1) = omega arith in rw e ((other, free), rw f (ap (◌∷◌ c) h))

-- A target is its path and its query put together again; the path has no question mark, and is the one
-- that the route is looked up by.
pub join_target-split_target :
    (m : Memchr) (target : Bytes)
    → (join_target (split_target m target).0 (split_target m target).1 ≡ target)
      × IsFree b'?' (split_target m target).0
      × (path_of m target ≡ (split_target m target).0)
unfolding split_target path_of
join_target-split_target m target = elim (Option-cases (position b'?' target)) [
  | inl e ↦
      rw (split_target, path_of, m.memchr_lem b'?' target, e)
        (refl, rw e at (position-IsPosition b'?' target), refl)
  | inr (i, e) ↦
      let (free, parts) : IsPosition b'?' target (some i) =
        rw e at (position-IsPosition b'?' target) in
      rw (split_target, path_of, m.memchr_lem b'?' target, e) (sym parts, free, refl)
]
