-- ===== src/Common/Bytes/Search.antt =====
-- Where a text stands in another.
use Prim.Native.Nat.{ℕ, suc, ◌+◌}
use mathlib.Core.Path.{◌≡◌, refl, ap}
use mathlib.Core.Logic.{inl, inr}
use mathlib.Core.Bool.{true}
use mathlib.Core.Option.{Option, some, none}
use mathlib.Core.List.{[], ◌∷◌, ◌++◌}
use native.Mathlib.Omega.{arith}
use tuletorn.Common.Bytes.{Bytes, starts_with, strip_prefix}
use tuletorn.Common.Bytes.Laws.{append_of_strip_prefix}
use tuletorn.Common.Bytes.Text.{find_sub}
use tuletorn.Common.Lists.{take}
use tuletorn.Common.Tests.{Bool-cases, Option-cases}

pub append_of_starts_with :
    (p s : Bytes) → starts_with p s ≡ true → (rest : Bytes) × (s ≡ p ++ rest)
append_of_starts_with p s h = elim (Option-cases (strip_prefix p s)) [
  | inl e ↦ cc
  | inr (r, e) ↦ (r, append_of_strip_prefix p s r e)
]

abbrev IsFound : (s p : Bytes) → Option ℕ → Type 0
IsFound s p none = Unit
IsFound s p (some i) = (rest : Bytes) × (s ≡ take i s ++ (p ++ rest))

find_sub-IsFound : (s p : Bytes) → IsFound s p (find_sub s p)
unfolding find_sub
find_sub-IsFound [] [] = ([], refl)
find_sub-IsFound [] (c ∷ p) = tt
find_sub-IsFound (c ∷ s) p = elim (Bool-cases (starts_with p (c ∷ s))) [
  | inl e ↦ rw e (append_of_starts_with p (c ∷ s) e)
  | inr e ↦ rw e (later (find_sub s p) (find_sub-IsFound s p))
]
  where
    later :
        (o : Option ℕ)
        → IsFound s p o
        → IsFound (c ∷ s) p (elim o as (λ _. Option ℕ) [ none ↦ none | some i ↦ some (i + 1) ])
    later none h = tt
    later (some i) (rest, h) = (rest, let e : i + 1 ≡ suc i = omega arith in rw e (ap (◌∷◌ c) h))

-- A text that is found at a place stands there.
pub append_of_find_sub :
    (s p : Bytes) (i : ℕ) → find_sub s p ≡ some i → (rest : Bytes) × (s ≡ take i s ++ (p ++ rest))
append_of_find_sub s p i h = rw h at (find_sub-IsFound s p)
