-- ===== src/Common/Bytes/Parts.antt =====
-- The parts of a text that `take` and `drop` give.
use Prim.Native.Nat.{ℕ, zero, suc, ◌+◌, ◌≤◌}
use mathlib.Core.Path.{◌≡◌, refl, ap, sym}
use mathlib.Core.List.{[], ◌∷◌, ◌++◌}
use native.Mathlib.Omega.{arith}
use tuletorn.Common.Bytes.{Bytes}
use tuletorn.Common.Lists.{length, take, drop}
use tuletorn.Common.Tests.{min}

pub take_and_rest : (n : ℕ) (s : Bytes) → s ≡ take n s ++ drop n s
take_and_rest zero s = refl
take_and_rest (suc n) [] = refl
take_and_rest (suc n) (c ∷ s) = ap (◌∷◌ c) (take_and_rest n s)

pub take_all : (s : Bytes) → take (length s) s ≡ s
take_all [] = refl
take_all (c ∷ s) = ap (◌∷◌ c) (take_all s)

pub length-take : (n : ℕ) (s : Bytes) → length (take n s) ≡ min (length s) n
length-take zero s = ground arith
length-take (suc n) [] = ground arith
length-take (suc n) (c ∷ s) = ground (arith, length-take n s)

drop_nil : (n : ℕ) → drop {A = ℕ} n [] ≡ []
drop_nil zero = refl
drop_nil (suc n) = refl

pub drop-add : (i n : ℕ) (s : Bytes) → drop (i + n) s ≡ drop n (drop i s)
drop-add zero n s = let e : 0 + n ≡ n = omega arith in rw e refl
drop-add (suc i) n [] = let e : suc i + n ≡ suc (i + n) = omega arith in rw e (sym (drop_nil n))
drop-add (suc i) n (c ∷ s) = let e : suc i + n ≡ suc (i + n) = omega arith in rw e (drop-add i n s)

pub drop_all : (n : ℕ) (s : Bytes) → length s ≤ n → drop n s ≡ []
drop_all zero [] h = refl
drop_all zero (c ∷ s) h = absurd (omega arith)
drop_all (suc n) [] h = refl
drop_all (suc n) (c ∷ s) h = drop_all n s (omega arith)
