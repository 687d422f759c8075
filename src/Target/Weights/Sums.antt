-- ===== src/Target/Weights/Sums.antt =====
-- Sums of lists of integers, part by part: what the credits of weighted round robin add up to.
use tuletorn.Common.{
  ℕ, zero, suc, ◌+◌, ◌≤◌, ◌<◌, ◌≡◌, refl, ap, List, [], ◌∷◌, arith, length, set, replicate,
}
use tuletorn.Common.Int.{ℤ, pos, pos_part, neg_part, ◌+ℤ◌, ◌≤ℤ◌, int_laws}
use tuletorn.Target.Weights.{at, sum_ℤ}

abbrev pub sum_pos : List ℤ → ℕ
sum_pos [] = 0
sum_pos (x ∷ xs) = pos_part x + sum_pos xs

abbrev pub sum_neg : List ℤ → ℕ
sum_neg [] = 0
sum_neg (x ∷ xs) = neg_part x + sum_neg xs

pub sum_ℤ_parts :
    (xs : List ℤ) → pos_part (sum_ℤ xs) + sum_neg xs ≡ neg_part (sum_ℤ xs) + sum_pos xs
sum_ℤ_parts [] = refl
sum_ℤ_parts (x ∷ xs) = omega (int_laws, sum_ℤ_parts xs)

pub sum_pos-set :
    (xs : List ℤ) (i : ℕ) (v : ℤ)
    → i < length xs
    → sum_pos (set xs i v) + pos_part (at xs i) ≡ sum_pos xs + pos_part v
sum_pos-set [] i v h = elim h [ ]
sum_pos-set (x ∷ xs) zero v h = omega arith
sum_pos-set (x ∷ xs) (suc i) v h = omega (arith, sum_pos-set xs i v (omega arith))

pub sum_neg-set :
    (xs : List ℤ) (i : ℕ) (v : ℤ)
    → i < length xs
    → sum_neg (set xs i v) + neg_part (at xs i) ≡ sum_neg xs + neg_part v
sum_neg-set [] i v h = elim h [ ]
sum_neg-set (x ∷ xs) zero v h = omega arith
sum_neg-set (x ∷ xs) (suc i) v h = omega (arith, sum_neg-set xs i v (omega arith))

-- A list that is the sum of two, entry by entry, adds up to both.
pub sum-added :
    (zs xs ys : List ℤ)
    → length zs ≡ length xs
    → length ys ≡ length xs
    → ((i : ℕ) → i < length xs → at zs i ≡ at xs i +ℤ at ys i)
    → sum_pos zs + sum_neg xs + sum_neg ys ≡ sum_neg zs + sum_pos xs + sum_pos ys
sum-added [] [] [] e f h = refl
sum-added [] (x ∷ xs) ys e f h = absurd (omega arith)
sum-added [] [] (y ∷ ys) e f h = absurd (omega arith)
sum-added (z ∷ zs) [] ys e f h = absurd (omega arith)
sum-added (z ∷ zs) (x ∷ xs) [] e f h = absurd (omega arith)
sum-added (z ∷ zs) (x ∷ xs) (y ∷ ys) e f h =
    let rest = sum-added zs xs ys (omega arith) (omega arith) (λ i l. h (suc i) (omega arith)) in
    let first : z ≡ x +ℤ y = h 0 (omega arith) in
    omega (int_laws, rest, ap pos_part first, ap neg_part first)

-- If no entry is positive, neither is the sum.
pub sum_le : (xs : List ℤ) → ((i : ℕ) → i < length xs → at xs i ≤ℤ pos 0) → sum_pos xs ≤ sum_neg xs
sum_le [] h = omega arith
sum_le (x ∷ xs) h = omega (arith, h 0 (omega arith), sum_le xs (λ i l. h (suc i) (omega arith)))

-- If no entry is negative and the sum is zero, every entry is zero.
pub zero_of_sum :
    (xs : List ℤ)
    → ((i : ℕ) → i < length xs → neg_part (at xs i) ≤ pos_part (at xs i))
    → sum_pos xs ≤ sum_neg xs
    → (i : ℕ) → i < length xs
    → pos_part (at xs i) ≡ neg_part (at xs i)
zero_of_sum [] h e i l = elim l [ ]
zero_of_sum (x ∷ xs) h e zero l =
    omega (arith, h 0 (omega arith), sum_ge xs (λ j m. h (suc j) (omega arith)))
  where
    sum_ge :
        (ys : List ℤ)
        → ((j : ℕ) → j < length ys → neg_part (at ys j) ≤ pos_part (at ys j))
        → sum_neg ys ≤ sum_pos ys
    sum_ge [] k = omega arith
    sum_ge (y ∷ ys) k = omega (arith, k 0 (omega arith), sum_ge ys (λ j m. k (suc j) (omega arith)))
zero_of_sum (x ∷ xs) h e (suc i) l =
    zero_of_sum xs (λ j m. h (suc j) (omega arith)) (omega (arith, h 0 (omega arith))) i
      (omega arith)

pub sum_neg-replicate : (n : ℕ) → sum_neg (replicate n (pos 0)) ≡ 0
sum_neg-replicate zero = refl
sum_neg-replicate (suc n) = omega (arith, sum_neg-replicate n)

pub sum_pos-replicate : (n : ℕ) → sum_pos (replicate n (pos 0)) ≡ 0
sum_pos-replicate zero = refl
sum_pos-replicate (suc n) = omega (arith, sum_pos-replicate n)
