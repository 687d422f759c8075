-- ===== src/Target/Weights/Cycle.antt =====
-- Smooth weighted round robin is fair: over one table every endpoint has its weight's share.
use tuletorn.Common.{
  inl, inr, Bool-cases, ℕ, zero, suc, ◌+◌, ◌*◌, ◌≤◌, ◌<◌, ◌≡◌, refl, ap, List, arith, length,
  replicate, ◌==◌, get_or-replicate, length-replicate,
}
use tuletorn.Common.Int.{ℤ, pos, pos_part, neg_part}
use tuletorn.Target.Weights.{at, pick, fill, expand, count}
use tuletorn.Target.Weights.Sums.{zero_of_sum, sum_neg-replicate, sum_pos-replicate}
use tuletorn.Target.Weights.Settled.{IsScaled, IsSettled, pick-IsRound, total, total_ge}

le_of_mul : (w a b : ℕ) → w * a < w * b + w → a ≤ b
le_of_mul w a b h = grind arith

mul_mono : (w a b : ℕ) → a ≤ b → w * a ≤ w * b
mul_mono w a b h = grind arith

-- A multiple of `w` above `-w` is not negative.
nonneg_of_multiple : (w p n a b : ℕ) → p + w * a ≡ n + w * b → n < w + p → n ≤ p
nonneg_of_multiple w p n a b e h = omega (arith, mul_mono w a b (le_of_mul w a b (omega arith)))

eq_of_mul : (w a b : ℕ) → 1 ≤ w → w * a ≡ w * b → a ≡ b
eq_of_mul w a b p h = grind arith

module _ (scaled : List ℤ) (ok : IsScaled scaled) where
  abbrev rounds : ℕ
  rounds = pos_part (total scaled ok)

  record IsFilled (n : ℕ) (start : List ℤ) (table : List ℕ) (final : List ℤ) : Type 0 where
    settled : IsSettled scaled ok final
    len : length table ≡ n
    moved :
        (i : ℕ)
        → i < length scaled
        → pos_part (at final i) + neg_part (at start i) + rounds * count i table
          ≡ neg_part (at final i) + pos_part (at start i) + n * pos_part (at scaled i)

  fill-IsFilled :
      (n : ℕ) (start : List ℤ)
      → IsSettled scaled ok start
      → IsFilled n start
          (fill n scaled (total scaled ok) start).0
          (fill n scaled (total scaled ok) start).1
  unfolding fill
  fill-IsFilled zero start v = record { settled = v; len = refl; moved = λ i l. omega arith }
  fill-IsFilled (suc n) start v =
      let first = pick-IsRound scaled ok start v in
      let rest = fill-IsFilled n (pick scaled (total scaled ok) start).0 first.settled in
      record {
        settled = rest.settled;
        len = ap suc rest.len;
        moved = λ i l. elim (Bool-cases (i == (pick scaled (total scaled ok) start).1)) [
          | inl e ↦ rw e (omega (arith, rw e at (first.moved i l), rest.moved i l))
          | inr e ↦ rw e (omega (arith, rw e at (first.moved i l), rest.moved i l))
        ];
      }

  zeros : List ℤ
  zeros = replicate (length scaled) (pos 0)

  zeros-IsSettled : IsSettled scaled ok zeros
  unfolding zeros
  zeros-IsSettled = record {
    len = length-replicate (length scaled) (pos 0);
    balanced = omega (arith, sum_neg-replicate (length scaled), sum_pos-replicate (length scaled));
    above =
        λ i l. rw (get_or-replicate (length scaled) i (pos 0)) (omega (arith, total_ge scaled ok));
  }

  filled :
      IsFilled rounds zeros
        (fill rounds scaled (total scaled ok) zeros).0
        (fill rounds scaled (total scaled ok) zeros).1
  filled = fill-IsFilled rounds zeros zeros-IsSettled

  zeros-at : (i : ℕ) → at zeros i ≡ pos 0
  unfolding zeros
  zeros-at i = get_or-replicate (length scaled) i (pos 0)

  -- At the end of the table each credit is a multiple of the total that is not negative.
  final_at :
      (i : ℕ)
      → i < length scaled
      → pos_part (at (fill rounds scaled (total scaled ok) zeros).1 i)
          + rounds * count i (fill rounds scaled (total scaled ok) zeros).0
        ≡ neg_part (at (fill rounds scaled (total scaled ok) zeros).1 i)
          + rounds * pos_part (at scaled i)
  final_at i l = omega (arith, filled.moved i l, ap pos_part (zeros-at i), ap neg_part (zeros-at i))

  final_nonneg :
      (i : ℕ)
      → i < length scaled
      → neg_part (at (fill rounds scaled (total scaled ok) zeros).1 i)
        ≤ pos_part (at (fill rounds scaled (total scaled ok) zeros).1 i)
  final_nonneg i l = nonneg_of_multiple rounds _ _ _ _ (final_at i l) (filled.settled.above i l)

  final_zero :
      (i : ℕ)
      → i < length scaled
      → pos_part (at (fill rounds scaled (total scaled ok) zeros).1 i)
        ≡ neg_part (at (fill rounds scaled (total scaled ok) zeros).1 i)
  final_zero i l =
      zero_of_sum (fill rounds scaled (total scaled ok) zeros).1
        (λ j m. final_nonneg j (omega (arith, filled.settled.len)))
        (omega (arith, filled.settled.balanced)) i (omega (arith, filled.settled.len))

  pub expand-count : (i : ℕ) → i < length scaled → count i (expand scaled) ≡ pos_part (at scaled i)
  unfolding expand zeros
  expand-count i l =
      eq_of_mul rounds _ _ (total_ge scaled ok) (omega (arith, final_at i l, final_zero i l))

  pub length-expand : length (expand scaled) ≡ rounds
  unfolding expand zeros
  length-expand = filled.len
