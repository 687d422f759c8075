-- ===== src/Target/Weights/Settled.antt =====
-- Smooth weighted round robin, one round: the credits keep adding up to zero, and none ever falls
-- to minus the total weight.
use native.Mathlib.Decide.{ℕ_discrete, dec_lt}
use tuletorn.Common.{
  ℕ, suc, ◌+◌, ◌≤◌, ◌<◌, ◌^◌, ◌≡◌, refl, ap, ◌∙◌, sym, inl, inr, ◌≢◌, List, [], ◌∷◌, arith, length,
  set, false, Bool-cases, ◌==◌, ==_iff, if◌then◌else◌, get_or-set_self, get_or-set_ne, length-set,
}
use tuletorn.Common.Int.{ℤ, pos, pos_part, neg_part, ◌+ℤ◌, ◌-ℤ◌, ◌≤ℤ◌, +ℤ_parts, -ℤ_parts}
use tuletorn.Target.Weights.{at, sum_ℤ, credit, to_u16, pick}
use tuletorn.Target.Weights.Sums.{
  sum_pos, sum_neg, sum_ℤ_parts, sum_pos-set, sum_neg-set, sum-added, sum_le,
}
use tuletorn.Target.Weights.Round.{IsCredited, credit_all}

-- Weights as the scaling leaves them: each at least 1, and one index of 16 bits for each.
pub record IsScaled (scaled : List ℤ) : Type 0 where
  pub positive : (i : ℕ) → i < length scaled → pos 1 ≤ℤ at scaled i
  pub some_left : 0 < length scaled
  pub indexed : length scaled ≤ 2 ^ 16

pub neg_part_of_positive : (x : ℤ) → pos 1 ≤ℤ x → neg_part x ≡ 0
neg_part_of_positive x h = ground arith

pub sum_of_positive :
    (xs : List ℤ)
    → ((i : ℕ) → i < length xs → pos 1 ≤ℤ at xs i)
    → (sum_neg xs ≡ 0) × (length xs ≤ sum_pos xs)
sum_of_positive [] h = (refl, omega arith)
sum_of_positive (x ∷ xs) h =
    let rest = sum_of_positive xs (λ i l. h (suc i) (omega arith)) in
    let first = neg_part_of_positive x (h 0 (omega arith)) in
    (omega arith, omega (arith, h 0 (omega arith)))

neg_part_of_sum : (x : ℤ) (m : ℕ) → pos_part x ≡ neg_part x + m → neg_part x ≡ 0
neg_part_of_sum x m h = ground arith

module _ (scaled : List ℤ) (ok : IsScaled scaled) where
  abbrev pub total : ℤ
  total = sum_ℤ scaled

  pub total_neg : neg_part total ≡ 0
  total_neg =
      neg_part_of_sum total (sum_pos scaled)
        (omega (arith, sum_ℤ_parts scaled, (sum_of_positive scaled ok.positive).0))

  pub total_pos : pos_part total ≡ sum_pos scaled
  total_pos = omega (arith, sum_ℤ_parts scaled, (sum_of_positive scaled ok.positive).0, total_neg)

  pub total_ge : 1 ≤ pos_part total
  total_ge = omega (arith, total_pos, (sum_of_positive scaled ok.positive).1, ok.some_left)

  -- The credits between two rounds: they add up to zero and none has fallen to minus the total.
  pub record IsSettled (current : List ℤ) : Type 0 where
    pub len : length current ≡ length scaled
    pub balanced : sum_pos current ≡ sum_neg current
    pub above :
        (i : ℕ)
        → i < length scaled
        → neg_part (at current i) < pos_part total + pos_part (at current i)

  module _ (start : List ℤ) (v : IsSettled start) where
    abbrev grown : List ℤ
    grown = (credit (length start) 0 scaled start 0).0

    abbrev best : ℕ
    best = (credit (length start) 0 scaled start 0).1

    done : IsCredited scaled start (length start) grown best
    done = credit_all scaled start

    best-lt : best < length scaled
    best-lt = omega (arith, done.within, v.len, ok.some_left)

    grown_sum : sum_pos grown ≡ sum_neg grown + pos_part total
    grown_sum = omega (
      arith,
      sum-added grown start scaled done.len (sym v.len) done.grown,
      v.balanced,
      total_pos,
      (sum_of_positive scaled ok.positive).0,
    )

    -- The largest credit is positive, since the credits add up to the total.
    best_positive : neg_part (at grown best) < pos_part (at grown best)
    best_positive = elim (dec_lt (neg_part (at grown best)) (pos_part (at grown best))) [
      | yes h ↦ h
      | no h ↦ absurd (
          omega (
            arith,
            grown_sum,
            total_ge,
            sum_le grown (λ i l. omega (arith, done.top i (omega (arith, done.len)))),
          ))
    ]

    abbrev picked : List ℤ
    picked = set grown best (at grown best -ℤ total)

    picked_self : at picked best ≡ at grown best -ℤ total
    picked_self = get_or-set_self grown best _ (pos 0) (omega (arith, done.len, v.len, best-lt))

    picked_ne : (i : ℕ) → best ≢ i → at picked i ≡ at grown i
    picked_ne i ne = get_or-set_ne grown best i _ (pos 0) ne

    grown_at :
        (i : ℕ)
        → i < length scaled
        → pos_part (at grown i) + neg_part (at start i)
          ≡ neg_part (at grown i) + pos_part (at start i) + pos_part (at scaled i)
    grown_at i l =
        let e : at grown i ≡ at start i +ℤ at scaled i = done.grown i (omega (arith, v.len)) in
        omega (
          arith,
          ap pos_part e,
          ap neg_part e,
          +ℤ_parts (at start i) (at scaled i),
          neg_part_of_positive (at scaled i) (ok.positive i l),
        )

    picked-best_parts :
        pos_part (at picked best) + neg_part (at grown best) + pos_part total
        ≡ neg_part (at picked best) + pos_part (at grown best)
    picked-best_parts = omega (
      arith,
      ap pos_part picked_self,
      ap neg_part picked_self,
      -ℤ_parts (at grown best) total,
      total_neg,
    )

    -- What a round does to one credit.
    picked-at :
        (i : ℕ)
        → i < length scaled
        → pos_part (at picked i) + neg_part (at start i) + (if i == best then pos_part total else 0)
          ≡ neg_part (at picked i) + pos_part (at start i) + pos_part (at scaled i)
    picked-at i l = elim (Bool-cases (i == best)) [
      | inl e ↦
          let same : i ≡ best = (==_iff i best).0 e in
          rw e (rw same (omega (arith, picked-best_parts, grown_at best best-lt)))
      | inr e ↦
          let other : best ≢ i = λ h. ne_of_false (h ∙ refl) e in
          rw e (rw (picked_ne i other) (omega (arith, grown_at i l)))
    ]
      where
        ne_of_false : best ≡ i → (i == best) ≡ false → ⊥
        ne_of_false h e = ground arith

    picked_above :
        (i : ℕ)
        → i < length scaled
        → neg_part (at picked i) < pos_part total + pos_part (at picked i)
    picked_above i l = elim (ℕ_discrete best i) [
      | yes e ↦ rw (← e) (omega (arith, picked-best_parts, best_positive))
      | no ne ↦ rw (picked_ne i ne) (omega (arith, grown_at i l, v.above i l))
    ]

    IsSettled-picked : IsSettled picked
    IsSettled-picked = record {
      len = length-set grown best _ ∙ done.len ∙ v.len;
      balanced = omega (
        arith,
        sum_pos-set grown best (at grown best -ℤ total) (omega (arith, done.len, v.len, best-lt)),
        sum_neg-set grown best (at grown best -ℤ total) (omega (arith, done.len, v.len, best-lt)),
        -ℤ_parts (at grown best) total,
        total_neg,
        grown_sum,
      );
      above = picked_above;
    }

    to_u16-best : to_u16 best ≡ best
    to_u16-best = ground (arith, best-lt, ok.indexed)

  pub record IsRound (start current : List ℤ) (slot : ℕ) : Type 0 where
    pub settled : IsSettled current
    pub in_range : slot < length scaled
    pub moved :
        (i : ℕ)
        → i < length scaled
        → pos_part (at current i)
            + neg_part (at start i)
            + (if i == slot then pos_part total else 0)
          ≡ neg_part (at current i) + pos_part (at start i) + pos_part (at scaled i)

  pub pick-IsRound :
      (start : List ℤ)
      → IsSettled start
      → IsRound start (pick scaled total start).0 (pick scaled total start).1
  unfolding pick
  pick-IsRound start v = rw (to_u16-best start v) (record {
    settled = IsSettled-picked start v;
    in_range = best-lt start v;
    moved = picked-at start v;
  })
