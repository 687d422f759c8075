-- ===== src/Target/Weights/Round.antt =====
-- One round of the table's outer loop: what the inner loop over the credits computes.
use native.Mathlib.Decide.{ℕ_discrete}
use tuletorn.Common.{
  ℕ, zero, suc, ◌+◌, ◌-◌, ◌≤◌, ◌<◌, ◌≡◌, refl, ap, ◌∙◌, inl, inr, ◌≢◌, List, arith, length, set,
  true, false, Bool-cases, if◌then◌else◌, get_or-set_self, get_or-set_ne, length-set,
}
use tuletorn.Common.Int.{ℤ, pos, ◌+ℤ◌, ◌≤ℤ◌, ltb_ℤ, le_of_ltb_ℤ, ge_of_ltb_ℤ}
use tuletorn.Target.Weights.{at, credit}

-- The inner loop's invariant when `i` credits have grown: `best` is the first of the largest.
pub record IsCredited (scaled start : List ℤ) (i : ℕ) (current : List ℤ) (best : ℕ) : Type 0 where
  pub len : length current ≡ length start
  pub grown : (j : ℕ) → j < i → at current j ≡ at start j +ℤ at scaled j
  pub kept : (j : ℕ) → i ≤ j → at current j ≡ at start j
  pub within : best ≤ i - 1
  pub top : (j : ℕ) → j < i → at current j ≤ℤ at current best

module _ (scaled start : List ℤ) where
  module _ (i best : ℕ) (current : List ℤ) (v : IsCredited scaled start i current best)
      (h : i < length start) where
    abbrev grow : List ℤ
    grow = set current i (at current i +ℤ at scaled i)

    grow_self : at grow i ≡ at start i +ℤ at scaled i
    grow_self =
        get_or-set_self current i _ (pos 0) (omega (arith, v.len))
        ∙ ap (λ x. x +ℤ at scaled i) (v.kept i (omega arith))

    grow_ne : (j : ℕ) → i ≢ j → at grow j ≡ at current j
    grow_ne j ne = get_or-set_ne current i j _ (pos 0) ne

    grown_suc : (j : ℕ) → j < i + 1 → at grow j ≡ at start j +ℤ at scaled j
    grown_suc j l = elim (ℕ_discrete i j) [
      | yes e ↦ rw (← e) grow_self
      | no ne ↦ grow_ne j ne ∙ v.grown j (omega arith)
    ]

    top_best : (j : ℕ) → j < i → at grow j ≤ℤ at grow best
    top_best j l =
        rw (grow_ne j (λ e. omega arith), grow_ne best (λ e. omega (arith, v.within))) (v.top j l)

    top_step :
        (j : ℕ) → j < i + 1 → ltb_ℤ (at grow best) (at grow i) ≡ true → at grow j ≤ℤ at grow i
    top_step j l new = elim (ℕ_discrete i j) [
      | yes e ↦ rw e (omega arith)
      | no ne ↦ omega (arith, top_best j (omega arith), le_of_ltb_ℤ (at grow best) (at grow i) new)
    ]

    top_keep :
        (j : ℕ) → j < i + 1 → ltb_ℤ (at grow best) (at grow i) ≡ false → at grow j ≤ℤ at grow best
    top_keep j l old = elim (ℕ_discrete i j) [
      | yes e ↦ rw (← e) (ge_of_ltb_ℤ (at grow best) (at grow i) old)
      | no ne ↦ top_best j (omega arith)
    ]

    abbrev next : ℕ
    next = if ltb_ℤ (at grow best) (at grow i) then i else best

    IsCredited-next : IsCredited scaled start (i + 1) grow next
    IsCredited-next = elim (Bool-cases (ltb_ℤ (at grow best) (at grow i))) [
      | inl new ↦ rw new (record {
        len = length-set current i _ ∙ v.len;
        grown = grown_suc;
        kept = λ j l. grow_ne j (λ e. omega arith) ∙ v.kept j (omega arith);
        within = omega arith;
        top = λ j l. top_step j l new;
      })
      | inr old ↦ rw old (record {
        len = length-set current i _ ∙ v.len;
        grown = grown_suc;
        kept = λ j l. grow_ne j (λ e. omega arith) ∙ v.kept j (omega arith);
        within = omega (arith, v.within);
        top = λ j l. top_keep j l old;
      })
    ]

  credit-IsCredited :
      (n i best : ℕ) (current : List ℤ)
      → i + n ≡ length start
      → IsCredited scaled start i current best
      → IsCredited scaled start
          (length start)
          (credit n i scaled current best).0
          (credit n i scaled current best).1
  unfolding credit
  credit-IsCredited zero i best current e v =
      let same : i ≡ length start = omega arith in rw (← same) v
  credit-IsCredited (suc n) i best current e v =
      credit-IsCredited n (i + 1) _ _ (omega arith) (IsCredited-next i best current v (omega arith))

  -- After the inner loop every credit has grown by its weight, and `best` is one of the largest.
  pub credit_all :
      IsCredited scaled start
        (length start)
        (credit (length start) 0 scaled start 0).0
        (credit (length start) 0 scaled start 0).1
  credit_all = credit-IsCredited (length start) 0 0 start (omega arith) (record {
    len = refl;
    grown = λ j l. elim l [ ];
    kept = λ j l. refl;
    within = omega arith;
    top = λ j l. elim l [ ];
  })
