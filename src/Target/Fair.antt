-- ===== src/Target/Fair.antt =====
-- How often each endpoint of a fresh group is served: evenly in round robin, by its weight in
-- weighted round robin.
use tuletorn.Common.{
  ℕ, ◌+◌, ◌≤◌, ◌<◌, ◌^◌, ◌≡◌, refl, ap, ◌∙◌, inl, inr, List, [], ◌∷◌, map, arith, length, All, true,
  false, Bool-cases, some, ltb, ltb→lt,
}
use tuletorn.Common.Int.{pos_part}
use tuletorn.Target.{
  round_robin, weighted, TargetGroup, retained, uniform, policy_of, from_endpoints, usize_mod,
  serve,
}
use tuletorn.Target.Shares.{
  endpoint_at, cycle, share, count-cycle_zero, serve-round_robin, serve-weighted,
}
use tuletorn.Target.Weights.{
  BackendEndpoint, Float, IsExact, expand_weights, count, total_weight, max_weight_table,
  scaled_weights, sum_ℤ, at,
}
use tuletorn.Target.Weights.Cycle.{expand-count, length-expand}
use tuletorn.Target.Weights.Scaling.{
  expand_weights_range, scaled_weights-IsScaled, length-scaled_weights, scaled_weights-positive,
  scaled_weights_exact, weight_at, map_exact_total,
}

policy_of-uniform :
    (f : Float) (kept : List BackendEndpoint)
    → 1 < length kept
    → uniform kept ≡ true
    → policy_of f kept ≡ round_robin kept 0
unfolding policy_of
policy_of-uniform f [] h e = elim h [ ]
policy_of-uniform f (a ∷ []) h e = absurd (omega arith)
policy_of-uniform f (a ∷ b ∷ rest) h e = rw e

policy_of-mixed :
    (f : Float) (kept : List BackendEndpoint)
    → uniform kept ≡ false
    → (policy_of f kept ≡ weighted kept (expand_weights f kept) 0) × (0 < length kept)
unfolding policy_of
policy_of-mixed f [] e = cc
policy_of-mixed f (a ∷ []) e = cc
policy_of-mixed f (a ∷ b ∷ rest) e = (rw e, omega arith)

-- With equal weights and more than one endpoint that is not drained, the first requests, fewer than
-- `2 ^ 64`, go through those endpoints in order, over and over: after `n` of them each endpoint was
-- served `n / len` times or, as the first `n % len` are, once more.
pub round_robin_even :
    (f : Float) (es : List BackendEndpoint) (n : ℕ)
    → uniform (retained es) ≡ true
    → 1 < length (retained es)
    → n < usize_mod
    → (serve n (from_endpoints f es)
        ≡ some (
          map (endpoint_at (retained es)) (cycle (length (retained es)) 0 n),
          record { inner = round_robin (retained es) n },
        ))
      × ((i : ℕ)
          → i < length (retained es)
          → count i (cycle (length (retained es)) 0 n) ≡ share (length (retained es)) i n)
unfolding from_endpoints
round_robin_even f es n same two small =
    let zero_add : 0 + n ≡ n = omega arith in
    (
      rw (policy_of-uniform f (retained es) two same)
          (rw zero_add at (serve-round_robin (retained es) 0 n (omega arith) (omega arith))),
      λ i l. count-cycle_zero (length (retained es)) i n l,
    )

module _ (f : Float) (kept : List BackendEndpoint) (some_kept : 0 < length kept)
    (indexed : length kept ≤ 2 ^ 16) where
  count-expand_weights :
      (i : ℕ)
      → i < length kept
      → count i (expand_weights f kept) ≡ pos_part (at (scaled_weights f kept) i)
  unfolding expand_weights
  count-expand_weights i l =
      expand-count (scaled_weights f kept) (scaled_weights-IsScaled f kept some_kept indexed) i
        (omega (arith, length-scaled_weights f kept))

  length-expand_weights : length (expand_weights f kept) ≡ pos_part (sum_ℤ (scaled_weights f kept))
  unfolding expand_weights
  length-expand_weights =
      length-expand (scaled_weights f kept) (scaled_weights-IsScaled f kept some_kept indexed)

  -- One run through the table.
  serve-table :
      length (expand_weights f kept) < usize_mod
      → (g : TargetGroup) × (serve
            (length (expand_weights f kept))
            (record { inner = weighted kept (expand_weights f kept) 0 })
          ≡ some (map (endpoint_at kept) (expand_weights f kept), g))
  serve-table h =
      serve-weighted kept (expand_weights f kept) (expand_weights f kept) 0 refl h
        (expand_weights_range f kept some_kept)

-- However small its share, and whatever the scaling does to the weights, no endpoint starves: it is
-- served at least once in as many requests as the table is long, if at most 65536 endpoints of
-- different weights are left and the table has fewer than 2^64 entries.
pub weighted_serves_all :
    (f : Float) (es : List BackendEndpoint)
    → uniform (retained es) ≡ false
    → length (retained es) ≤ 2 ^ 16
    → length (expand_weights f (retained es)) < usize_mod
    → (slots : List ℕ) × (g : TargetGroup) × (serve
          (length (expand_weights f (retained es)))
          (from_endpoints f es)
        ≡ some (map (endpoint_at (retained es)) slots, g))
      × ((i : ℕ) → i < length (retained es) → 0 < count i slots)
unfolding from_endpoints
weighted_serves_all f es mixed indexed short =
    let (is_weighted, some_kept) = policy_of-mixed f (retained es) mixed in
    let (g, served) = serve-table f (retained es) some_kept indexed short in
    (
      expand_weights f (retained es),
      g,
      rw is_weighted served,
      λ i l. omega (
        arith,
        count-expand_weights f (retained es) some_kept indexed i l,
        scaled_weights-positive f (retained es) i
            (omega (arith, length-scaled_weights f (retained es))),
      ),
    )

retained_positive : (es : List BackendEndpoint) → All (λ e. 0 < e.weight) (retained es)
retained_positive [] = tt
retained_positive (e ∷ es) = elim (Bool-cases (ltb 0 e.weight)) [
  | inl live ↦ rw (live, All) (ltb→lt 0 e.weight live, retained_positive es)
  | inr drained ↦ rw (drained, All) (retained_positive es)
]

length-le-total :
    (es : List BackendEndpoint) → All (λ e. 0 < e.weight) es → length es ≤ total_weight es
length-le-total [] a = omega arith
length-le-total (e ∷ es) (p, a) = omega (arith, p, length-le-total es a)

-- Where the weights add up to at most 4096 and differ, every run of as many requests as they add up
-- to, from a fresh group, serves each endpoint exactly as often as its weight says.
pub weighted_exact :
    (f : Float)
    → IsExact f
    → (es : List BackendEndpoint) → uniform (retained es) ≡ false
    → total_weight (retained es) ≤ max_weight_table
    → (slots : List ℕ) × (g : TargetGroup) × (serve
          (total_weight (retained es))
          (from_endpoints f es)
        ≡ some (map (endpoint_at (retained es)) slots, g))
      × ((i : ℕ) → i < length (retained es) → count i slots ≡ weight_at (retained es) i)
unfolding from_endpoints
weighted_exact f exact es mixed small =
    let all = retained_positive es in
    let indexed : length (retained es) ≤ 2 ^ 16 =
      omega (arith, length-le-total (retained es) all) in
    let (is_weighted, some_kept) = policy_of-mixed f (retained es) mixed in
    let len : length (expand_weights f (retained es)) ≡ total_weight (retained es) =
      length-expand_weights f (retained es) some_kept indexed
      ∙ map_exact_total f exact (retained es) small all in
    let (g, served) = serve-table f (retained es) some_kept indexed (omega arith) in
    (
      expand_weights f (retained es),
      g,
      rw (is_weighted, ← len) served,
      λ i l.
          count-expand_weights f (retained es) some_kept indexed i l
          ∙ ap pos_part (scaled_weights_exact f exact (retained es) small all i l),
    )
