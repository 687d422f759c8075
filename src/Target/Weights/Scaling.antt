-- ===== src/Target/Weights/Scaling.antt =====
-- What scaling leaves of the weights: each is at least 1, and small weights are left as they are.
use tuletorn.Common.{
  ℕ, zero, suc, ◌+◌, ◌≤◌, ◌<◌, ◌^◌, ◌≡◌, refl, ap, ◌∙◌, List, [], ◌∷◌, map, arith, length,
  length-map, length-set, length-replicate, replicate, All, ltb, Bool-cases, inl, inr,
  if◌then◌else◌,
}
use tuletorn.Common.Int.{ℤ, pos, pos_part, ◌≤ℤ◌, ◌+ℤ◌}
use tuletorn.Target.Weights.{
  BackendEndpoint, Float, IsExact, max_weight_table, total_weight, max_one, sum_ℤ, scale_of,
  scaled_weight, scaled_weights, at, credit, pick, fill, expand, expand_weights,
}
use tuletorn.Target.Weights.Round.{credit_all}
use tuletorn.Target.Weights.Settled.{IsScaled, sum_of_positive}
use tuletorn.Target.Weights.Sums.{sum_ℤ_parts}

max_one_ge : (x : ℤ) → pos 1 ≤ℤ max_one x
max_one_ge x = ground arith

max_one_of_pos : (n : ℕ) → 0 < n → max_one (pos n) ≡ pos n
max_one_of_pos n h = ground arith

scaled_weight-at :
    (f : Float) (scale : f.F64) (es : List BackendEndpoint) (i : ℕ)
    → i < length (map (scaled_weight f scale) es)
    → pos 1 ≤ℤ at (map (scaled_weight f scale) es) i
scaled_weight-at f scale [] i l = elim l [ ]
scaled_weight-at f scale (e ∷ es) zero l = max_one_ge (f.round (f.mul (f.of_ℕ e.weight) scale))
scaled_weight-at f scale (e ∷ es) (suc i) l = scaled_weight-at f scale es i (omega arith)

pub scaled_weights-positive :
    (f : Float) (es : List BackendEndpoint) (i : ℕ)
    → i < length (scaled_weights f es)
    → pos 1 ≤ℤ at (scaled_weights f es) i
unfolding scaled_weights
scaled_weights-positive f es i l = scaled_weight-at f (scale_of f (total_weight es)) es i l

pub length-scaled_weights :
    (f : Float) (es : List BackendEndpoint) → length (scaled_weights f es) ≡ length es
unfolding scaled_weights
length-scaled_weights f es = length-map es _

pub scaled_weights-IsScaled :
    (f : Float) (es : List BackendEndpoint)
    → 0 < length es
    → length es ≤ 2 ^ 16
    → IsScaled (scaled_weights f es)
scaled_weights-IsScaled f es p q = record {
  positive = scaled_weights-positive f es;
  some_left = omega (arith, length-scaled_weights f es);
  indexed = omega (arith, length-scaled_weights f es);
}

-- The weight of the endpoint at an index in range.
abbrev pub weight_at : List BackendEndpoint → ℕ → ℕ
weight_at [] i = 0
weight_at (e ∷ es) zero = e.weight
weight_at (e ∷ es) (suc i) = weight_at es i

pos_add : (a b : ℕ) → pos a +ℤ pos b ≡ pos (a + b)
unfolding ◌+ℤ◌
pos_add a b = ground arith

module _ (f : Float) (exact : IsExact f) where
  map_exact :
      (es : List BackendEndpoint)
      → total_weight es ≤ max_weight_table
      → All (λ e. 0 < e.weight) es
      → (i : ℕ) → i < length es
      → at (map (scaled_weight f f.one) es) i ≡ pos (weight_at es i)
  map_exact [] h a i l = elim l [ ]
  map_exact (e ∷ es) h (p, a) zero l = rw (exact e.weight (omega arith)) (max_one_of_pos e.weight p)
  map_exact (e ∷ es) h (p, a) (suc i) l = map_exact es (omega arith) a i (omega arith)

  pub scaled_weights_exact :
      (es : List BackendEndpoint)
      → total_weight es ≤ max_weight_table
      → All (λ e. 0 < e.weight) es
      → (i : ℕ) → i < length es
      → at (scaled_weights f es) i ≡ pos (weight_at es i)
  unfolding scaled_weights
  scaled_weights_exact es h a i l = elim (Bool-cases (ltb max_weight_table (total_weight es))) [
    | inl big ↦ absurd (ground arith)
    | inr small ↦ rw small (map_exact es h a i l)
  ]

  map_exact_sum :
      (es : List BackendEndpoint)
      → total_weight es ≤ max_weight_table
      → All (λ e. 0 < e.weight) es
      → sum_ℤ (map (scaled_weight f f.one) es) ≡ pos (total_weight es)
  map_exact_sum [] h a = refl
  map_exact_sum (e ∷ es) h (p, a) =
      rw (exact e.weight (omega arith), max_one_of_pos e.weight p, map_exact_sum es (omega arith) a)
        (pos_add e.weight (total_weight es))

  pub map_exact_total :
      (es : List BackendEndpoint)
      → total_weight es ≤ max_weight_table
      → All (λ e. 0 < e.weight) es
      → pos_part (sum_ℤ (scaled_weights f es)) ≡ total_weight es
  unfolding scaled_weights
  map_exact_total es h a = elim (Bool-cases (ltb max_weight_table (total_weight es))) [
    | inl big ↦ absurd (ground arith)
    | inr small ↦ rw small (ap pos_part (map_exact_sum es h a))
  ]

-- Every slot of a table is the index of an endpoint, whatever the weights.
to_u16-lt : (n m : ℕ) → n < m → (if ltb n (2 ^ 16) then n else 0) < m
to_u16-lt n m h = ground arith

pick_range :
    (scaled : List ℤ) (total : ℤ) (current : List ℤ)
    → 0 < length current
    → ((pick scaled total current).1 < length current)
      × (length (pick scaled total current).0 ≡ length current)
unfolding pick
pick_range scaled total current h =
    let done = credit_all scaled current in
    (
      to_u16-lt (credit (length current) 0 scaled current 0).1 (length current)
          (omega (arith, done.within)),
      length-set (credit (length current) 0 scaled current 0).0 _ _ ∙ done.len,
    )

fill_range :
    (n : ℕ) (scaled : List ℤ) (total : ℤ) (current : List ℤ)
    → 0 < length current
    → All (λ slot. slot < length current) (fill n scaled total current).0
unfolding fill
fill_range zero scaled total current h = tt
fill_range (suc n) scaled total current h =
    let (here, same) = pick_range scaled total current h in
    (here, rw same at (fill_range n scaled total (pick scaled total current).0 (omega arith)))

pub expand_weights_range :
    (f : Float) (es : List BackendEndpoint)
    → 0 < length es
    → All (λ slot. slot < length es) (expand_weights f es)
unfolding expand_weights expand
expand_weights_range f es h =
    let same = length-scaled_weights f es in
    let zeros = length-replicate (length (scaled_weights f es)) (pos 0) ∙ same in
    rw zeros at (
      fill_range (pos_part (sum_ℤ (scaled_weights f es))) (scaled_weights f es)
        (sum_ℤ (scaled_weights f es)) (replicate (length (scaled_weights f es)) (pos 0))
        (omega arith))

length-fill :
    (n : ℕ) (scaled : List ℤ) (total : ℤ) (current : List ℤ)
    → length (fill n scaled total current).0 ≡ n
unfolding fill
length-fill zero scaled total current = refl
length-fill (suc n) scaled total current =
    ap suc (length-fill n scaled total (pick scaled total current).0)

sum_ℤ_pos :
    (xs : List ℤ)
    → 0 < length xs
    → ((i : ℕ) → i < length xs → pos 1 ≤ℤ at xs i)
    → 0 < pos_part (sum_ℤ xs)
sum_ℤ_pos xs h p = omega (arith, sum_ℤ_parts xs, sum_of_positive xs p)

pub expand_weights_nonempty :
    (f : Float) (es : List BackendEndpoint) → 0 < length es → 0 < length (expand_weights f es)
unfolding expand_weights expand
expand_weights_nonempty f es h =
    rw
      (length-fill (pos_part (sum_ℤ (scaled_weights f es))) (scaled_weights f es)
        (sum_ℤ (scaled_weights f es)) (replicate (length (scaled_weights f es)) (pos 0)))
      (sum_ℤ_pos (scaled_weights f es) (omega (arith, length-scaled_weights f es))
        (scaled_weights-positive f es))
