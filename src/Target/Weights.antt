-- ===== src/Target/Weights.antt =====
-- crates/core/src/target.rs, `expand_weights`: the index table of weighted round robin. `f64` is a
-- parameter; the `i64` credits are integers, whose range `Weights.Cycle` bounds.
mod Sums
mod Round
mod Settled
pub mod Scaling
pub mod Cycle
use tuletorn.Common.{
  ℕ, zero, suc, ◌+◌, ◌≡◌, refl, ◌<◌, ◌^◌, Bool, Option, List, [], ◌∷◌, map, ltb, ◌==◌,
  if◌then◌else◌, length, get_or, set, replicate,
}
use tuletorn.Common.Bytes.{Bytes}
use tuletorn.Common.Int.{ℤ, pos, negsuc, pos_part, neg_part, ◌+ℤ◌, ◌-ℤ◌, ltb_ℤ}

pub record BackendEndpoint : Type 0 where
  pub address : Bytes
  pub weight : ℕ

-- The `f64` operations that the scaling of weights calls. `round` is `.round() as i64`.
pub record Float : Type 1 where
  pub F64 : Type 0
  pub of_ℕ : ℕ → F64
  pub one : F64
  pub mul : F64 → F64 → F64
  pub div : F64 → F64 → F64
  pub round : F64 → ℤ

-- Every `u32` is an `f64`, and multiplying by 1.0 and rounding give it back.
abbrev pub IsExact : Float → Type 0
IsExact f = (n : ℕ) → n < 2 ^ 32 → f.round (f.mul (f.of_ℕ n) f.one) ≡ pos n

abbrev pub max_weight_table : ℕ
max_weight_table = 4096

abbrev pub total_weight : List BackendEndpoint → ℕ
total_weight [] = 0
total_weight (e ∷ es) = e.weight + total_weight es

abbrev pub sum_ℤ : List ℤ → ℤ
sum_ℤ [] = pos 0
sum_ℤ (x ∷ xs) = x +ℤ sum_ℤ xs

-- `i64::max(1)`
abbrev pub max_one : ℤ → ℤ
max_one x = if ltb_ℤ x (pos 1) then pos 1 else x

abbrev pub scale_of : (f : Float) → (total : ℕ) → f.F64
scale_of f total =
    if ltb max_weight_table total then f.div (f.of_ℕ max_weight_table) (f.of_ℕ total) else f.one

abbrev pub scaled_weight : (f : Float) → f.F64 → BackendEndpoint → ℤ
scaled_weight f scale e = max_one (f.round (f.mul (f.of_ℕ e.weight) scale))

unfoldable pub scaled_weights : Float → List BackendEndpoint → List ℤ
scaled_weights f endpoints = map (scaled_weight f (scale_of f (total_weight endpoints))) endpoints

-- `xs[i]` at an index in range.
abbrev pub at : List ℤ → ℕ → ℤ
at xs i = get_or xs i (pos 0)

-- `for i in 0..current.len()`: every credit grows by its weight; `best` is the first largest one.
pub credit : (rounds i : ℕ) (scaled current : List ℤ) (best : ℕ) → List ℤ × ℕ
credit zero i scaled current best = (current, best)
credit (suc n) i scaled current best =
    let current' = set current i (at current i +ℤ at scaled i) in
    let best' = if ltb_ℤ (at current' best) (at current' i) then i else best in
    credit n (i + 1) scaled current' best'

-- `u16::try_from(best).unwrap_or(0)`
abbrev pub to_u16 : ℕ → ℕ
to_u16 n = if ltb n (2 ^ 16) then n else 0

-- One round of the outer loop: the new credits and the table's next entry.
pub pick : (scaled : List ℤ) (total_scaled : ℤ) (current : List ℤ) → List ℤ × ℕ
pick scaled total_scaled current =
    let (current', best) = credit (length current) 0 scaled current 0 in
    (set current' best (at current' best -ℤ total_scaled), to_u16 best)

-- `for _ in 0..total_scaled`: the table, and the credits at the end.
pub fill : (rounds : ℕ) (scaled : List ℤ) (total_scaled : ℤ) (current : List ℤ) → List ℕ × List ℤ
fill zero scaled total_scaled current = ([], current)
fill (suc n) scaled total_scaled current =
    let (current', slot) = pick scaled total_scaled current in
    let (table, final) = fill n scaled total_scaled current' in (slot ∷ table, final)

-- The table for weights that are scaled already.
pub expand : List ℤ → List ℕ
unfolding fill pick credit
expand scaled =
    let total_scaled = sum_ℤ scaled in
    (fill (pos_part total_scaled) scaled total_scaled (replicate (length scaled) (pos 0))).0

unfoldable pub expand_weights : Float → List BackendEndpoint → List ℕ
unfolding expand scaled_weights
expand_weights f endpoints = expand (scaled_weights f endpoints)

-- How often an index stands in a table.
abbrev pub count : ℕ → List ℕ → ℕ
count i [] = 0
count i (j ∷ js) = (if i == j then 1 else 0) + count i js
