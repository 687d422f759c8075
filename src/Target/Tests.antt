-- ===== src/Target/Tests.antt =====
-- Tests of the target groups, and the theorems about them at concrete inputs.
use tuletorn.Common.{ℕ, ◌<◌, ◌≡◌, refl, some, List, [], ◌∷◌, map, arith, length, All, ap}
use tuletorn.Common.Bytes.{codes}
use tuletorn.Common.Int.{pos, ◌+ℤ◌, ◌-ℤ◌}
use tuletorn.Target.{TargetGroup, round_robin, placeholder, retained, from_endpoints, select, serve}
use tuletorn.Target.Balance.{IsEligible, serve-IsEligible}
use tuletorn.Target.Fair.{round_robin_even, weighted_serves_all, weighted_exact}
use tuletorn.Target.Fractions.{fractions}
use tuletorn.Target.Shares.{endpoint_at, cycle, share}
use tuletorn.Target.Weights.{BackendEndpoint, IsExact, expand_weights, count, total_weight}
use tuletorn.Target.Weights.Scaling.{weight_at}

fractions-IsExact : IsExact fractions
fractions-IsExact n h = ap pos (omega arith)

abbrev a_80 : ℕ → BackendEndpoint
a_80 w = record { address = codes "a:80"; weight = w }

abbrev b_80 : ℕ → BackendEndpoint
b_80 w = record { address = codes "b:80"; weight = w }

abbrev three_to_one : List BackendEndpoint
three_to_one = a_80 3 ∷ b_80 1 ∷ []

abbrev equal : List BackendEndpoint
equal = a_80 1 ∷ b_80 1 ∷ []

-- Weights 3 and 1 are served interleaved, and a drained endpoint gets nothing.
serve-three_to_one :
    (g : TargetGroup) × (serve 5 (from_endpoints fractions (b_80 0 ∷ three_to_one))
      ≡ some (a_80 3 ∷ a_80 3 ∷ b_80 1 ∷ a_80 3 ∷ a_80 3 ∷ [], g))
unfolding serve select from_endpoints expand_weights ◌+ℤ◌ ◌-ℤ◌
serve-three_to_one = (_, refl)

serve_none :
    (g : TargetGroup) × (serve 2 (from_endpoints fractions [])
      ≡ some (placeholder ∷ placeholder ∷ [], g))
unfolding serve select from_endpoints
serve_none = (_, refl)

serve-IsEligible_example :
    (served : List BackendEndpoint) × (g : TargetGroup) × (serve 9
        (from_endpoints fractions three_to_one)
      ≡ some (served, g))
    × (length served ≡ 9)
    × All (IsEligible three_to_one) served
serve-IsEligible_example = serve-IsEligible fractions three_to_one 9

round_robin_even_example :
    (serve 5 (from_endpoints fractions equal)
      ≡ some (
        map (endpoint_at (retained equal)) (cycle (length (retained equal)) 0 5),
        record { inner = round_robin (retained equal) 5 },
      ))
    × ((i : ℕ)
        → i < length (retained equal)
        → count i (cycle (length (retained equal)) 0 5) ≡ share (length (retained equal)) i 5)
round_robin_even_example = round_robin_even fractions equal 5 refl (omega arith) (omega arith)

table_length : length (expand_weights fractions (retained three_to_one)) ≡ 4
unfolding expand_weights ◌+ℤ◌
table_length = refl

weighted_serves_all_example :
    (slots : List ℕ) × (g : TargetGroup) × (serve
        (length (expand_weights fractions (retained three_to_one)))
        (from_endpoints fractions three_to_one)
      ≡ some (map (endpoint_at (retained three_to_one)) slots, g))
    × ((i : ℕ) → i < length (retained three_to_one) → 0 < count i slots)
weighted_serves_all_example =
    weighted_serves_all fractions three_to_one refl (omega arith) (omega (arith, table_length))

weighted_exact_example :
    (slots : List ℕ) × (g : TargetGroup) × (serve
        (total_weight (retained three_to_one))
        (from_endpoints fractions three_to_one)
      ≡ some (map (endpoint_at (retained three_to_one)) slots, g))
    × ((i : ℕ)
        → i < length (retained three_to_one)
        → count i slots ≡ weight_at (retained three_to_one) i)
weighted_exact_example = weighted_exact fractions fractions-IsExact three_to_one refl (omega arith)
