-- ===== src/Target.antt =====
-- crates/core/src/target.rs: endpoints and load-balancing policies. A group is held behind an `Arc`
-- and its cursor is atomic, so `select` takes the group and returns it with the cursor advanced;
-- every clone of the group is the same value. `none` is an index out of bounds, a panic.
-- The lazily parsed authority of an endpoint is a cache derived from the address and is left out.
pub mod Weights
pub mod Balance
pub mod Shares
pub mod Fair
pub mod Fractions
mod Tests
use tuletorn.Common.{
  ℕ, zero, suc, ◌+◌, ◌%◌, ◌^◌, Bool, true, false, ◌&&◌, Option, none, some, List, [], ◌∷◌, ltb,
  ◌==◌, if◌then◌else◌, ◌>>=◌, length, get_elem?, filter,
}
use tuletorn.Common.Bytes.{Bytes, codes}
use Weights.{BackendEndpoint, Float, expand_weights}

pub data Policy : Type 0 where
  single : BackendEndpoint → Policy
  round_robin : (endpoints : List BackendEndpoint) (cursor : ℕ) → Policy
  weighted : (endpoints : List BackendEndpoint) (table : List ℕ) (cursor : ℕ) → Policy

pub record TargetGroup : Type 0 where
  pub inner : Policy

-- The endpoint that stands in for an empty group.
abbrev pub placeholder : BackendEndpoint
placeholder = record { address = codes "127.0.0.1:80"; weight = 1 }

-- `endpoints.retain(|e| e.weight > 0)`
abbrev pub retained : List BackendEndpoint → List BackendEndpoint
retained = filter (λ e. ltb 0 e.weight)

-- `endpoints.windows(2).all(|w| w[0].weight == w[1].weight)`
abbrev pub uniform : List BackendEndpoint → Bool
uniform [] = true
uniform (a ∷ []) = true
uniform (a ∷ b ∷ rest) = a.weight == b.weight && uniform (b ∷ rest)

-- The policy for the endpoints that are left.
unfoldable pub policy_of : Float → List BackendEndpoint → Policy
policy_of f [] = single placeholder
policy_of f (e ∷ []) = single e
policy_of f (a ∷ b ∷ rest) =
    if uniform (a ∷ b ∷ rest)
    then round_robin (a ∷ b ∷ rest) 0
    else weighted (a ∷ b ∷ rest) (expand_weights f (a ∷ b ∷ rest)) 0

unfoldable pub from_endpoints : Float → List BackendEndpoint → TargetGroup
unfolding policy_of
from_endpoints f endpoints = record { inner = policy_of f (retained endpoints) }

-- `AtomicUsize::fetch_add(1)` wraps.
abbrev pub usize_mod : ℕ
usize_mod = 2 ^ 64

abbrev pub fetch_add : ℕ → ℕ
fetch_add cursor = (cursor + 1) % usize_mod

select_policy : Policy → Option (BackendEndpoint × Policy)
select_policy (single ep) = some (ep, single ep)
select_policy (round_robin endpoints cursor) =
    get_elem? endpoints (cursor % length endpoints) >>= λ ep.
    some (ep, round_robin endpoints (fetch_add cursor))
select_policy (weighted endpoints table cursor) =
    get_elem? table (cursor % length table) >>= λ slot.
    get_elem? endpoints slot >>= λ ep. some (ep, weighted endpoints table (fetch_add cursor))

unfoldable pub select : TargetGroup → Option (BackendEndpoint × TargetGroup)
unfolding select_policy
select g = select_policy g.inner >>= λ r. some (r.0, record { inner = r.1 })

abbrev endpoints_of : Policy → List BackendEndpoint
endpoints_of (single ep) = ep ∷ []
endpoints_of (round_robin endpoints cursor) = endpoints
endpoints_of (weighted endpoints table cursor) = endpoints

unfoldable pub endpoints : TargetGroup → List BackendEndpoint
endpoints g = endpoints_of g.inner

unfoldable pub len : TargetGroup → ℕ
unfolding endpoints
len g = length (endpoints g)

-- `n` requests in a row: the endpoints selected, and the group after them.
pub serve : ℕ → TargetGroup → Option (List BackendEndpoint × TargetGroup)
serve zero g = some ([], g)
serve (suc n) g = select g >>= λ r. serve n r.1 >>= λ s. some (r.0 ∷ s.0, s.1)
