-- ===== src/Target/Balance.antt =====
-- What a group serves: `select` never fails, only endpoints with a positive weight are served, and
-- each policy gives every endpoint its share.
use mathlib.Core.List.{Memᴰ}
use tuletorn.Common.{
  ℕ, zero, suc, ◌<◌, ◌%◌, ◌≡◌, refl, ap, ◌⊎◌, inl, inr, List, [], ◌∷◌, arith, length, All,
  get_elem?-All, ltb, ltb→lt, Bool-cases, some,
}
use tuletorn.Target.{
  Policy, single, round_robin, weighted, TargetGroup, placeholder, retained, uniform, policy_of,
  from_endpoints, fetch_add, select_policy, select, serve,
}
use tuletorn.Target.Weights.{BackendEndpoint, Float}
use tuletorn.Target.Weights.Scaling.{expand_weights_range, expand_weights_nonempty}

-- An endpoint that may be served: of positive weight, and configured unless all are drained.
abbrev pub IsEligible : List BackendEndpoint → BackendEndpoint → Type 0
IsEligible es e = (0 < e.weight) × (Memᴰ e es ⊎ ((retained es ≡ []) × (e ≡ placeholder)))

abbrev IsReady : List BackendEndpoint → Policy → Type 0
IsReady es (single e) = IsEligible es e
IsReady es (round_robin kept cursor) = All (IsEligible es) kept × (0 < length kept)
IsReady es (weighted kept table cursor) =
    All (IsEligible es) kept × All (λ slot. slot < length kept) table × (0 < length table)

module _ (es : List BackendEndpoint) where
  select_policy-IsReady :
      (p : Policy)
      → IsReady es p
      → (e : BackendEndpoint) × (q : Policy) × (select_policy p ≡ some (e, q))
        × IsEligible es e
        × IsReady es q
  unfolding select_policy
  select_policy-IsReady (single e) h = (e, single e, refl, h, h)
  select_policy-IsReady (round_robin kept cursor) (a, p) =
      let (e, found, good) =
        get_elem?-All (IsEligible es) kept (cursor % length kept) (omega arith) a in
      (e, round_robin kept (fetch_add cursor), rw found, good, (a, p))
  select_policy-IsReady (weighted kept table cursor) (a, s, p) =
      let (slot, found, l) =
        get_elem?-All (λ slot. slot < length kept) table (cursor % length table) (omega arith) s in
      let (e, at_slot, good) = get_elem?-All (IsEligible es) kept slot l a in
      (e, weighted kept table (fetch_add cursor), rw found (rw at_slot), good, (a, s, p))

  serve-IsReady :
      (n : ℕ) (g : TargetGroup)
      → IsReady es g.inner
      → (served : List BackendEndpoint) × (g' : TargetGroup) × (serve n g ≡ some (served, g'))
        × (length served ≡ n)
        × All (IsEligible es) served
  unfolding serve select
  serve-IsReady zero g h = ([], g, refl, refl, tt)
  serve-IsReady (suc n) g h =
      let (e, q, here, good, next) = select_policy-IsReady g.inner h in
      let (served, g', rest, len, all) = serve-IsReady n (record { inner = q }) next in
      (e ∷ served, g', rw here (rw rest), ap suc len, (good, all))

  retained-IsEligible :
      (xs : List BackendEndpoint)
      → ((e : BackendEndpoint) → Memᴰ e xs → Memᴰ e es)
      → All (IsEligible es) (retained xs)
  retained-IsEligible [] sub = tt
  retained-IsEligible (x ∷ xs) sub = elim (Bool-cases (ltb 0 x.weight)) [
    | inl live ↦
        rw (live, All)
          (
            (ltb→lt 0 x.weight live, inl (sub x (Memᴰ.head refl))),
            retained-IsEligible xs (λ e m. sub e (Memᴰ.tail m)),
          )
    | inr drained ↦ rw (drained, All) (retained-IsEligible xs (λ e m. sub e (Memᴰ.tail m)))
  ]

  policy_of-IsReady :
      (f : Float) (kept : List BackendEndpoint)
      → retained es ≡ kept
      → All (IsEligible es) kept
      → IsReady es (policy_of f kept)
  unfolding policy_of
  policy_of-IsReady f [] none_left all = (omega arith, inr (none_left, refl))
  policy_of-IsReady f (e ∷ []) _ (good, _) = good
  policy_of-IsReady f (a ∷ b ∷ rest) _ all = elim (Bool-cases (uniform (a ∷ b ∷ rest))) [
    | inl same ↦ rw same (all, omega arith)
    | inr mixed ↦ rw mixed (
      all,
      expand_weights_range f (a ∷ b ∷ rest) (omega arith),
      expand_weights_nonempty f (a ∷ b ∷ rest) (omega arith),
    )
  ]

-- However many requests a fresh group serves, each gets an endpoint of positive weight, one of the
-- configured ones unless all of them are drained; no index is ever out of bounds.
pub serve-IsEligible :
    (f : Float) (es : List BackendEndpoint) (n : ℕ)
    → (served : List BackendEndpoint) × (g : TargetGroup) × (serve n (from_endpoints f es)
        ≡ some (served, g))
      × (length served ≡ n)
      × All (IsEligible es) served
unfolding from_endpoints
serve-IsEligible f es n =
    serve-IsReady es n (from_endpoints f es)
      (policy_of-IsReady es f (retained es) refl (retained-IsEligible es es (λ e m. m)))
