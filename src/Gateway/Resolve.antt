-- ===== src/Gateway/Resolve.antt =====
-- crates/core/src/gateway.rs: the endpoints of a backend reference, and the ready endpoints of an
-- EndpointSlice. The decimal text of an integer, which `format!` writes, is the argument `show`.
use tuletorn.Common.{
  ℕ, ◌≤◌, ◌≡◌, refl, inl, inr, Bool, true, false, Option, none, some, List, [], ◌∷◌, ◌++◌, map, leb,
  if◌then◌else◌, ◌>>=◌, filter, filter_map, flat_map, any, All, Bool-cases, Option-cases, arith,
}
use tuletorn.Common.Bytes.{Bytes, codes, bytes_keys, pair_keys, is_empty}
use tuletorn.Common.Int.{ℤ, pos, negsuc, eq_ℤ}
use tuletorn.Common.Map.{get}
use tuletorn.Gateway.{BackendRef, ReadyEndpoint, ServiceKey, ClusterState}
use tuletorn.Target.Weights.{BackendEndpoint}

abbrev pub unwrap_or {ℓ} : {A : Type ℓ} → Option A → A → A
unwrap_or none d = d
unwrap_or (some a) d = a

-- `clamp(0, 1_000_000) as u32`
abbrev pub clamped_weight : ℤ → ℕ
clamped_weight (pos n) = if leb n 1000000 then n else 1000000
clamped_weight (negsuc n) = 0

abbrev pub backend_weight : BackendRef → ℕ
backend_weight backend = clamped_weight (unwrap_or backend.weight (pos 1))

abbrev pub backend_port : BackendRef → ℤ
backend_port backend = unwrap_or backend.port (pos 80)

abbrev pub backend_key : (route_ns : Bytes) → BackendRef → ServiceKey
backend_key route_ns backend = (unwrap_or backend.namespace route_ns, backend.name)

module _ (show : ℤ → Bytes) where
  abbrev pub ready_backend : (weight : ℕ) → ReadyEndpoint → BackendEndpoint
  ready_backend weight e = record { address = e.address ++ b':' ∷ show e.port; weight = weight }

  abbrev pub service_dns : (route_ns : Bytes) → BackendRef → BackendEndpoint
  service_dns route_ns backend = record {
    address =
        backend.name
        ++ b'.'
          ∷ ((backend_key route_ns backend).0
              ++ codes ".svc.cluster.local:"
              ++ show (backend_port backend));
    weight = backend_weight backend;
  }

  unfoldable pub resolve : ClusterState → (route_ns : Bytes) → BackendRef → List BackendEndpoint
  unfolding get
  resolve state route_ns backend = elim (get (backend_key route_ns backend) state.endpoints) [
    | none ↦ service_dns route_ns backend ∷ []
    | some eps ↦
        if any (λ e. eq_ℤ e.port (backend_port backend)) eps
        then map (ready_backend (backend_weight backend))
            (filter (λ e. eq_ℤ e.port (backend_port backend)) eps)
        else service_dns route_ns backend ∷ []
  ]

  matching :
      (p : ReadyEndpoint → Bool) (w : ℕ) (eps : List ReadyEndpoint)
      → any p eps ≡ true
      → is_empty (map (ready_backend w) (filter p eps)) ≡ false
  matching p w [] h = cc
  matching p w (e ∷ eps) h = elim (Bool-cases (p e)) [
    | inl f ↦ rw (f, filter) refl
    | inr f ↦ rw (f, filter) (matching p w eps (ground (arith, h, f)))
  ]

  weights : (w : ℕ) (eps : List ReadyEndpoint) → All (λ e. e.weight ≡ w) (map (ready_backend w) eps)
  weights w [] = tt
  weights w (e ∷ eps) = (refl, weights w eps)

  clamped_weight_le : (z : ℤ) → clamped_weight z ≤ 1000000
  clamped_weight_le (pos n) = ground arith
  clamped_weight_le (negsuc n) = ground arith

  -- A backend always resolves to some endpoint, which all carry its weight, clamped to 1,000,000.
  pub resolve_lem :
      (state : ClusterState) (route_ns : Bytes) (backend : BackendRef)
      → (is_empty (resolve state route_ns backend) ≡ false)
        × All (λ e. e.weight ≡ backend_weight backend) (resolve state route_ns backend)
        × (backend_weight backend ≤ 1000000)
  unfolding resolve
  resolve_lem state route_ns backend =
      elim (Option-cases (get (backend_key route_ns backend) state.endpoints)) [
        | inl e ↦
            rw (e, resolve) (refl, (refl, tt), clamped_weight_le (unwrap_or backend.weight (pos 1)))
        | inr (eps, e) ↦ elim (Bool-cases (any (λ r. eq_ℤ r.port (backend_port backend)) eps)) [
          | inl f ↦
              rw (e, resolve, f)
                (
                  matching (λ r. eq_ℤ r.port (backend_port backend)) (backend_weight backend) eps f,
                  weights (backend_weight backend)
                      (filter (λ r. eq_ℤ r.port (backend_port backend)) eps),
                  clamped_weight_le (unwrap_or backend.weight (pos 1)),
                )
          | inr f ↦
              rw (e, resolve, f)
                (refl, (refl, tt), clamped_weight_le (unwrap_or backend.weight (pos 1)))
        ]
      ]

-- The fields of the Kubernetes EndpointSlice that are read.
pub record Endpoint : Type 0 where
  pub ready : Option Bool
  pub addresses : List Bytes

pub record EndpointSlice : Type 0 where
  pub namespace : Option Bytes
  pub labels : Option (List (Bytes × Bytes))
  pub ports : Option (List (Option ℤ))
  pub endpoints : Option (List Endpoint)

abbrev pub slice_ports : EndpointSlice → List ℤ
slice_ports slice = elim slice.ports [ none ↦ [] | some ps ↦ filter_map (λ p. p) ps ]

abbrev pub ready_endpoints : List ℤ → Endpoint → List ReadyEndpoint
ready_endpoints ports endpoint =
    if unwrap_or endpoint.ready true
    then flat_map (λ a. map (λ p. record { address = a; port = p }) ports) endpoint.addresses
    else []

unfoldable pub parse_endpoint_slice : EndpointSlice → Option (ServiceKey × List ReadyEndpoint)
unfolding get
parse_endpoint_slice slice = slice.namespace >>= λ ns. slice.labels >>= λ labels.
    get (codes "kubernetes.io/service-name") labels >>= λ service. some (
      (ns, service),
      if is_empty (slice_ports slice)
          then []
          else flat_map (ready_endpoints (slice_ports slice)) (unwrap_or slice.endpoints []),
    )
