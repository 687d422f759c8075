-- ===== src/Bench/Deployment.antt =====
-- crates/bench/src/k8s/deployer.rs: what the deployer asks of the cluster for a candidate, in order; it stops
-- at the first call that fails.
use tuletorn.Common.{ℕ, Option, none, some, List, [], ◌∷◌, ◌++◌}
use tuletorn.Common.Bytes.{Bytes, codes}
use tuletorn.Bench.Candidates.{Candidate, hyper, pingora, monoio, traefik}

abbrev pub traefik_manifest : Bytes
traefik_manifest = codes "k8s/traefik/deployment.yaml"

abbrev pub traefik_gateway : Bytes
traefik_gateway = codes "k8s/traefik/gateway.yaml"

abbrev pub benchmark_route : Bytes
benchmark_route = codes "k8s/routes/benchmark-httproute.yaml"

abbrev pub for_candidate : Candidate → Option Bytes
for_candidate hyper = some (codes "k8s/rust-proxies/hyper-deployment.yaml")
for_candidate pingora = some (codes "k8s/rust-proxies/pingora-deployment.yaml")
for_candidate monoio = some (codes "k8s/rust-proxies/monoio-deployment.yaml")
for_candidate traefik = some traefik_manifest

abbrev pub host_port : Candidate → ℕ
host_port traefik = 8000
host_port hyper = 8001
host_port pingora = 8002
host_port monoio = 8003

abbrev pub gateway_name : Candidate → Bytes
gateway_name hyper = codes "lb-gateway-hyper"
gateway_name pingora = codes "lb-gateway-pingora"
gateway_name monoio = codes "lb-gateway-monoio"
gateway_name traefik = codes "traefik-gateway"

-- Namespace and name.
abbrev pub deployment_ref : Candidate → Bytes × Bytes
deployment_ref hyper = (codes "default", codes "lb-proxy-hyper")
deployment_ref pingora = (codes "default", codes "lb-proxy-pingora")
deployment_ref monoio = (codes "default", codes "lb-proxy-monoio")
deployment_ref traefik = (codes "traefik", codes "traefik")

-- A call of `kubectl`.
pub data Action : Type 0 where
  apply delete : (manifest : Bytes) → Action
  wait_for_rollout : (namespace deployment : Bytes) → Action

-- Traefik's Gateway is a manifest of its own.
abbrev pub own_gateway : Candidate → List Action
own_gateway traefik = apply traefik_gateway ∷ []
own_gateway _ = []

-- None where the candidate has no manifest.
abbrev pub deploy_candidate : Candidate → Option (List Action)
deploy_candidate c = elim (for_candidate c) [
  | none ↦ none
  | some manifest ↦
      let (namespace, deployment) = deployment_ref c in
      some (
        apply manifest
        ∷ wait_for_rollout namespace deployment
        ∷ (own_gateway c ++ apply benchmark_route ∷ []))
]

abbrev pub remove_candidate : Candidate → List Action
remove_candidate c = elim (for_candidate c) [ none ↦ [] | some manifest ↦ delete manifest ∷ [] ]
