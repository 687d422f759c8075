-- ===== src/Gateway/Compile.antt =====
-- crates/core/src/gateway.rs, `ClusterState::compile`: the routes of the cluster as route specs. The
-- code walks `HashMap::values`, whose order is the map's own: it is an argument, and not that of the list.
use mathlib.Core.List.{Perm}
use tuletorn.Common.{
  ℕ, ◌+◌, ◌≡◌, inl, inr, Bool, true, false, Option, none, some, List, [], ◌∷◌, ◌++◌, map,
  if◌then◌else◌, ◌>>=◌, flat_map, any, All, All-append, Bool-cases,
}
use tuletorn.Common.Bytes.{Bytes, codes, bytes_eq, is_empty}
use tuletorn.Common.Int.{ℤ, pos}
use tuletorn.Gateway.{
  ControllerConfig, ParentRef, HttpRouteMatch, HttpRouteRule, StoredRoute, ServiceKey, ClusterState,
}
use tuletorn.Gateway.Filters.{compile_filters}
use tuletorn.Gateway.Resolve.{unwrap_or, resolve}
use tuletorn.Http.{Http}
use tuletorn.RouteTable.{RouteTable}
use tuletorn.RouteTable.Builder
use tuletorn.RouteTable.Builder.{RouteSpec, RouteAction, add_all, build}
use tuletorn.RouteTable.Pattern.{PathMatch, prefix, exact}
use tuletorn.RouteTable.Trie.{Matchit}
use tuletorn.Target.Weights.{BackendEndpoint, Float}

-- One of a route's `parentRefs` names the Gateway `want`, in the namespace that is ours.
abbrev parent_is_ours : ControllerConfig → StoredRoute → (want : Bytes) → ParentRef → Bool
parent_is_ours cfg stored want p =
    if bytes_eq p.name want
    then (elim cfg.namespace [
      | none ↦ true
      | some ours ↦ bytes_eq ours (unwrap_or p.namespace stored.namespace)
    ])
    else false

unfoldable pub route_is_ours : ControllerConfig → StoredRoute → Bool
unfolding bytes_eq
route_is_ours cfg stored = elim cfg.gateway_name [
  | none ↦ true
  | some want ↦
      if is_empty stored.spec.parent_refs
      then true
      else any (parent_is_ours cfg stored want) stored.spec.parent_refs
]

abbrev pub path_kind : Option Bytes → PathMatch
path_kind none = prefix
path_kind (some kind) = if bytes_eq kind (codes "Exact") then exact else prefix

abbrev path_of : HttpRouteMatch → Bytes × PathMatch
path_of m =
    (unwrap_or (m.path >>= λ p. p.value) (b'/' ∷ []), path_kind (m.path >>= λ p. p.match_type))

-- The order in which a map gives its routes: each of them once.
pub record Values : Type 0 where
  pub walk : List (ServiceKey × StoredRoute) → List (ServiceKey × StoredRoute)
  pub walk-Perm : (routes : List (ServiceKey × StoredRoute)) → Perm (walk routes) routes

-- No matches stand for every path, and no hostnames for every host.
abbrev paths_of : HttpRouteRule → List (Bytes × PathMatch)
paths_of rule = if is_empty rule.matches then (b'/' ∷ [], prefix) ∷ [] else map path_of rule.matches

abbrev hosts_of : StoredRoute → List (Option Bytes)
hosts_of stored =
    if is_empty stored.spec.hostnames then none ∷ [] else map (λ h. some h) stored.spec.hostnames

module _ (x : Http) (show : ℤ → Bytes) where
  abbrev spec_of :
      StoredRoute
      → (rule_idx : ℕ) → HttpRouteRule
      → List BackendEndpoint
      → Option Bytes
      → Bytes × PathMatch
      → RouteSpec x
  spec_of stored rule_idx rule endpoints hostname (path, path_match) = record {
    hostname = hostname;
    path = path;
    path_match = path_match;
    endpoints = endpoints;
    filters = compile_filters x rule.filters path;
    route_name = stored.namespace ++ b'/' ∷ (stored.name ++ b'#' ∷ show (pos rule_idx));
  }

  abbrev rule_endpoints : ClusterState → StoredRoute → HttpRouteRule → List BackendEndpoint
  rule_endpoints state stored rule =
      flat_map (resolve show state stored.namespace) rule.backend_refs

  -- The specs of one rule; a rule without backends is skipped.
  unfoldable pub rule_specs : ClusterState → StoredRoute → ℕ → HttpRouteRule → List (RouteSpec x)
  unfolding bytes_eq resolve compile_filters
  rule_specs state stored rule_idx rule =
      let endpoints = rule_endpoints state stored rule in
      if is_empty endpoints
      then []
      else flat_map
          (λ hostname. map (spec_of stored rule_idx rule endpoints hostname) (paths_of rule))
          (hosts_of stored)

  pub rules_specs :
      ClusterState → StoredRoute → (rule_idx : ℕ) → List HttpRouteRule → List (RouteSpec x)
  unfolding rule_specs
  rules_specs state stored rule_idx [] = []
  rules_specs state stored rule_idx (rule ∷ rules) =
      rule_specs state stored rule_idx rule ++ rules_specs state stored (rule_idx + 1) rules

  pub specs_of :
      ControllerConfig → ClusterState → List (ServiceKey × StoredRoute) → List (RouteSpec x)
  unfolding route_is_ours rules_specs
  specs_of cfg state [] = []
  specs_of cfg state ((key, stored) ∷ routes) =
      let rest = specs_of cfg state routes in
      if route_is_ours cfg stored
      then rules_specs state stored 0 stored.spec.rules ++ rest
      else rest

  unfoldable pub compile :
      (f : Float) (t : Matchit (RouteAction x))
      → ControllerConfig
      → Values
      → ClusterState
      → RouteTable t
  unfolding specs_of add_all build
  compile f t cfg values state =
      build x t (add_all x f (specs_of cfg state (values.walk state.routes)) (Builder.new x))

  abbrev pub HasEndpoints : RouteSpec x → Type 0
  HasEndpoints spec = is_empty spec.endpoints ≡ false

  All-map :
      {B : Type 0} (g : B → RouteSpec x) (bs : List B)
      → ((b : B) → HasEndpoints (g b))
      → All HasEndpoints (map g bs)
  All-map g [] h = tt
  All-map g (b ∷ bs) h = (h b, All-map g bs h)

  All-flat_map :
      {B : Type 0} (g : B → List (RouteSpec x)) (bs : List B)
      → ((b : B) → All HasEndpoints (g b))
      → All HasEndpoints (flat_map g bs)
  All-flat_map g [] h = tt
  All-flat_map g (b ∷ bs) h =
      All-append HasEndpoints (g b) (flat_map g bs) (h b) (All-flat_map g bs h)

  rule_specs-HasEndpoints :
      (state : ClusterState) (stored : StoredRoute) (i : ℕ) (rule : HttpRouteRule)
      → All HasEndpoints (rule_specs state stored i rule)
  unfolding rule_specs
  rule_specs-HasEndpoints state stored i rule =
      elim (Bool-cases (is_empty (rule_endpoints state stored rule))) [
        | inl e ↦ rw (e, rule_specs) tt
        | inr e ↦
            rw (e, rule_specs)
              (All-flat_map
                (λ hostname.
                  map (spec_of stored i rule (rule_endpoints state stored rule) hostname)
                    (paths_of rule))
                (hosts_of stored)
                (λ hostname.
                  All-map (spec_of stored i rule (rule_endpoints state stored rule) hostname)
                    (paths_of rule) (λ m. e)))
      ]

  rules_specs-HasEndpoints :
      (state : ClusterState) (stored : StoredRoute) (i : ℕ) (rules : List HttpRouteRule)
      → All HasEndpoints (rules_specs state stored i rules)
  unfolding rules_specs
  rules_specs-HasEndpoints state stored i [] = tt
  rules_specs-HasEndpoints state stored i (rule ∷ rules) =
      All-append HasEndpoints (rule_specs state stored i rule)
        (rules_specs state stored (i + 1) rules) (rule_specs-HasEndpoints state stored i rule)
        (rules_specs-HasEndpoints state stored (i + 1) rules)

  -- Every route that is compiled has an endpoint to go to.
  pub specs_of-HasEndpoints :
      (cfg : ControllerConfig) (state : ClusterState) (routes : List (ServiceKey × StoredRoute))
      → All HasEndpoints (specs_of cfg state routes)
  unfolding specs_of
  specs_of-HasEndpoints cfg state [] = tt
  specs_of-HasEndpoints cfg state ((key, stored) ∷ routes) =
      elim (Bool-cases (route_is_ours cfg stored)) [
        | inl e ↦
            rw (e, specs_of)
              (All-append HasEndpoints (rules_specs state stored 0 stored.spec.rules)
                (specs_of cfg state routes)
                (rules_specs-HasEndpoints state stored 0 stored.spec.rules)
                (specs_of-HasEndpoints cfg state routes))
        | inr e ↦ rw (e, specs_of) (specs_of-HasEndpoints cfg state routes)
      ]
