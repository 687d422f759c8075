-- ===== src/Gateway/Once.antt =====
-- crates/core/src/gateway.rs, `reconcile_once`: one listing of each kind, and the table published from
-- it. A listing is `none` where the cluster's API fails.
use tuletorn.Common.{
  ℕ, ◌≡◌, refl, ap, ◌∙◌, inl, inr, Option, none, some, List, [], ◌∷◌, ◌++◌, map, Option-cases,
}
use tuletorn.Common.Bytes.{Bytes, pair_keys}
use tuletorn.Common.Int.{ℤ}
use tuletorn.Common.Map.{insert}
use tuletorn.Gateway.{ControllerConfig, ClusterState}
use tuletorn.Gateway.Compile.{Values, compile}
use tuletorn.Gateway.Rebuild.{no_cluster, compiled}
use tuletorn.Gateway.Resolve.{EndpointSlice, parse_endpoint_slice}
use tuletorn.Gateway.Watch.{
  RouteObject, Event, route_applied, slice_applied, Watched, key_of, stored_as, handle, handle_all,
}
use tuletorn.Http.{Http}
use tuletorn.RouteTable.Builder.{RouteAction}
use tuletorn.RouteTable.Shared.{SharedRouteTable, from_table, store}
use tuletorn.RouteTable.Trie.{Matchit}
use tuletorn.Target.Weights.{Float}

abbrev list_route : RouteObject → ClusterState → ClusterState
list_route obj state = elim (key_of obj) [
  | none ↦ state
  | some key ↦ elim obj.spec [
    | none ↦ state
    | some spec ↦ record state { routes = insert key (stored_as key spec) state.routes }
  ]
]

abbrev list_routes : List RouteObject → ClusterState → ClusterState
list_routes [] state = state
list_routes (obj ∷ objs) state = list_routes objs (list_route obj state)

abbrev list_slice : EndpointSlice → ClusterState → ClusterState
list_slice slice state = elim (parse_endpoint_slice slice) [
  | none ↦ state
  | some (key, eps) ↦ record state { endpoints = insert key eps state.endpoints }
]

abbrev list_slices : List EndpointSlice → ClusterState → ClusterState
list_slices [] state = state
list_slices (slice ∷ slices) state = list_slices slices (list_slice slice state)

route_lem :
    (obj : RouteObject) (w : Watched)
    → (handle (route_applied obj) w).state ≡ list_route obj w.state
unfolding handle
route_lem obj w = elim (Option-cases (key_of obj)) [
  | inl e ↦ rw (e, handle, list_route) refl
  | inr (key, e) ↦ elim (Option-cases obj.spec) [
    | inl g ↦ rw (e, handle, list_route, g) refl
    | inr (spec, g) ↦ rw (e, handle, list_route, g) refl
  ]
]

routes_lem :
    (objs : List RouteObject) (w : Watched)
    → (handle_all (map route_applied objs) w).state ≡ list_routes objs w.state
unfolding handle_all
routes_lem [] w = refl
routes_lem (obj ∷ objs) w =
    routes_lem objs (handle (route_applied obj) w) ∙ ap (list_routes objs) (route_lem obj w)

slice_lem :
    (slice : EndpointSlice) (w : Watched)
    → (handle (slice_applied slice) w).state ≡ list_slice slice w.state
unfolding handle
slice_lem slice w = elim (Option-cases (parse_endpoint_slice slice)) [
  | inl e ↦ rw (e, handle, list_slice) refl
  | inr ((key, eps), e) ↦ rw (e, handle, list_slice) refl
]

slices_lem :
    (slices : List EndpointSlice) (w : Watched)
    → (handle_all (map slice_applied slices) w).state ≡ list_slices slices w.state
unfolding handle_all
slices_lem [] w = refl
slices_lem (slice ∷ slices) w =
    slices_lem slices (handle (slice_applied slice) w) ∙ ap (list_slices slices) (slice_lem slice w)

handle_all-append :
    (evs fs : List Event) (w : Watched)
    → handle_all (evs ++ fs) w ≡ handle_all fs (handle_all evs w)
unfolding handle_all
handle_all-append [] fs w = refl
handle_all-append (ev ∷ evs) fs w = handle_all-append evs fs (handle ev w)

module _ (x : Http) (show : ℤ → Bytes) (f : Float) (t : Matchit (RouteAction x))
    (cfg : ControllerConfig) (values : Values) where
  -- The number of routes, or `none` for an error, and the cell behind the call.
  unfoldable pub reconcile_once :
      (routes : Option (List RouteObject)) (slices : Option (List EndpointSlice))
      → SharedRouteTable t
      → Option ℕ × SharedRouteTable t
  unfolding insert parse_endpoint_slice compile
  reconcile_once none slices shared = (none, shared)
  reconcile_once (some objs) none shared = (none, shared)
  reconcile_once (some objs) (some slices) shared =
      let state = list_slices slices (list_routes objs no_cluster.state) in
      let table = compile x show f t cfg values state in
      (some table.route_count, store t table shared)

-- A reconciliation from two listings publishes the table that is compiled, in the order in which its own
-- map gives the routes, from the state that the watches come to when the same objects are applied, and
-- gives its number of routes; where a listing fails it publishes nothing and gives the error.
pub reconcile_once-handle_all :
    (x : Http) (show : ℤ → Bytes) (f : Float) (t : Matchit (RouteAction x)) (cfg : ControllerConfig)
    (values : Values) (objs : List RouteObject) (slices : List EndpointSlice)
    (shared : SharedRouteTable t)
    → let table =
        compiled x show f t cfg values
          (handle_all (map route_applied objs ++ map slice_applied slices) no_cluster) in
      (reconcile_once x show f t cfg values (some objs) (some slices) shared
        ≡ (some table.route_count, from_table t table))
      × (reconcile_once x show f t cfg values none (some slices) shared ≡ (none, shared))
      × (reconcile_once x show f t cfg values (some objs) none shared ≡ (none, shared))
unfolding reconcile_once
reconcile_once-handle_all x show f t cfg values objs slices shared =
    rw
      (
        handle_all-append (map route_applied objs) (map slice_applied slices) no_cluster,
        slices_lem slices (handle_all (map route_applied objs) no_cluster),
        routes_lem objs no_cluster,
      )
      (refl, refl, refl)
