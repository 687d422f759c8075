-- ===== src/Gateway/Watch.antt =====
-- crates/core/src/gateway.rs, `watch_httproutes` and `watch_endpointslices`: the cluster state after
-- the events of the two watches, in the order in which they take the lock. An object of an event
-- comes parsed; a failed watch ends its stream and starts again with an initial listing.
use tuletorn.Common.{
  ◌≡◌, refl, ap, ◌∙◌, inl, inr, Bool, true, Option, none, some, List, [], ◌∷◌, if◌then◌else◌,
  Option-cases,
}
use tuletorn.Common.Bytes.{Bytes, pair_keys, pair_eq}
use tuletorn.Common.Map.{get, insert, remove, get-insert, get-remove}
use tuletorn.Gateway.{HttpRouteSpec, StoredRoute, ReadyEndpoint, ServiceKey, ClusterState}
use tuletorn.Gateway.Resolve.{EndpointSlice, parse_endpoint_slice}

-- `metadata.name`, `metadata.namespace`, and the spec if it parses.
pub record RouteObject : Type 0 where
  pub name : Option Bytes
  pub namespace : Option Bytes
  pub spec : Option HttpRouteSpec

pub data Event : Type 0 where
  route_applied route_deleted : RouteObject → Event
  slice_applied slice_deleted : EndpointSlice → Event
  routes_init slices_init init_done watch_error : Event

-- The state behind the lock, and whether a rebuild was asked for.
pub record Watched : Type 0 where
  pub state : ClusterState
  pub dirty : Bool

abbrev with_routes : List (ServiceKey × StoredRoute) → Bool → Watched → Watched
with_routes routes dirty w = record {
  state = record { routes = routes; endpoints = w.state.endpoints };
  dirty = dirty;
}

abbrev with_endpoints : List (ServiceKey × List ReadyEndpoint) → Bool → Watched → Watched
with_endpoints endpoints dirty w = record {
  state = record { routes = w.state.routes; endpoints = endpoints };
  dirty = dirty;
}

-- The key of an object that has both its parts.
abbrev pub key_of : RouteObject → Option ServiceKey
key_of obj = elim obj.name [
  | none ↦ none
  | some name ↦ elim obj.namespace [ none ↦ none | some ns ↦ some (ns, name) ]
]

abbrev pub stored_as : ServiceKey → HttpRouteSpec → StoredRoute
stored_as key spec = record { namespace = key.0; name = key.1; spec = spec }

unfoldable pub handle : Event → Watched → Watched
unfolding insert remove parse_endpoint_slice
handle (route_applied obj) w = elim (key_of obj) [
  | none ↦ w
  | some key ↦ elim obj.spec [
    | none ↦ w
    | some spec ↦ with_routes (insert key (stored_as key spec) w.state.routes) true w
  ]
]
handle (route_deleted obj) w = elim (key_of obj) [
  | none ↦ w
  | some key ↦ with_routes (remove key w.state.routes) true w
]
handle (slice_applied slice) w = elim (parse_endpoint_slice slice) [
  | none ↦ w
  | some (key, eps) ↦ with_endpoints (insert key eps w.state.endpoints) true w
]
handle (slice_deleted slice) w = elim (parse_endpoint_slice slice) [
  | none ↦ w
  | some (key, _) ↦ with_endpoints (remove key w.state.endpoints) true w
]
handle routes_init w = with_routes [] w.dirty w
handle slices_init w = with_endpoints [] w.dirty w
handle init_done w = record { state = w.state; dirty = true }
handle watch_error w = w

unfoldable pub handle_all : List Event → Watched → Watched
unfolding handle
handle_all [] w = w
handle_all (ev ∷ evs) w = handle_all evs (handle ev w)

-- What one event says of the route with a key.
pub route_after : ServiceKey → Event → Option StoredRoute → Option StoredRoute
route_after key (route_applied obj) o = elim (key_of obj) [
  | none ↦ o
  | some k ↦ elim obj.spec [
    | none ↦ o
    | some spec ↦ if pair_eq k key then some (stored_as k spec) else o
  ]
]
route_after key (route_deleted obj) o = elim (key_of obj) [
  | none ↦ o
  | some k ↦ if pair_eq k key then none else o
]
route_after key routes_init o = none
route_after key (slice_applied slice) o = o
route_after key (slice_deleted slice) o = o
route_after key slices_init o = o
route_after key init_done o = o
route_after key watch_error o = o

-- What one event says of the endpoints of a Service.
pub endpoints_after : ServiceKey → Event → Option (List ReadyEndpoint) → Option (List ReadyEndpoint)
unfolding parse_endpoint_slice
endpoints_after key (slice_applied slice) o = elim (parse_endpoint_slice slice) [
  | none ↦ o
  | some (k, eps) ↦ if pair_eq k key then some eps else o
]
endpoints_after key (slice_deleted slice) o = elim (parse_endpoint_slice slice) [
  | none ↦ o
  | some (k, _) ↦ if pair_eq k key then none else o
]
endpoints_after key slices_init o = none
endpoints_after key (route_applied obj) o = o
endpoints_after key (route_deleted obj) o = o
endpoints_after key routes_init o = o
endpoints_after key init_done o = o
endpoints_after key watch_error o = o

abbrev pub fold_events {ℓ} : {A : Type ℓ} → (Event → A → A) → List Event → A → A
fold_events f [] a = a
fold_events f (ev ∷ evs) a = fold_events f evs (f ev a)

route_lem :
    (key : ServiceKey) (ev : Event) (w : Watched)
    → get key (handle ev w).state.routes ≡ route_after key ev (get key w.state.routes)
unfolding handle route_after get
route_lem key (route_applied obj) w = elim (Option-cases (key_of obj)) [
  | inl e ↦ rw (e, handle, route_after) refl
  | inr (k, e) ↦ elim (Option-cases obj.spec) [
    | inl f ↦ rw (e, handle, route_after, f) refl
    | inr (spec, f) ↦
        rw (e, handle, route_after, f) (get-insert k key (stored_as k spec) w.state.routes)
  ]
]
route_lem key (route_deleted obj) w = elim (Option-cases (key_of obj)) [
  | inl e ↦ rw (e, handle, route_after) refl
  | inr (k, e) ↦ rw (e, handle, route_after) (get-remove k key w.state.routes)
]
route_lem key (slice_applied slice) w = elim (Option-cases (parse_endpoint_slice slice)) [
  | inl e ↦ rw (e, handle) refl
  | inr (p, e) ↦ rw (e, handle) refl
]
route_lem key (slice_deleted slice) w = elim (Option-cases (parse_endpoint_slice slice)) [
  | inl e ↦ rw (e, handle) refl
  | inr (p, e) ↦ rw (e, handle) refl
]
route_lem key routes_init w = refl
route_lem key slices_init w = refl
route_lem key init_done w = refl
route_lem key watch_error w = refl

endpoints_lem :
    (key : ServiceKey) (ev : Event) (w : Watched)
    → get key (handle ev w).state.endpoints ≡ endpoints_after key ev (get key w.state.endpoints)
unfolding handle endpoints_after get
endpoints_lem key (slice_applied slice) w = elim (Option-cases (parse_endpoint_slice slice)) [
  | inl e ↦ rw (e, handle, endpoints_after) refl
  | inr ((k, eps), e) ↦ rw (e, handle, endpoints_after) (get-insert k key eps w.state.endpoints)
]
endpoints_lem key (slice_deleted slice) w = elim (Option-cases (parse_endpoint_slice slice)) [
  | inl e ↦ rw (e, handle, endpoints_after) refl
  | inr ((k, eps), e) ↦ rw (e, handle, endpoints_after) (get-remove k key w.state.endpoints)
]
endpoints_lem key (route_applied obj) w = elim (Option-cases (key_of obj)) [
  | inl e ↦ rw (e, handle) refl
  | inr (k, e) ↦ elim (Option-cases obj.spec) [
    | inl f ↦ rw (e, handle, f) refl
    | inr (spec, f) ↦ rw (e, handle, f) refl
  ]
]
endpoints_lem key (route_deleted obj) w = elim (Option-cases (key_of obj)) [
  | inl e ↦ rw (e, handle) refl
  | inr (k, e) ↦ rw (e, handle) refl
]
endpoints_lem key routes_init w = refl
endpoints_lem key slices_init w = refl
endpoints_lem key init_done w = refl
endpoints_lem key watch_error w = refl

-- After any sequence of events of the two watches, each route and each Service's endpoints are what
-- the last event about them left: the last applied object that parses, and nothing after a deletion
-- or the start of a new listing.
pub handle_all-last :
    (evs : List Event) (w : Watched) (key : ServiceKey)
    → (get key (handle_all evs w).state.routes
        ≡ fold_events (route_after key) evs (get key w.state.routes))
      × (get key (handle_all evs w).state.endpoints
          ≡ fold_events (endpoints_after key) evs (get key w.state.endpoints))
unfolding handle_all
handle_all-last [] w key = (refl, refl)
handle_all-last (ev ∷ evs) w key =
    let (routes, endpoints) = handle_all-last evs (handle ev w) key in
    (
      routes ∙ ap (fold_events (route_after key) evs) (route_lem key ev w),
      endpoints ∙ ap (fold_events (endpoints_after key) evs) (endpoints_lem key ev w),
    )
