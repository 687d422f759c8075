-- ===== src/Gateway/Tests.antt =====
-- Tests of the reconciler, and the theorems about it at concrete inputs.
use mathlib.Core.List.{reverse, reverse_perm}
use tuletorn.Common.{◌+◌, ◌≤◌, ◌≡◌, refl, true, false, none, some, List, [], ◌∷◌, All, flat_map}
use tuletorn.Common.Bytes.{Bytes, codes, bytes_keys, pair_keys, bytes_eq, is_empty}
use tuletorn.Common.Int.{ℤ, pos, negsuc}
use tuletorn.Common.Map.{get}
use tuletorn.Filter.{apply_request_headers, apply_response_headers}
use tuletorn.Filter.Headers.{effects}
use tuletorn.Gateway.{ControllerConfig, BackendRef, HttpRouteFilter, StoredRoute, ClusterState}
use tuletorn.Gateway.Compile.{Values, route_is_ours}
use tuletorn.Gateway.Filters.{
  compile_filters, request_modifiers, response_modifiers, compile_filters-effects,
}
use tuletorn.Gateway.Once.{reconcile_once, reconcile_once-handle_all}
use tuletorn.Gateway.Published.{settled, Reached-published, rebuild_steps-settled}
use tuletorn.Gateway.Rebuild.{
  no_cluster, Reconciler, compiled, spawned, observe, rebuild_steps, Reached, start, observed,
  rebuilt,
}
use tuletorn.Gateway.Resolve.{
  EndpointSlice, backend_weight, resolve, resolve_lem, parse_endpoint_slice,
}
use tuletorn.Gateway.Watch.{
  Event, RouteObject, Watched, route_applied, route_deleted, slice_applied, init_done, handle,
  handle_all, fold_events, route_after, endpoints_after, handle_all-last,
}
use tuletorn.Http.Model.{model}
use tuletorn.RouteTable.Builder.{RouteAction}
use tuletorn.RouteTable.Model.{trie}
use tuletorn.RouteTable.Shared.{shared_new, from_table, load}
use tuletorn.RouteTable.Trie.{Matchit}
use tuletorn.Target.Fractions.{fractions}

-- One digit is enough here.
abbrev show : ℤ → Bytes
show (pos n) = (n + b'0') ∷ []
show (negsuc n) = b'-' ∷ []

abbrev backend : Bytes → BackendRef
backend name = record {
  name = name;
  namespace = none;
  port = some (pos 8);
  weight = some (pos 2000000);
}

abbrev filters : List HttpRouteFilter
filters =
    record {
      filter_type = codes "RequestHeaderModifier";
      request_header_modifier = some (record { set = []; add = []; remove = codes "x-drop" ∷ [] });
      response_header_modifier = none;
      url_rewrite = none;
    }
    ∷ []

abbrev stored : StoredRoute
stored = record {
  namespace = codes "ns";
  name = codes "r";
  spec = record {
    parent_refs = [];
    hostnames = [];
    rules =
        record { matches = []; backend_refs = backend (codes "svc") ∷ []; filters = filters } ∷ [];
  };
}

abbrev slice : EndpointSlice
slice = record {
  namespace = some (codes "ns");
  labels = some ((codes "kubernetes.io/service-name", codes "svc") ∷ []);
  ports = some (some (pos 8) ∷ none ∷ []);
  endpoints = some (
      record { ready = none; addresses = codes "10.0.0.1" ∷ [] }
      ∷ record { ready = some false; addresses = codes "10.0.0.2" ∷ [] }
      ∷ []);
}

abbrev cluster : ClusterState
cluster = record { routes = ((codes "ns", codes "r"), stored) ∷ []; endpoints = [] }

abbrev config : ControllerConfig
config = record { gateway_name = some (codes "lb-gateway"); namespace = none }

abbrev headers : Bytes → List Bytes
headers n = codes "v" ∷ []

parsed :
    (parse_endpoint_slice slice
      ≡ some ((codes "ns", codes "svc"), record { address = codes "10.0.0.1"; port = pos 8 } ∷ []))
    × (resolve show cluster (codes "ns") (backend (codes "svc"))
        ≡ record { address = codes "svc.ns.svc.cluster.local:8"; weight = 1000000 } ∷ [])
    × (route_is_ours config stored ≡ true)
unfolding parse_endpoint_slice resolve route_is_ours get bytes_eq
parsed = (refl, refl, refl)

resolve_lem_example :
    (is_empty (resolve show cluster (codes "ns") (backend (codes "svc"))) ≡ false)
    × All
        (λ e. e.weight ≡ backend_weight (backend (codes "svc")))
        (resolve show cluster (codes "ns") (backend (codes "svc")))
    × (backend_weight (backend (codes "svc")) ≤ 1000000)
resolve_lem_example = resolve_lem show cluster (codes "ns") (backend (codes "svc"))

compile_filters-effects_example :
    (apply_request_headers model
        (compile_filters model filters (codes "/"))
        headers
        (codes "x-drop")
      ≡ effects model (codes "x-drop") (flat_map request_modifiers filters) (codes "v" ∷ []))
    × (apply_response_headers model
          (compile_filters model filters (codes "/"))
          headers
          (codes "x-drop")
        ≡ effects model (codes "x-drop") (flat_map response_modifiers filters) (codes "v" ∷ []))
compile_filters-effects_example =
    compile_filters-effects model filters (codes "/") headers (codes "x-drop")

abbrev object : RouteObject
object = record { name = some (codes "r"); namespace = some (codes "ns"); spec = some stored.spec }

abbrev events : List Event
events = slice_applied slice ∷ route_deleted object ∷ route_applied object ∷ []

abbrev watched : Watched
watched = record { state = cluster; dirty = false }

handle_all-last_example :
    (get (codes "ns", codes "r") (handle_all events watched).state.routes
      ≡ fold_events
          (route_after (codes "ns", codes "r"))
          events
          (get (codes "ns", codes "r") watched.state.routes))
    × (get (codes "ns", codes "r") (handle_all events watched).state.endpoints
        ≡ fold_events
            (endpoints_after (codes "ns", codes "r"))
            events
            (get (codes "ns", codes "r") watched.state.endpoints))
handle_all-last_example = handle_all-last events watched (codes "ns", codes "r")

abbrev router : Matchit (RouteAction model)
router = trie (RouteAction model)

-- A map that gives its routes in reverse.
abbrev in_reverse : Values
in_reverse = record { walk = reverse; walk-Perm = λ routes. reverse_perm routes }

-- An object is applied after the start, and its listing ends.
abbrev listed : Reconciler model show fractions router config in_reverse
listed = observe model show fractions router config in_reverse init_done (
    observe model show fractions router config in_reverse (route_applied object)
      (spawned model show fractions router config in_reverse (shared_new router)))

listed-Reached : Reached model show fractions router config in_reverse false listed
unfolding handle
listed-Reached = observed init_done (observed (route_applied object) (start (shared_new router)))

-- The three steps of a rebuild behind it.
abbrev idle : Reconciler model show fractions router config in_reverse
idle = rebuild_steps model show fractions router config in_reverse 3 listed

idle-Reached : Reached model show fractions router config in_reverse false idle
idle-Reached = rebuilt (rebuilt (rebuilt listed-Reached))

Reached-published_example :
    load router idle.routes ≡ compiled model show fractions router config in_reverse idle.watched
unfolding handle
Reached-published_example =
    Reached-published model show fractions router config in_reverse idle idle-Reached refl refl

rebuild_steps-settled_example :
    rebuild_steps model show fractions router config in_reverse 5 listed
    ≡ settled model show fractions router config in_reverse listed.watched
rebuild_steps-settled_example =
    rebuild_steps-settled model show fractions router config in_reverse listed listed-Reached

reconcile_once-handle_all_example :
    let table =
      compiled model show fractions router config in_reverse
        (handle_all (route_applied object ∷ slice_applied slice ∷ []) no_cluster) in
    (reconcile_once model show fractions router config in_reverse
        (some (object ∷ []))
        (some (slice ∷ []))
        (shared_new router)
      ≡ (some table.route_count, from_table router table))
    × (reconcile_once model show fractions router config in_reverse none
          (some (slice ∷ []))
          (shared_new router)
        ≡ (none, shared_new router))
    × (reconcile_once model show fractions router config in_reverse
          (some (object ∷ []))
          none
          (shared_new router)
        ≡ (none, shared_new router))
reconcile_once-handle_all_example =
    reconcile_once-handle_all model show fractions router config in_reverse (object ∷ [])
      (slice ∷ []) (shared_new router)
