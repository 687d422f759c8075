-- ===== src/RouteTable/Builder.antt =====
-- crates/core/src/route_table.rs, `RouteTableBuilder`: from the control plane's routes to a table. A
-- target group's clones share its cursor; here each action holds the group as it was built.
use tuletorn.Common.{ℕ, ◌+◌, Option, none, some, List, [], ◌∷◌, ◌++◌, if◌then◌else◌, drop}
use tuletorn.Common.Bytes.{
  Bytes, codes, bytes_keys, bytes_eq, starts_with, strip_prefix, to_ascii_lowercase,
}
use tuletorn.Common.Map.{insert, push_entry}
use tuletorn.Filter.{RouteFilters}
use tuletorn.Http.{Http}
use tuletorn.RouteTable.{RouteTable}
use tuletorn.RouteTable.Pattern.{PathMatch, prefix, expand_pattern}
use tuletorn.RouteTable.Trie.{Matchit}
use tuletorn.Target.{TargetGroup, from_endpoints}
use tuletorn.Target.Weights.{BackendEndpoint, Float}

module _ (x : Http) where
  pub record RouteAction : Type 0 where
    pub target_group : TargetGroup
    pub filters : RouteFilters x
    pub route_name : Bytes

  pub record RouteSpec : Type 0 where
    pub hostname : Option Bytes
    pub path : Bytes
    pub path_match : PathMatch
    pub endpoints : List BackendEndpoint
    pub filters : RouteFilters x
    pub route_name : Bytes

  abbrev pub Route : Type 0
  Route = Bytes × RouteAction

  pub record RouteTableBuilder : Type 0 where
    pub exact : List (Bytes × List Route)
    pub wildcard : List (Bytes × List Route)
    pub default_routes : List Route
    pub route_count : ℕ

  abbrev pub new : RouteTableBuilder
  new = record { exact = []; wildcard = []; default_routes = []; route_count = 0 }

  abbrev pub push_exact : Bytes → Route → RouteTableBuilder → RouteTableBuilder
  push_exact key r b = record {
    exact = push_entry key r b.exact;
    wildcard = b.wildcard;
    default_routes = b.default_routes;
    route_count = b.route_count;
  }

  abbrev pub push_wildcard : Bytes → Route → RouteTableBuilder → RouteTableBuilder
  push_wildcard key r b = record {
    exact = b.exact;
    wildcard = push_entry key r b.wildcard;
    default_routes = b.default_routes;
    route_count = b.route_count;
  }

  abbrev pub push_default : Route → RouteTableBuilder → RouteTableBuilder
  push_default r b = record {
    exact = b.exact;
    wildcard = b.wildcard;
    default_routes = b.default_routes ++ r ∷ [];
    route_count = b.route_count;
  }

  -- `match hostname.as_deref()`
  unfoldable pub push_route : Option Bytes → Route → RouteTableBuilder → RouteTableBuilder
  unfolding bytes_eq strip_prefix to_ascii_lowercase push_entry
  push_route none r b = push_default r b
  push_route (some h) r b =
      if bytes_eq h (codes "*")
      then push_default r b
      else (if starts_with (codes "*.") h
          then push_wildcard (to_ascii_lowercase (drop 1 h)) r b
          else push_exact (to_ascii_lowercase h) r b)

  -- `for pattern in patterns`
  unfoldable pub push_patterns :
      Option Bytes → RouteAction → List Bytes → RouteTableBuilder → RouteTableBuilder
  unfolding push_route
  push_patterns host action [] b = b
  push_patterns host action (p ∷ ps) b =
      push_patterns host action ps (push_route host (p, action) b)

  abbrev pub count_route : RouteTableBuilder → RouteTableBuilder
  count_route b = record {
    exact = b.exact;
    wildcard = b.wildcard;
    default_routes = b.default_routes;
    route_count = b.route_count + 1;
  }

  module _ (f : Float) where
    abbrev pub action_of : RouteSpec → RouteAction
    action_of spec = record {
      target_group = from_endpoints f spec.endpoints;
      filters = spec.filters;
      route_name = spec.route_name;
    }

    unfoldable pub add : RouteSpec → RouteTableBuilder → RouteTableBuilder
    unfolding push_patterns expand_pattern
    add spec b =
        count_route (
          push_patterns spec.hostname (action_of spec) (expand_pattern spec.path spec.path_match) b)

    unfoldable pub add_route :
        Option Bytes
        → Bytes
        → List BackendEndpoint
        → RouteFilters x
        → Bytes
        → RouteTableBuilder
        → RouteTableBuilder
    unfolding add
    add_route hostname path_pattern endpoints filters route_name b =
        add
          (record {
            hostname = hostname;
            path = path_pattern;
            path_match = prefix;
            endpoints = endpoints;
            filters = filters;
            route_name = route_name;
          })
          b

    -- Calls of `add`, one after the other.
    unfoldable pub add_all : List RouteSpec → RouteTableBuilder → RouteTableBuilder
    unfolding add
    add_all [] b = b
    add_all (spec ∷ specs) b = add_all specs (add spec b)

  module _ (t : Matchit RouteAction) where
    -- A pattern that conflicts with an earlier one is skipped.
    abbrev insert_pattern : t.Router → Route → t.Router
    insert_pattern router (pattern, action) = elim (t.insert router pattern action) [
      | none ↦ router
      | some grown ↦ grown
    ]

    compile_from : t.Router → List Route → t.Router
    compile_from router [] = router
    compile_from router (r ∷ rs) = compile_from (insert_pattern router r) rs

    unfoldable pub compile : List Route → t.Router
    unfolding compile_from
    compile routes = compile_from t.new routes

    -- The loops `for (host, routes) in self.exact` and `for (suffix, routes) in self.wildcard`.
    unfoldable pub compile_hosts :
        List (Bytes × List Route) → List (Bytes × t.Router) → List (Bytes × t.Router)
    unfolding insert compile
    compile_hosts [] hosts = hosts
    compile_hosts ((host, routes) ∷ m) hosts = compile_hosts m (insert host (compile routes) hosts)

    unfoldable pub build : RouteTableBuilder → RouteTable t
    unfolding compile_hosts compile
    build b = record {
      exact_hosts = compile_hosts b.exact [];
      wildcard_hosts = compile_hosts b.wildcard [];
      default_router = compile b.default_routes;
      route_count = b.route_count;
    }
