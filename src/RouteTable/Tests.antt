-- ===== src/RouteTable/Tests.antt =====
-- Tests of the route table, and the theorems about it at concrete inputs.
use tuletorn.Common.{ℕ, ◌≡◌, ◌↔◌, refl, Option, none, some, List, [], ◌∷◌, arith, length}
use tuletorn.Common.Bytes.{
  Bytes, codes, bytes_eq, bytes_keys, strip_prefix, strip_suffix, to_ascii_lowercase,
}
use tuletorn.Common.Map.{get}
use tuletorn.Filter.{RouteFilters}
use tuletorn.Http.Model.{model}
use tuletorn.RouteTable.{RouteTable, lookup, normalized}
use tuletorn.RouteTable.Builder.{RouteAction, RouteSpec, new, add_all, compile, build}
use tuletorn.RouteTable.Grouping.{build-routes, compiled}
use tuletorn.RouteTable.HostCase.{lookup_case}
use tuletorn.RouteTable.Lookup.{lookup-tiers, first_at, tiers}
use tuletorn.RouteTable.Model.{scan, patterns, trie, find_pattern}
use tuletorn.RouteTable.Pattern.{prefix, exact, expand_pattern}
use tuletorn.RouteTable.Prefix.{IsStatic, IsServed, IsMeant, expand_pattern_iff}
use tuletorn.RouteTable.Slots.{Slot, fallback, routes_for}
use tuletorn.Target.Fractions.{fractions}
use tuletorn.Simd.{position, lowercase_ascii_into, x86_64, host_without_port}

expansions :
    (expand_pattern (codes "/*path") prefix ≡ codes "/" ∷ codes "/{*catchall}" ∷ [])
    × (expand_pattern [] prefix ≡ codes "/" ∷ codes "/{*catchall}" ∷ [])
    × (expand_pattern (codes "/api/") prefix
        ≡ codes "/api" ∷ codes "/api/" ∷ codes "/api/{*catchall}" ∷ [])
    × (expand_pattern (codes "/healthz") exact ≡ codes "/healthz" ∷ [])
    × (expand_pattern (codes "/a/*") exact ≡ codes "/a" ∷ codes "/a/" ∷ codes "/a/{*catchall}" ∷ [])
unfolding expand_pattern
expansions = (refl, refl, refl, refl, refl)

abbrev host_router : Bytes → Bytes → List (Bytes × List (Bytes × ℕ))
host_router host pattern = (host, (pattern, 1) ∷ []) ∷ []

abbrev table : RouteTable (trie ℕ)
table = record {
  exact_hosts = host_router (codes "api.example.com") (codes "/v1/users");
  wildcard_hosts = host_router (codes ".example.com") (codes "/v1/{*catchall}");
  default_router = (codes "/health", 2) ∷ [];
  route_count = 3;
}

looked_up :
    (lookup (trie ℕ) scan x86_64 table (some (codes "API.example.com:80")) (codes "/v1/users")
      ≡ some 1)
    × (lookup (trie ℕ) scan x86_64 table (some (codes "foo.bar.example.com")) (codes "/v1/x")
        ≡ some 1)
    × (lookup (trie ℕ) scan x86_64 table (some (codes "api.example.com")) (codes "/health")
        ≡ some 2)
    × (lookup (trie ℕ) scan x86_64 table none (codes "/v1/users") ≡ none)
unfolding lookup get strip_suffix strip_prefix bytes_eq lowercase_ascii_into host_without_port
    position
looked_up = (refl, refl, refl, refl)

lookup-tiers_example :
    (lookup (trie ℕ) scan x86_64 table (some (codes "a.example.com")) (codes "/v1/x")
      ≡ first_at
          (trie ℕ)
          (tiers (trie ℕ) table (normalized (trie ℕ) scan x86_64 (codes "a.example.com")))
          (codes "/v1/x"))
    × (lookup (trie ℕ) scan x86_64 table none (codes "/v1/x")
        ≡ find_pattern table.default_router (codes "/v1/x"))
lookup-tiers_example =
    lookup-tiers (trie ℕ) scan x86_64 table (codes "a.example.com") (codes "/v1/x")

lookup_case_example :
    lookup (trie ℕ) scan x86_64 table (some (to_ascii_lowercase (codes "A:80"))) (codes "/")
    ≡ lookup (trie ℕ) scan x86_64 table (some (codes "A:80")) (codes "/")
lookup_case_example =
    lookup_case (trie ℕ) scan x86_64 table (codes "A:80") (codes "/")
      (omega arith, (omega arith, (omega arith, (omega arith, tt)))) (omega arith)

api-IsStatic : IsStatic (codes "/a")
api-IsStatic = ((λ e. omega arith, λ e. omega arith), ((λ e. omega arith, λ e. omega arith), tt))

expand_pattern_iff_example :
    IsServed patterns (expand_pattern (codes "/a") prefix) (codes "/a/b")
    ↔ IsMeant (codes "/a") prefix (codes "/a/b")
expand_pattern_iff_example =
    expand_pattern_iff patterns (codes "/a") (codes "/a/b") prefix api-IsStatic

abbrev no_filters : RouteFilters model
no_filters = record { inner = none }

abbrev spec : Option Bytes → Bytes → RouteSpec model
spec host path = record {
  hostname = host;
  path = path;
  path_match = prefix;
  endpoints = [];
  filters = no_filters;
  route_name = codes "r";
}

abbrev specs : List (RouteSpec model)
specs =
    spec (some (codes "API.com")) (codes "/a")
    ∷ spec (some (codes "*.com")) (codes "/b")
    ∷ spec (some (codes "api.com")) []
    ∷ spec none (codes "/a")
    ∷ []

build-routes_example :
    let trie = trie (RouteAction model) in
    let table = build model trie (add_all model fractions specs (new model)) in
    (table.route_count ≡ 4)
    × (table.default_router ≡ compile model trie (routes_for model fractions specs fallback))
    × ((h : Bytes)
        → get h table.exact_hosts
          ≡ compiled model trie (routes_for model fractions specs (Slot.exact h)))
    × ((h : Bytes)
        → get h table.wildcard_hosts
          ≡ compiled model trie (routes_for model fractions specs (Slot.wildcard h)))
build-routes_example = build-routes model (trie (RouteAction model)) fractions specs

-- Hosts are grouped in lower case, and the wildcard by its suffix.
grouped :
    (length (routes_for model fractions specs (Slot.exact (codes "api.com"))) ≡ 5)
    × (length (routes_for model fractions specs (Slot.wildcard (codes ".com"))) ≡ 3)
    × (length (routes_for model fractions specs (Slot.exact (codes "API.com"))) ≡ 0)
unfolding routes_for
grouped = (refl, refl, refl)
