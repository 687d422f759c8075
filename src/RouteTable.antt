-- ===== src/RouteTable.antt =====
-- crates/core/src/route_table.rs: compiling routes and looking up a request's route. The radix trie of
-- the crate `matchit` is a parameter. A published table is never written; the cell that holds it,
-- `SharedRouteTable`, is left out.
pub mod Trie
pub mod Pattern
pub mod Lookup
pub mod HostCase
pub mod Builder
pub mod Shared
pub mod Slots
pub mod Grouping
pub mod Prefix
pub mod Model
mod Tests
use tuletorn.Common.{
  ℕ, zero, suc, ◌+◌, ◌≡◌, Bool, true, false, ◌&&◌, not, Option, none, some, List, [], ◌∷◌, ◌++◌,
  map, leb, ltb, ◌==◌, if◌then◌else◌, ◌>>=◌, ◌<|>◌, length, drop,
}
use tuletorn.Common.Bytes.{
  Bytes, codes, is_empty, bytes_keys, bytes_eq, strip_prefix, strip_suffix, starts_with,
  trim_end_matches, to_ascii_lowercase,
}
use tuletorn.Common.Map.{get, insert, push_entry}
use tuletorn.Filter.{RouteFilters}
use tuletorn.Http.{Http}
use tuletorn.Simd.{Arch, Memchr, find_byte, host_without_port, lowercase_ascii_into}
use tuletorn.Target.{TargetGroup, from_endpoints}
use tuletorn.Target.Weights.{BackendEndpoint, Float}
use Trie.{Matchit}

abbrev pub max_host_len : ℕ
max_host_len = 256

-- The table is generic in the action that a route carries.
module _ {A : Type 0} (t : Matchit A) where
  pub record RouteTable : Type 0 where
    pub exact_hosts : List (Bytes × t.Router)
    pub wildcard_hosts : List (Bytes × t.Router)
    pub default_router : t.Router
    pub route_count : ℕ

  -- `self.map.get(host).and_then(|hr| hr.at(path))`
  pub at_host : List (Bytes × t.Router) → Bytes → Bytes → Option A
  at_host hosts host path = get host hosts >>= λ hr. t.at hr path

  -- One suffix in the loop over the wildcards: its router's answer, or that of the shorter ones.
  pub try_suffix : List (Bytes × t.Router) → (path suffix : Bytes) → Option A → Option A
  try_suffix hosts path suffix shorter = elim (at_host hosts suffix path) [
    | some action ↦ some action
    | none ↦ if leb (length suffix) 1 then none else shorter
  ]

  module _ (m : Memchr) where
    -- The loop over the wildcard suffixes. Every round drops a byte at least, so the length of the
    -- host is fuel enough.
    pub wildcards : ℕ → List (Bytes × t.Router) → (path current : Bytes) → Option A
    wildcards zero hosts path current = none
    wildcards (suc fuel) hosts path current = elim (find_byte m b'.' current) [
      | none ↦ none
      | some dot ↦
          let shorter = wildcards fuel hosts path (drop 1 (drop dot current)) in
          try_suffix hosts path (drop dot current) shorter
    ]

    -- The host as it is looked up: without its port, and in lower case if it fits the buffer.
    pub normalized : Arch → Bytes → Bytes
    normalized arch raw_host =
        let stripped = host_without_port m raw_host in
        elim (lowercase_ascii_into arch max_host_len stripped) [ some buf ↦ buf | none ↦ stripped ]

    pub lookup_host : RouteTable → (host path : Bytes) → Option A
    unfolding at_host try_suffix wildcards
    lookup_host table host path =
        at_host table.exact_hosts host path
        <|> (if is_empty table.wildcard_hosts
            then none
            else wildcards (suc (length host)) table.wildcard_hosts path host)

    unfoldable pub lookup : Arch → RouteTable → Option Bytes → Bytes → Option A
    unfolding normalized lookup_host
    lookup arch table host path =
        let clean_path = if is_empty path then b'/' ∷ [] else path in
        elim host [
          | none ↦ t.at table.default_router clean_path
          | some raw_host ↦
              lookup_host table (normalized arch raw_host) clean_path
              <|> t.at table.default_router clean_path
        ]
