-- ===== src/RouteTable/Shared.antt =====
-- crates/core/src/route_table.rs, `SharedRouteTable`: the cell that holds the published table. A load
-- and a store are one atomic step each, and a loaded table does not change with the cell.
use tuletorn.Common.{[]}
use tuletorn.RouteTable.{RouteTable}
use tuletorn.RouteTable.Trie.{Matchit}

module _ {A : Type 0} (t : Matchit A) where
  pub record SharedRouteTable : Type 0 where
    pub inner : RouteTable t

  -- `RouteTable::empty()`
  abbrev pub empty_table : RouteTable t
  empty_table = record {
    exact_hosts = [];
    wildcard_hosts = [];
    default_router = t.new;
    route_count = 0;
  }

  abbrev pub shared_new : SharedRouteTable
  shared_new = record { inner = empty_table }

  abbrev pub from_table : RouteTable t → SharedRouteTable
  from_table table = record { inner = table }

  abbrev pub load : SharedRouteTable → RouteTable t
  load shared = shared.inner

  abbrev pub store : RouteTable t → SharedRouteTable → SharedRouteTable
  store new_table shared = record { inner = new_table }
