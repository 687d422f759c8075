-- ===== src/Config/Upstream.antt =====
-- The configuration of a proxy that is started with one upstream and no file.
use tuletorn.Common.{◌≡◌, refl, Option, none, some, [], ◌∷◌, if◌then◌else◌}
use tuletorn.Common.Bytes.{Bytes, codes, is_empty}
use tuletorn.Common.Map.{get}
use tuletorn.Config.{compile, entry_spec, single_upstream}
use tuletorn.Http.{Http}
use tuletorn.RouteTable.{lookup}
use tuletorn.RouteTable.Builder
use tuletorn.RouteTable.Builder.{
  RouteAction, add_all, add, push_patterns, push_route, build, compile_hosts,
}
use tuletorn.RouteTable.Pattern.{expand_pattern}
use tuletorn.RouteTable.Trie.{Matchit}
use tuletorn.Simd.{Arch, Memchr}
use tuletorn.Target.{from_endpoints}
use tuletorn.Target.Weights.{Float}

-- The action of the only route: to the upstream, without filters.
abbrev pub to_upstream : (x : Http) (f : Float) → Bytes → RouteAction x
to_upstream x f upstream = record {
  target_group = from_endpoints f (record { address = upstream; weight = 1 } ∷ []);
  filters = record { inner = none };
  route_name = codes "default-catchall";
}

-- With one upstream a request is looked up by its path alone, whatever its host, in a router that is
-- compiled from two patterns with the same action.
pub lookup-single_upstream :
    (x : Http) (f : Float) (t : Matchit (RouteAction x)) (m : Memchr) (arch : Arch)
    (upstream : Bytes) (host : Option Bytes) (path : Bytes)
    → lookup t m arch (compile x f t (single_upstream upstream)) host path
      ≡ t.at
          (Builder.compile x t (
            (codes "/", to_upstream x f upstream)
            ∷ (codes "/{*catchall}", to_upstream x f upstream)
            ∷ []))
          (if is_empty path then b'/' ∷ [] else path)
unfolding lookup compile entry_spec single_upstream add_all add push_patterns push_route build
    compile_hosts expand_pattern get
lookup-single_upstream x f t m arch upstream none path = refl
lookup-single_upstream x f t m arch upstream (some host) path = refl
