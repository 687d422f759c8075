-- ===== src/Config.antt =====
-- crates/core/src/config.rs: routes from a configuration file. Reading and parsing the file is I/O and
-- a library's; `RouteConfig` is what the parser returns.
pub mod Upstream
use tuletorn.Common.{ℕ, Option, none, List, [], ◌∷◌, map}
use tuletorn.Common.Bytes.{Bytes, codes}
use tuletorn.Filter
use tuletorn.Filter.{HeaderModifier, UrlRewrite}
use tuletorn.Http.{Http}
use tuletorn.RouteTable.{RouteTable}
use tuletorn.RouteTable.Builder
use tuletorn.RouteTable.Builder.{RouteSpec, RouteAction, add_all, build}
use tuletorn.RouteTable.Pattern.{PathMatch}
use tuletorn.RouteTable.Pattern
use tuletorn.RouteTable.Trie.{Matchit}
use tuletorn.Target.Weights.{BackendEndpoint, Float}

pub data PathType : Type 0 where
  path_prefix exact : PathType

abbrev pub path_match_from : PathType → PathMatch
path_match_from path_prefix = Pattern.prefix
path_match_from exact = Pattern.exact

pub record BackendEntry : Type 0 where
  pub address : Bytes
  pub weight : ℕ

pub record RouteEntry : Type 0 where
  pub name : Bytes
  pub hostname : Option Bytes
  pub path : Bytes
  pub path_type : PathType
  pub backends : List BackendEntry
  pub request_headers : List HeaderModifier
  pub response_headers : List HeaderModifier
  pub rewrite : Option UrlRewrite

pub record RouteConfig : Type 0 where
  pub routes : List RouteEntry

abbrev pub default_path : Bytes
default_path = b'/' ∷ []

abbrev pub default_weight : ℕ
default_weight = 1

module _ (x : Http) where
  -- The argument of `builder.add` for one entry.
  unfoldable pub entry_spec : RouteEntry → RouteSpec x
  unfolding Filter.new
  entry_spec entry = record {
    hostname = entry.hostname;
    path = entry.path;
    path_match = path_match_from entry.path_type;
    endpoints = map (λ b. record { address = b.address; weight = b.weight }) entry.backends;
    filters = Filter.new x entry.request_headers entry.response_headers entry.rewrite;
    route_name = entry.name;
  }

  unfoldable pub compile : (f : Float) (t : Matchit (RouteAction x)) → RouteConfig → RouteTable t
  unfolding entry_spec add_all build
  compile f t config = build x t (add_all x f (map entry_spec config.routes) (Builder.new x))

unfoldable pub single_upstream : Bytes → RouteConfig
single_upstream upstream = record {
  routes =
      record {
        name = codes "default-catchall";
        hostname = none;
        path = default_path;
        path_type = path_prefix;
        backends = record { address = upstream; weight = default_weight } ∷ [];
        request_headers = [];
        response_headers = [];
        rewrite = none;
      }
      ∷ [];
}
