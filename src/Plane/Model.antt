-- ===== src/Plane/Model.antt =====
-- A table and a request for the tests of the planes.
use tuletorn.Common.{true, false, none, some, [], ◌∷◌}
use tuletorn.Common.Bytes.{Bytes, codes}
use tuletorn.Filter.{Compiled, UrlRewrite}
use tuletorn.Http.Listed.{listed, messages}
use tuletorn.Http.Messages.{Parts}
use tuletorn.RouteTable.{RouteTable}
use tuletorn.RouteTable.Builder.{RouteAction}
use tuletorn.RouteTable.Model.{trie}
use tuletorn.RouteTable.Trie.{Matchit}
use tuletorn.Target.{single}

-- The route sets a header and goes to the path `path`.
abbrev pub action_to : (path : Bytes) → RouteAction listed
action_to path = record {
  target_group = record { inner = single (record { address = codes "up:80"; weight = 1 }) };
  filters = record {
    inner = some (record {
      request_headers = Compiled.set (codes "x-gateway") (codes "lb") ∷ [];
      response_headers = Compiled.remove (codes "server") ∷ [];
      url_rewrite = some (UrlRewrite.exact path);
    });
  };
  route_name = codes "all";
}

abbrev pub router : Matchit (RouteAction listed)
router = trie (RouteAction listed)

abbrev pub table_to : (path : Bytes) → RouteTable router
table_to path = record {
  exact_hosts = [];
  wildcard_hosts = [];
  default_router = (codes "/a", action_to path) ∷ [];
  route_count = 1;
}

abbrev pub request : Parts listed messages
request = record {
  method = codes "GET";
  uri = (none, some (codes "/a?b"));
  version = true;
  headers =
      (codes "host", codes "h" ∷ [])
      ∷ (codes "connection", codes "x-hop" ∷ [])
      ∷ (codes "x-hop", codes "1" ∷ [])
      ∷ [];
}

-- The request that goes upstream where the path becomes `/n`.
abbrev pub sent_request : Parts listed messages
sent_request = record {
  method = codes "GET";
  uri = (some (codes "up:80"), some (codes "/n?b"));
  version = false;
  headers =
      (codes "host", codes "up:80" ∷ [])
      ∷ (codes "x-forwarded-for", codes "1.1.1.1" ∷ [])
      ∷ (codes "x-forwarded-proto", codes "http" ∷ [])
      ∷ (codes "x-gateway", codes "lb" ∷ [])
      ∷ [];
}
