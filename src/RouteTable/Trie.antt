-- ===== src/RouteTable/Trie.antt =====
-- The crate `matchit` as a parameter: a router from patterns to values.
use tuletorn.Common.{Option}
use tuletorn.Common.Bytes.{Bytes}

pub record Matchit (A : Type 0) : Type 1 where
  pub Router : Type 0
  -- `Router::new()`, `Router::insert(..)` with `none` for an error, `Router::at(..).ok()`
  pub new : Router
  pub insert : Router → Bytes → A → Option Router
  pub at : Router → Bytes → Option A
