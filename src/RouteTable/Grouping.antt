-- ===== src/RouteTable/Grouping.antt =====
-- The builder groups the routes by host, and compiles each group in the order of its routes.
use tuletorn.Common.{
  ◌+◌, ◌≡◌, refl, ap, sym, ◌∙◌, inl, inr, Option, none, some, List, [], ◌∷◌, arith, length, drop,
  Bool-cases,
}
use mathlib.Core.Option
use tuletorn.Common.Bytes.{
  Bytes, codes, bytes_keys, bytes_eq, bytes_eq_iff, starts_with, to_ascii_lowercase,
}
use tuletorn.Common.Map.{get, insert, extend, get-insert, IsDistinct, push_entry-IsDistinct}
use tuletorn.Http.{Http}
use tuletorn.RouteTable.Builder.{
  RouteAction, RouteSpec, Route, RouteTableBuilder, new, push_route, push_patterns, action_of, add,
  add_all, compile, compile_hosts, build,
}
use tuletorn.RouteTable.Pattern.{expand_pattern}
use tuletorn.RouteTable.Trie.{Matchit}
use tuletorn.Target.Weights.{Float}
use tuletorn.RouteTable.Slots.{
  fallback, exact, wildcard, routes_at, routes_for, routes_at-add_all, if_false,
}

module _ (x : Http) where
  push_route_count :
      (host : Option Bytes) (r : Route x) (b : RouteTableBuilder x)
      → (push_route x host r b).route_count ≡ b.route_count
  unfolding push_route
  push_route_count none r b = refl
  push_route_count (some h) r b = elim (Bool-cases (bytes_eq h (codes "*"))) [
    | inl e ↦ rw e
    | inr e ↦ elim (Bool-cases (starts_with (codes "*.") h)) [
      | inl f ↦ rw (e, f)
      | inr f ↦ rw (e, f)
    ]
  ]

  count_lem :
      (host : Option Bytes) (action : RouteAction x) (ps : List Bytes) (b : RouteTableBuilder x)
      → (push_patterns x host action ps b).route_count ≡ b.route_count
  unfolding push_patterns
  count_lem host action [] b = refl
  count_lem host action (p ∷ ps) b =
      count_lem host action ps (push_route x host (p, action) b)
      ∙ push_route_count host (p, action) b

  add_all_count :
      (f : Float) (specs : List (RouteSpec x)) (b : RouteTableBuilder x)
      → (add_all x f specs b).route_count ≡ b.route_count + length specs
  unfolding add_all add
  add_all_count f [] b = omega arith
  add_all_count f (spec ∷ specs) b =
      add_all_count f specs (add x f spec b)
      ∙ ap (λ n. n + 1 + length specs)
          (count_lem spec.hostname (action_of x f spec) (expand_pattern spec.path spec.path_match)
            b)
      ∙ omega arith

  abbrev HasDistinct : RouteTableBuilder x → Type 0
  HasDistinct b = IsDistinct b.exact × IsDistinct b.wildcard

  push_route-HasDistinct :
      (host : Option Bytes) (r : Route x) (b : RouteTableBuilder x)
      → HasDistinct b
      → HasDistinct (push_route x host r b)
  unfolding push_route
  push_route-HasDistinct none r b h = h
  push_route-HasDistinct (some k) r b (h, w) = elim (Bool-cases (bytes_eq k (codes "*"))) [
    | inl e ↦ rw e (h, w)
    | inr e ↦ elim (Bool-cases (starts_with (codes "*.") k)) [
      | inl f ↦ rw (e, f) (h, push_entry-IsDistinct (to_ascii_lowercase (drop 1 k)) r b.wildcard w)
      | inr f ↦ rw (e, f) (push_entry-IsDistinct (to_ascii_lowercase k) r b.exact h, w)
    ]
  ]

  push_patterns-HasDistinct :
      (host : Option Bytes) (action : RouteAction x) (ps : List Bytes) (b : RouteTableBuilder x)
      → HasDistinct b
      → HasDistinct (push_patterns x host action ps b)
  unfolding push_patterns
  push_patterns-HasDistinct host action [] b h = h
  push_patterns-HasDistinct host action (p ∷ ps) b h =
      push_patterns-HasDistinct host action ps (push_route x host (p, action) b)
        (push_route-HasDistinct host (p, action) b h)

  add_all-HasDistinct :
      (f : Float) (specs : List (RouteSpec x)) (b : RouteTableBuilder x)
      → HasDistinct b
      → HasDistinct (add_all x f specs b)
  unfolding add_all add
  add_all-HasDistinct f [] b h = h
  add_all-HasDistinct f (spec ∷ specs) b h = add_all-HasDistinct f specs (add x f spec b) (
      push_patterns-HasDistinct spec.hostname (action_of x f spec)
        (expand_pattern spec.path spec.path_match) b h)

module _ (x : Http) (t : Matchit (RouteAction x)) where
  get-compile_hosts :
      (m : List (Bytes × List (Route x))) (hosts : List (Bytes × t.Router)) (h : Bytes)
      → IsDistinct m
      → get h (compile_hosts x t m hosts)
        ≡ (elim (get h m) [ none ↦ get h hosts | some rs ↦ some (compile x t rs) ])
  unfolding compile_hosts get
  get-compile_hosts [] hosts h d = refl
  get-compile_hosts ((k, rs) ∷ m) hosts h (once, d) = elim (Bool-cases (bytes_eq k h)) [
    | inl e ↦
        let same : k ≡ h = (bytes_eq_iff k h).0 e in
        rw (
          get-compile_hosts m (insert k (compile x t rs) hosts) h d,
          ap (λ j. get j m) (sym same) ∙ once,
          get-insert k h (compile x t rs) hosts,
          e,
        )
    | inr e ↦
        get-compile_hosts m (insert k (compile x t rs) hosts) h d
        ∙ ap (λ o. elim (get h m) [ none ↦ o | some qs ↦ some (compile x t qs) ])
            (get-insert k h (compile x t rs) hosts
              ∙ if_false (some (compile x t rs)) (get h hosts) e)
        ∙ ap {A = Option (List (Route x))}
            (λ o. elim o [ none ↦ get h hosts | some qs ↦ some (compile x t qs) ])
            (sym (if_false (some rs) (get h m) e))
  ]

  -- The router for a host: none without routes, else of all of them in order.
  abbrev pub compiled : List (Route x) → Option t.Router
  compiled [] = none
  compiled (r ∷ rs) = some (compile x t (r ∷ rs))

  compiled_of_extend :
      (routes : List (Route x))
      → (elim (extend none routes) [ none ↦ none | some rs ↦ some (compile x t rs) ])
        ≡ compiled routes
  compiled_of_extend [] = refl
  compiled_of_extend (r ∷ rs) = refl

-- The built table counts the routes that were added; the routes without a host, of each host and of
-- each wildcard suffix stand in its routers, each compiled from the patterns of exactly those
-- routes, in order, and there is a router for a host or a suffix only where it has routes.
pub build-routes :
    (x : Http) (t : Matchit (RouteAction x)) (f : Float) (specs : List (RouteSpec x))
    → let table = build x t (add_all x f specs (new x)) in
      (table.route_count ≡ length specs)
      × (table.default_router ≡ compile x t (routes_for x f specs fallback))
      × ((h : Bytes) → get h table.exact_hosts ≡ compiled x t (routes_for x f specs (exact h)))
      × ((h : Bytes)
          → get h table.wildcard_hosts ≡ compiled x t (routes_for x f specs (wildcard h)))
unfolding build routes_at get
build-routes x t f specs =
    let built = add_all x f specs (new x) in
    let (distinct, distinct_wildcard) = add_all-HasDistinct x f specs (new x) (tt, tt) in
    (
      add_all_count x f specs (new x) ∙ omega arith,
      ap (compile x t) (Option.some_inj.0 (routes_at-add_all x f specs (new x) fallback)),
      λ h.
          get-compile_hosts x t built.exact [] h distinct
          ∙ ap (λ o. elim o [ none ↦ none | some rs ↦ some (compile x t rs) ])
              (routes_at-add_all x f specs (new x) (exact h))
          ∙ compiled_of_extend x t (routes_for x f specs (exact h)),
      λ h.
          get-compile_hosts x t built.wildcard [] h distinct_wildcard
          ∙ ap (λ o. elim o [ none ↦ none | some rs ↦ some (compile x t rs) ])
              (routes_at-add_all x f specs (new x) (wildcard h))
          ∙ compiled_of_extend x t (routes_for x f specs (wildcard h)),
    )
