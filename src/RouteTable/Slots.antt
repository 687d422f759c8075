-- ===== src/RouteTable/Slots.antt =====
-- A slot of the builder holds the routes that were added for it.
use tuletorn.Common.{
  ◌≡◌, refl, ap, sym, ◌∙◌, inl, inr, Bool, true, false, Option, none, some, List, [], ◌∷◌, ◌++◌,
  map, if◌then◌else◌, flat_map, drop, append_assoc, append-nil, Bool-cases, Option-cases,
}
use tuletorn.Common.Bytes.{Bytes, codes, bytes_keys, bytes_eq, strip_prefix, to_ascii_lowercase}
use tuletorn.Common.Bytes.Laws.{append_of_strip_prefix}
use tuletorn.Common.Map.{get, extend, get-push_entry}
use tuletorn.Http.{Http}
use tuletorn.RouteTable.Builder.{
  RouteAction, RouteSpec, Route, RouteTableBuilder, push_default, push_exact, push_wildcard,
  push_route, push_patterns, count_route, action_of, add, add_all,
}
use tuletorn.RouteTable.Pattern.{expand_pattern}
use tuletorn.Target.Weights.{Float}

-- Where a route goes: to the routes without a host, to a host, or to the suffix of a wildcard.
pub data Slot : Type 0 where
  fallback : Slot
  exact wildcard : Bytes → Slot

unfoldable pub slot_of : Option Bytes → Slot
unfolding bytes_eq strip_prefix to_ascii_lowercase
slot_of none = fallback
slot_of (some h) =
    if bytes_eq h (codes "*") then fallback else (elim (strip_prefix (codes "*.") h) [
      | some domain ↦ wildcard (to_ascii_lowercase (b'.' ∷ domain))
      | none ↦ exact (to_ascii_lowercase h)
    ])

abbrev pub slot_eq : Slot → Slot → Bool
slot_eq fallback fallback = true
slot_eq (exact h) (exact k) = bytes_eq h k
slot_eq (wildcard h) (wildcard k) = bytes_eq h k
slot_eq _ _ = false

pub extend-append {ℓ} :
    {V : Type ℓ} (o : Option (List V)) (vs ws : List V)
    → extend (extend o vs) ws ≡ extend o (vs ++ ws)
extend-append none [] ws = refl
extend-append none (v ∷ vs) ws = refl
extend-append (some us) vs ws = ap some (append_assoc us vs ws)

pub extend_nil {ℓ} : {V : Type ℓ} (o : Option (List V)) → extend o [] ≡ o
extend_nil none = refl
extend_nil (some vs) = ap some (append-nil vs)

pub if_false {ℓ} : {A : Type ℓ} {b : Bool} (a c : A) → b ≡ false → (if b then a else c) ≡ c
if_false a c e = rw e

module _ (x : Http) where
  -- The routes that a builder holds for a slot.
  unfoldable pub routes_at : RouteTableBuilder x → Slot → Option (List (Route x))
  unfolding get
  routes_at b fallback = some b.default_routes
  routes_at b (exact h) = get h b.exact
  routes_at b (wildcard h) = get h b.wildcard

  routes_at-push_route :
      (host : Option Bytes) (r : Route x) (b : RouteTableBuilder x) (s : Slot)
      → routes_at (push_route x host r b) s
        ≡ (if slot_eq (slot_of host) s then extend (routes_at b s) (r ∷ []) else routes_at b s)
  unfolding routes_at push_route slot_of
  routes_at-push_route none r b fallback = refl
  routes_at-push_route none r b (exact h) = refl
  routes_at-push_route none r b (wildcard h) = refl
  routes_at-push_route (some k) r b s = elim (Bool-cases (bytes_eq k (codes "*"))) [
    | inl star ↦ rw star (on_default s)
    | inr e ↦ elim (Option-cases (strip_prefix (codes "*.") k)) [
      | inl f ↦ rw (e, f) (on_exact (to_ascii_lowercase k) s)
      | inr (domain, f) ↦
          let whole : k ≡ codes "*." ++ domain = append_of_strip_prefix (codes "*.") k domain f in
          rw (e, f, ap (drop 1) whole) (on_wildcard (to_ascii_lowercase (b'.' ∷ domain)) s)
    ]
  ]
    where
      on_default :
          (q : Slot)
          → routes_at (push_default x r b) q
            ≡ (if slot_eq fallback q then extend (routes_at b q) (r ∷ []) else routes_at b q)
      on_default fallback = refl
      on_default (exact h) = refl
      on_default (wildcard h) = refl

      on_exact :
          (key : Bytes) (q : Slot)
          → routes_at (push_exact x key r b) q
            ≡ (if slot_eq (exact key) q then extend (routes_at b q) (r ∷ []) else routes_at b q)
      on_exact key fallback = refl
      on_exact key (exact h) = get-push_entry key h r b.exact
      on_exact key (wildcard h) = refl

      on_wildcard :
          (key : Bytes) (q : Slot)
          → routes_at (push_wildcard x key r b) q
            ≡ (if slot_eq (wildcard key) q then extend (routes_at b q) (r ∷ []) else routes_at b q)
      on_wildcard key fallback = refl
      on_wildcard key (exact h) = refl
      on_wildcard key (wildcard h) = get-push_entry key h r b.wildcard

  -- The patterns of one route, each with the route's action, if the route belongs to the slot.
  pub routes_of : Float → RouteSpec x → Slot → List (Route x)
  unfolding expand_pattern slot_of
  routes_of f spec s =
      if slot_eq (slot_of spec.hostname) s
      then map (λ p. (p, action_of x f spec)) (expand_pattern spec.path spec.path_match)
      else []

  -- The routes for a slot, in the order in which the control plane lists them.
  unfoldable pub routes_for : Float → List (RouteSpec x) → Slot → List (Route x)
  unfolding routes_of
  routes_for f specs s = flat_map (λ spec. routes_of f spec s) specs

  routes_at-push_patterns :
      (host : Option Bytes) (action : RouteAction x) (ps : List Bytes) (b : RouteTableBuilder x)
      (s : Slot)
      → routes_at (push_patterns x host action ps b) s ≡ (
          if slot_eq (slot_of host) s
          then extend (routes_at b s) (map (λ p. (p, action)) ps)
          else routes_at b s)
  unfolding push_patterns
  routes_at-push_patterns host action [] b s = elim (Bool-cases (slot_eq (slot_of host) s)) [
    | inl e ↦ rw e (sym (extend_nil (routes_at b s)))
    | inr e ↦ rw e
  ]
  routes_at-push_patterns host action (p ∷ ps) b s =
      let rest = routes_at-push_patterns host action ps (push_route x host (p, action) b) s in
      let first = routes_at-push_route host (p, action) b s in
      elim (Bool-cases (slot_eq (slot_of host) s)) [
        | inl e ↦
            rw (rest, first, e)
              (extend-append (routes_at b s) ((p, action) ∷ []) (map (λ q. (q, action)) ps))
        | inr e ↦ rw (rest, first, e)
      ]

  routes_at-add :
      (f : Float) (spec : RouteSpec x) (b : RouteTableBuilder x) (s : Slot)
      → routes_at (add x f spec b) s ≡ extend (routes_at b s) (routes_of f spec s)
  unfolding add routes_of routes_at
  routes_at-add f spec b s =
      let ps = expand_pattern spec.path spec.path_match in
      let pushed = push_patterns x spec.hostname (action_of x f spec) ps b in
      counted pushed s
      ∙ routes_at-push_patterns spec.hostname (action_of x f spec) ps b s
      ∙ whether (slot_eq (slot_of spec.hostname) s) (routes_at b s)
          (map (λ p. (p, action_of x f spec)) ps)
    where
      counted : (c : RouteTableBuilder x) (q : Slot) → routes_at (count_route x c) q ≡ routes_at c q
      counted c fallback = refl
      counted c (exact h) = refl
      counted c (wildcard h) = refl

      whether :
          (t : Bool) (o : Option (List (Route x))) (rs : List (Route x))
          → (if t then extend o rs else o) ≡ extend o (if t then rs else [])
      whether true o rs = refl
      whether false o rs = sym (extend_nil o)

  pub routes_at-add_all :
      (f : Float) (specs : List (RouteSpec x)) (b : RouteTableBuilder x) (s : Slot)
      → routes_at (add_all x f specs b) s ≡ extend (routes_at b s) (routes_for f specs s)
  unfolding add_all routes_for
  routes_at-add_all f [] b s = sym (extend_nil (routes_at b s))
  routes_at-add_all f (spec ∷ specs) b s =
      rw (routes_at-add_all f specs (add x f spec b) s, routes_at-add f spec b s)
        (extend-append (routes_at b s) (routes_of f spec s) (routes_for f specs s))
