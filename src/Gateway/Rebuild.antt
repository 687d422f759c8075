-- ===== src/Gateway/Rebuild.antt =====
-- crates/core/src/gateway.rs, `run` and `rebuild_loop`: the two watches and the rebuild of the route
-- table, interleaved in any order. A `Notify` holds one permit, the flag `dirty`: `notify_one` sets it
-- and `notified().await` takes it. The lock is held for one step at a time.
use tuletorn.Common.{
  ℕ, zero, suc, ◌≡◌, refl, ◌⊎◌, inl, inr, Bool, true, false, ◌||◌, [], if◌then◌else◌, Bool-cases,
  Option-cases, arith,
}
use tuletorn.Common.Bytes.{Bytes}
use tuletorn.Common.Int.{ℤ}
use tuletorn.Gateway.{ControllerConfig}
use tuletorn.Gateway.Compile.{Values, compile}
use tuletorn.Gateway.Resolve.{parse_endpoint_slice}
use tuletorn.Gateway.Watch.{
  Event, route_applied, route_deleted, slice_applied, slice_deleted, routes_init, slices_init,
  init_done, watch_error, Watched, key_of, handle,
}
use tuletorn.Http.{Http}
use tuletorn.RouteTable.{RouteTable}
use tuletorn.RouteTable.Builder.{RouteAction}
use tuletorn.RouteTable.Shared.{SharedRouteTable, load, store}
use tuletorn.RouteTable.Trie.{Matchit}
use tuletorn.Target.Weights.{Float}

-- Where `rebuild_loop` stands: before `notified().await`, in the debounce, before `routes.store(table)`.
pub data Rebuilder (T : Type 0) : Type 0 where
  waiting sleeping : Rebuilder T
  storing : (table : T) → Rebuilder T

abbrev pub no_cluster : Watched
no_cluster = record { state = record { routes = []; endpoints = [] }; dirty = false }

-- A listing starts: the state is cleared, and nothing is said of it.
abbrev pub is_init : Event → Bool
is_init routes_init = true
is_init slices_init = true
is_init _ = false

abbrev pub clean : Watched → Watched
clean w = record { state = w.state; dirty = false }

-- Whether an event calls `notify_one`.
abbrev pub notifies : Event → Watched → Bool
notifies ev w = (handle ev (clean w)).dirty

-- Whether a listing has cleared the state since the last call of `notify_one`.
abbrev pub cleared_after : Event → Watched → Bool → Bool
cleared_after ev w cleared = if notifies ev w then false else is_init ev || cleared

module _ (x : Http) (show : ℤ → Bytes) (f : Float) (t : Matchit (RouteAction x))
    (cfg : ControllerConfig) (values : Values) where
  pub record Reconciler : Type 0 where
    pub watched : Watched
    pub rebuilder : Rebuilder (RouteTable t)
    pub routes : SharedRouteTable t

  abbrev pub compiled : Watched → RouteTable t
  compiled w = compile x show f t cfg values w.state

  -- `run` spawns its tasks over an empty state.
  abbrev pub spawned : SharedRouteTable t → Reconciler
  spawned routes = record { watched = no_cluster; rebuilder = waiting; routes = routes }

  abbrev pub observe : Event → Reconciler → Reconciler
  observe ev s = record {
    watched = handle ev s.watched;
    rebuilder = s.rebuilder;
    routes = s.routes;
  }

  abbrev pub advance : Rebuilder (RouteTable t) → Watched → SharedRouteTable t → Reconciler
  advance waiting w routes =
      if w.dirty
      then record { watched = clean w; rebuilder = sleeping; routes = routes }
      else record { watched = w; rebuilder = waiting; routes = routes }
  advance sleeping w routes = record {
    watched = w;
    rebuilder = storing (compiled w);
    routes = routes;
  }
  advance (storing table) w routes = record {
    watched = w;
    rebuilder = waiting;
    routes = store t table routes;
  }

  -- The next step of `rebuild_loop`, which stays where it is when there is no permit.
  abbrev pub rebuild : Reconciler → Reconciler
  rebuild s = advance s.rebuilder s.watched s.routes

  abbrev pub rebuild_steps : ℕ → Reconciler → Reconciler
  rebuild_steps zero s = s
  rebuild_steps (suc n) s = rebuild_steps n (rebuild s)

  -- The states that a run over any published table comes to.
  pub data Reached : (cleared : Bool) → Reconciler → Type 0 where
    start : (routes : SharedRouteTable t) → Reached true (spawned routes)
    observed :
        {c : Bool} {s : Reconciler} (ev : Event)
        → Reached c s
        → Reached (cleared_after ev s.watched c) (observe ev s)
    rebuilt : {c : Bool} {s : Reconciler} → Reached c s → Reached c (rebuild s)

  -- A table is that of the cluster's state, unless a rebuild is asked for or the state was cleared.
  abbrev pub IsOwed : (cleared : Bool) → RouteTable t → Watched → Type 0
  IsOwed cleared table w = (cleared ≡ true) ⊎ (w.dirty ≡ true) ⊎ (table ≡ compiled w)

  abbrev pub IsCurrentAt :
      (cleared : Bool) → Rebuilder (RouteTable t) → Watched → SharedRouteTable t → Type 0
  IsCurrentAt cleared waiting w routes = IsOwed cleared (load t routes) w
  IsCurrentAt cleared sleeping w routes = Unit
  IsCurrentAt cleared (storing table) w routes = IsOwed cleared table w

  abbrev pub IsCurrent : (cleared : Bool) → Reconciler → Type 0
  IsCurrent cleared s = IsCurrentAt cleared s.rebuilder s.watched s.routes

-- An event notifies, or leaves everything, or starts a listing.
abbrev Observed : Event → Watched → Watched → Type 0
Observed ev w w' =
    (w'.dirty ≡ true)
    ⊎ ((notifies ev w ≡ false) × (w' ≡ w))
    ⊎ ((notifies ev w ≡ false) × (is_init ev ≡ true))

handle-Observed : (ev : Event) (w : Watched) → Observed ev w (handle ev w)
unfolding handle
handle-Observed (route_applied obj) w = elim (Option-cases (key_of obj)) [
  | inl e ↦ rw (e, notifies, handle) (inr (inl (refl, refl)))
  | inr (key, e) ↦ elim (Option-cases obj.spec) [
    | inl none_parsed ↦ rw (e, notifies, handle, none_parsed) (inr (inl (refl, refl)))
    | inr (spec, parsed) ↦ rw (e, notifies, handle, parsed) (inl refl)
  ]
]
handle-Observed (route_deleted obj) w = elim (Option-cases (key_of obj)) [
  | inl e ↦ rw (e, notifies, handle) (inr (inl (refl, refl)))
  | inr (key, e) ↦ rw (e, notifies, handle) (inl refl)
]
handle-Observed (slice_applied slice) w = elim (Option-cases (parse_endpoint_slice slice)) [
  | inl e ↦ rw (e, notifies, handle) (inr (inl (refl, refl)))
  | inr (p, e) ↦ rw (e, notifies, handle) (inl refl)
]
handle-Observed (slice_deleted slice) w = elim (Option-cases (parse_endpoint_slice slice)) [
  | inl e ↦ rw (e, notifies, handle) (inr (inl (refl, refl)))
  | inr (p, e) ↦ rw (e, notifies, handle) (inl refl)
]
handle-Observed routes_init w = inr (inr (refl, refl))
handle-Observed slices_init w = inr (inr (refl, refl))
handle-Observed init_done w = inl refl
handle-Observed watch_error w = inr (inl (refl, refl))

module _ (x : Http) (show : ℤ → Bytes) (f : Float) (t : Matchit (RouteAction x))
    (cfg : ControllerConfig) (values : Values) where
  observe-IsOwed :
      (c : Bool) (table : RouteTable t) (ev : Event) (w : Watched)
      → IsOwed x show f t cfg values c table w
      → IsOwed x show f t cfg values (cleared_after ev w c) table (handle ev w)
  observe-IsOwed c table ev w owed = elim (handle-Observed ev w) [
    | inl asked ↦ inr (inl asked)
    | inr (inl (quiet, same)) ↦
        rw (quiet, same)
          (elim owed [ inl cleared ↦ inl ground (arith, cleared) | inr rest ↦ inr rest ])
    | inr (inr (quiet, listing)) ↦ inl (rw (quiet, listing) refl)
  ]

  observe-IsCurrentAt :
      (c : Bool) (ev : Event) (r : Rebuilder (RouteTable t)) (w : Watched)
      (routes : SharedRouteTable t)
      → IsCurrentAt x show f t cfg values c r w routes
      → IsCurrentAt x show f t cfg values (cleared_after ev w c) r (handle ev w) routes
  observe-IsCurrentAt c ev waiting w routes h = observe-IsOwed c (load t routes) ev w h
  observe-IsCurrentAt c ev sleeping w routes h = tt
  observe-IsCurrentAt c ev (storing table) w routes h = observe-IsOwed c table ev w h

  advance-IsCurrent :
      (c : Bool) (r : Rebuilder (RouteTable t)) (w : Watched) (routes : SharedRouteTable t)
      → IsCurrentAt x show f t cfg values c r w routes
      → IsCurrent x show f t cfg values c (advance x show f t cfg values r w routes)
  advance-IsCurrent c waiting w routes h = elim (Bool-cases w.dirty) [
    | inl e ↦ rw e tt
    | inr e ↦ rw e (rw e at h)
  ]
  advance-IsCurrent c sleeping w routes h = inr (inr refl)
  advance-IsCurrent c (storing table) w routes h = h

  pub Reached-IsCurrent :
      {c : Bool} {s : Reconciler x show f t cfg values}
      → Reached x show f t cfg values c s
      → IsCurrent x show f t cfg values c s
  Reached-IsCurrent (start routes) = inl refl
  Reached-IsCurrent (observed {c} {s} ev r) =
      observe-IsCurrentAt c ev s.rebuilder s.watched s.routes (Reached-IsCurrent r)
  Reached-IsCurrent (rebuilt {c} {s} r) =
      advance-IsCurrent c s.rebuilder s.watched s.routes (Reached-IsCurrent r)
