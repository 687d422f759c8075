-- ===== src/Gateway/Published.antt =====
-- crates/core/src/gateway.rs: the table that `rebuild_loop` publishes, against the cluster's state.
use tuletorn.Common.{◌≡◌, refl, ap, inl, inr, true, false, subst, sym, ◌≢◌, Bool-cases, ◌∙◌}
use tuletorn.Common.Bytes.{Bytes}
use tuletorn.Common.Int.{ℤ}
use tuletorn.Gateway.{ControllerConfig}
use tuletorn.Gateway.Compile.{Values}
use tuletorn.Gateway.Rebuild.{
  Rebuilder, waiting, sleeping, storing, clean, Reconciler, compiled, rebuild_steps, Reached,
  advance, IsOwed, IsCurrentAt, Reached-IsCurrent,
}
use tuletorn.Gateway.Watch.{Watched}
use tuletorn.Http.{Http}
use tuletorn.RouteTable.{RouteTable}
use tuletorn.RouteTable.Builder.{RouteAction}
use tuletorn.RouteTable.Shared.{SharedRouteTable, load, from_table}
use tuletorn.RouteTable.Trie.{Matchit}
use tuletorn.Target.Weights.{Float}

true≢false : true ≢ false
true≢false e = subst (λ b. elim b as (λ _. Type 0) [ true ↦ Unit | false ↦ ⊥ ]) e tt

module _ (x : Http) (show : ℤ → Bytes) (f : Float) (t : Matchit (RouteAction x))
    (cfg : ControllerConfig) (values : Values) where
  -- Nothing is left to rebuild, and a table is published.
  abbrev pub settled_with : Watched → RouteTable t → Reconciler x show f t cfg values
  settled_with w table = record {
    watched = clean w;
    rebuilder = waiting;
    routes = from_table t table;
  }

  abbrev pub settled : Watched → Reconciler x show f t cfg values
  settled w = settled_with w (compiled x show f t cfg values w)

  owed_lem :
      (table : RouteTable t) (w : Watched)
      → IsOwed x show f t cfg values false table w
      → w.dirty ≡ false
      → table ≡ compiled x show f t cfg values w
  owed_lem table w (inl h) e = absurd (true≢false (sym h))
  owed_lem table w (inr (inl h)) e = absurd (true≢false (sym h ∙ e))
  owed_lem table w (inr (inr h)) e = h

  steps_lem :
      (r : Rebuilder (RouteTable t)) (w : Watched) (routes : SharedRouteTable t)
      → IsCurrentAt x show f t cfg values false r w routes
      → rebuild_steps x show f t cfg values 4 (advance x show f t cfg values r w routes) ≡ settled w
  steps_lem waiting w routes h = elim (Bool-cases w.dirty) [
    | inl e ↦ rw e refl
    | inr e ↦ rw e (ap (settled_with w) (owed_lem (load t routes) w h e))
  ]
  steps_lem sleeping w routes h = elim (Bool-cases w.dirty) [
    | inl e ↦ rw e refl
    | inr e ↦ rw e refl
  ]
  steps_lem (storing table) w routes h = elim (Bool-cases w.dirty) [
    | inl e ↦ rw e refl
    | inr e ↦ rw e (ap (settled_with w) (owed_lem table w h e))
  ]

-- Whenever a run of the reconciler has notified of the last listing that started, the rebuild loop
-- waits and no permit is left, the published table is the one compiled from the cluster's state.
pub Reached-published :
    (x : Http) (show : ℤ → Bytes) (f : Float) (t : Matchit (RouteAction x)) (cfg : ControllerConfig)
    (values : Values) (s : Reconciler x show f t cfg values)
    → Reached x show f t cfg values false s
    → s.rebuilder ≡ waiting
    → s.watched.dirty ≡ false
    → load t s.routes ≡ compiled x show f t cfg values s.watched
Reached-published x show f t cfg values s r idle quiet =
    let current = Reached-IsCurrent x show f t cfg values r in
    owed_lem x show f t cfg values (load t s.routes) s.watched
      (subst (λ b. IsCurrentAt x show f t cfg values false b s.watched s.routes) idle current) quiet

-- From any state of a run that has notified of the last listing that started, five steps of the
-- rebuild loop without an event publish the table of the cluster's state, keep that state, and leave
-- the loop waiting with no permit.
pub rebuild_steps-settled :
    (x : Http) (show : ℤ → Bytes) (f : Float) (t : Matchit (RouteAction x)) (cfg : ControllerConfig)
    (values : Values) (s : Reconciler x show f t cfg values)
    → Reached x show f t cfg values false s
    → rebuild_steps x show f t cfg values 5 s ≡ settled x show f t cfg values s.watched
rebuild_steps-settled x show f t cfg values s r =
    steps_lem x show f t cfg values s.rebuilder s.watched s.routes
      (Reached-IsCurrent x show f t cfg values r)
