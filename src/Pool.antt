-- ===== src/Pool.antt =====
-- crates/proxy-monoio/src/pool.rs: one worker's idle upstream connections. The `RefCell` is passed in
-- and returned; a `Vec` is a list with its last element first, since the code pushes and pops there;
-- an `Instant` counts nanoseconds, and a connection is any value.
pub mod Bound
pub mod Reuse
mod Tests
use tuletorn.Common.{
  ℕ, ◌+◌, ◌-◌, Bool, true, false, not, Option, none, some, List, [], ◌∷◌, map, filter, ltb,
  if◌then◌else◌, length,
}
use tuletorn.Common.Bytes.{Bytes, bytes_keys, is_empty}
use tuletorn.Common.Map.{get, insert, get_list}

abbrev pub max_idle_per_host : ℕ
max_idle_per_host = 8192

-- 45 seconds.
abbrev pub max_idle_age : ℕ
max_idle_age = 45000000000

pub record Pooled (S : Type 0) : Type 0 where
  pub stream : S
  pub parked_at : ℕ

abbrev pub ConnectionPool : Type 0 → Type 0
ConnectionPool S = List (Bytes × List (Pooled S))

module _ {S : Type 0} where
  -- `entry.parked_at.elapsed() < MAX_IDLE_AGE`, where `elapsed` stops at 0.
  abbrev pub is_fresh : (now : ℕ) → Pooled S → Bool
  is_fresh now entry = ltb (now - entry.parked_at) max_idle_age

  -- `while let Some(entry) = entries.pop()`
  pub pop_fresh : (now : ℕ) → List (Pooled S) → Option S × List (Pooled S)
  pop_fresh now [] = (none, [])
  pop_fresh now (entry ∷ entries) =
      let older = pop_fresh now entries in
      if is_fresh now entry then (some entry.stream, entries) else older

  unfoldable pub take : (now : ℕ) → Bytes → ConnectionPool S → Option S × ConnectionPool S
  unfolding pop_fresh get insert
  take now address pool = elim (get address pool) [
    | none ↦ (none, pool)
    | some entries ↦ ((pop_fresh now entries).0, insert address (pop_fresh now entries).1 pool)
  ]

  unfoldable pub put : (now : ℕ) → Bytes → S → ConnectionPool S → ConnectionPool S
  unfolding get insert
  put now address stream pool =
      let entries = get_list address pool in
      if ltb (length entries) max_idle_per_host
      then insert address (record { stream = stream; parked_at = now } ∷ entries) pool
      else insert address entries pool

  pub idle_count : ConnectionPool S → ℕ
  idle_count [] = 0
  idle_count ((address, entries) ∷ pool) = length entries + idle_count pool

  -- `entries.retain(..)` on every value
  pub retain_fresh : (now : ℕ) → ConnectionPool S → ConnectionPool S
  retain_fresh now [] = []
  retain_fresh now ((address, entries) ∷ pool) =
      (address, filter (is_fresh now) entries) ∷ retain_fresh now pool

  -- `map.retain(|_, entries| !entries.is_empty())`
  pub drop_empty : ConnectionPool S → ConnectionPool S
  drop_empty [] = []
  drop_empty ((address, entries) ∷ pool) =
      let rest = drop_empty pool in if is_empty entries then rest else (address, entries) ∷ rest

  unfoldable pub evict_expired : (now : ℕ) → ConnectionPool S → ConnectionPool S
  unfolding retain_fresh drop_empty
  evict_expired now pool = drop_empty (retain_fresh now pool)
