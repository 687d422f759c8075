-- ===== src/Pool/Reuse.antt =====
-- Which connection a caller gets from a pool.
use tuletorn.Common.{
  ℕ, ◌-◌, ◌<◌, ◌≡◌, ◌≢◌, refl, subst, ap, sym, ◌∙◌, inl, inr, true, false, Option, none, some, List,
  [], ◌∷◌, ◌++◌, filter, ltb, if◌then◌else◌, length, Bool-cases, Option-cases, arith, All,
}
use tuletorn.Common.Bytes.{Bytes, bytes_keys, bytes_eq, bytes_eq_iff, bytes_eq_refl}
use tuletorn.Common.Map.{get, insert, get-insert, get_list, IsDistinct}
use tuletorn.Pool.{
  Pooled, ConnectionPool, max_idle_per_host, max_idle_age, is_fresh, pop_fresh, take, put,
  retain_fresh, drop_empty, evict_expired,
}
use tuletorn.Pool.Bound.{get-retain_fresh, get-drop_empty}

module _ {S : Type 0} (now : ℕ) where
  abbrev pub IsStale : Pooled S → Type 0
  IsStale e = is_fresh now e ≡ false

  -- The newest fresh connection is taken, with the stale ones above it; without one all are gone.
  abbrev pub IsTaken : List (Pooled S) → Option S → List (Pooled S) → Type 0
  IsTaken before none after = All IsStale before × (after ≡ [])
  IsTaken before (some s) after =
      (expired : List (Pooled S)) × (e : Pooled S) × (before ≡ expired ++ e ∷ after)
      × All IsStale expired
      × (is_fresh now e ≡ true)
      × (e.stream ≡ s)

  pop_fresh-IsTaken : (es : List (Pooled S)) → IsTaken es (pop_fresh now es).0 (pop_fresh now es).1
  unfolding pop_fresh
  pop_fresh-IsTaken [] = (tt, refl)
  pop_fresh-IsTaken (e ∷ es) = elim (Bool-cases (is_fresh now e)) [
    | inl f ↦ rw f ([], e, refl, tt, f, refl)
    | inr f ↦ rw f (behind (pop_fresh now es).0 (pop_fresh now es).1 f (pop_fresh-IsTaken es))
  ]
    where
      behind :
          (o : Option S) (after : List (Pooled S))
          → IsStale e
          → IsTaken es o after
          → IsTaken (e ∷ es) o after
      behind none after f (all, none_left) = ((f, all), none_left)
      behind (some s) after f (expired, newest, parts, all, fresh, same) =
          (e ∷ expired, newest, ap (◌∷◌ e) parts, (f, all), fresh, same)

  get_list-insert :
      (a b : Bytes) (es : List (Pooled S)) (pool : ConnectionPool S)
      → get_list b (insert a es pool) ≡ (if bytes_eq a b then es else get_list b pool)
  get_list-insert a b es pool = ground (arith, get-insert a b es pool)

  absent :
      (a b : Bytes) (pool : ConnectionPool S)
      → get a pool ≡ none
      → get_list b pool ≡ (if bytes_eq a b then [] else get_list b pool)
  absent a b pool e = elim (Bool-cases (bytes_eq a b)) [
    | inl f ↦
        let missing : get b pool ≡ none =
          subst (λ k. get k pool ≡ none) ((bytes_eq_iff a b).0 f) e in
        rw f (rw (missing, get_list) refl)
    | inr f ↦ rw f
  ]

  -- `take` pops from the list of its address and leaves the others.
  get_list-take :
      (a : Bytes) (pool : ConnectionPool S)
      → ((take now a pool).0 ≡ (pop_fresh now (get_list a pool)).0)
        × ((b : Bytes)
            → get_list b (take now a pool).1
              ≡ (if bytes_eq a b then (pop_fresh now (get_list a pool)).1 else get_list b pool))
  unfolding take pop_fresh
  get_list-take a pool = elim (Option-cases (get a pool)) [
    | inl e ↦ rw (e, take, get_list) (refl, λ b. absent a b pool e)
    | inr (es, e) ↦
        rw (e, take, get_list) (refl, λ b. get_list-insert a b (pop_fresh now es).1 pool)
  ]

-- `take` hands out the newest connection of its address that is younger than 45 seconds, and drops
-- the expired ones that stand above it; without a fresh one it returns nothing and drops all. The
-- connections of other addresses stay.
pub take-IsTaken :
    {S : Type 0} (now : ℕ) (a : Bytes) (pool : ConnectionPool S)
    → IsTaken now (get_list a pool) (take now a pool).0 (get_list a (take now a pool).1)
      × ((b : Bytes) → a ≢ b → get_list b (take now a pool).1 ≡ get_list b pool)
take-IsTaken now a pool =
    let (found, rest) = get_list-take now a pool in
    (
      rw (found, rest a, bytes_eq_refl a) (pop_fresh-IsTaken now (get_list a pool)),
      λ b apart. ground (arith, apart, rest b, bytes_eq_iff a b),
    )

get_list-put :
    {S : Type 0} (now : ℕ) (a b : Bytes) (s : S) (pool : ConnectionPool S)
    → get_list b (put now a s pool) ≡ (
        if bytes_eq a b
        then (if ltb (length (get_list a pool)) max_idle_per_host
            then record { stream = s; parked_at = now } ∷ get_list a pool
            else get_list a pool)
        else get_list b pool)
unfolding put
get_list-put now a b s pool = elim (Bool-cases (ltb (length (get_list a pool)) max_idle_per_host)) [
  | inl e ↦ rw (e, put) (get_list-insert now a b _ pool)
  | inr e ↦ rw (e, put) (get_list-insert now a b _ pool)
]

-- A connection that is put back below the bound is the next one taken for its address within 45
-- seconds, and taking it leaves the connections of every address as they were.
pub take-put :
    {S : Type 0} (now later : ℕ) (a : Bytes) (s : S) (pool : ConnectionPool S)
    → later - now < max_idle_age
    → length (get_list a pool) < max_idle_per_host
    → ((take later a (put now a s pool)).0 ≡ some s)
      × ((b : Bytes) → get_list b (take later a (put now a s pool)).1 ≡ get_list b pool)
unfolding pop_fresh
take-put {S = S} now later a s pool young room =
    let entry : Pooled S = record { stream = s; parked_at = now } in
    let fresh : is_fresh later entry ≡ true = ground arith in
    let fits : ltb (length (get_list a pool)) max_idle_per_host ≡ true = ground arith in
    let (found, rest) = get_list-take later a (put now a s pool) in
    let top : get_list a (put now a s pool) ≡ entry ∷ get_list a pool =
      rw (get_list-put now a a s pool, bytes_eq_refl a, fits) refl in
    let popped : pop_fresh later (get_list a (put now a s pool)) ≡ (some s, get_list a pool) =
      rw (top, pop_fresh, fresh) refl in
    (found ∙ ap (λ r. r.0) popped, λ b. rest b ∙ restored b (ap (λ r. r.1) popped))
  where
    restored :
        (b : Bytes)
        → (pop_fresh later (get_list a (put now a s pool))).1 ≡ get_list a pool
        → (if bytes_eq a b
            then (pop_fresh later (get_list a (put now a s pool))).1
            else get_list b (put now a s pool))
          ≡ get_list b pool
    restored b e = elim (Bool-cases (bytes_eq a b)) [
      | inl same ↦ rw same (e ∙ ap (λ k. get_list k pool) ((bytes_eq_iff a b).0 same))
      | inr other ↦ rw other (rw (get_list-put now a b s pool, other) refl)
    ]

get_list-retain_fresh :
    {S : Type 0} (now : ℕ) (a : Bytes) (pool : ConnectionPool S)
    → get_list a (retain_fresh now pool) ≡ filter (is_fresh now) (get_list a pool)
unfolding retain_fresh get
get_list-retain_fresh now a [] = refl
get_list-retain_fresh now a ((k, es) ∷ pool) = elim (Bool-cases (bytes_eq k a)) [
  | inl e ↦ rw (e, get_list) refl
  | inr e ↦ rw (e, get_list) (get_list-retain_fresh now a pool)
]

get_list-drop_empty :
    {S : Type 0} (a : Bytes) (pool : ConnectionPool S)
    → IsDistinct pool
    → get_list a (drop_empty pool) ≡ get_list a pool
unfolding drop_empty get
get_list-drop_empty a [] d = refl
get_list-drop_empty a ((k, []) ∷ pool) (once, d) = elim (Bool-cases (bytes_eq k a)) [
  | inl e ↦
      let gone : get a pool ≡ none = subst (λ j. get j pool ≡ none) ((bytes_eq_iff k a).0 e) once in
      rw (e, get_list) (rw (get-drop_empty a pool gone, get_list) refl)
  | inr e ↦ rw (e, get_list) (get_list-drop_empty a pool d)
]
get_list-drop_empty a ((k, x ∷ es) ∷ pool) (once, d) = elim (Bool-cases (bytes_eq k a)) [
  | inl e ↦ rw (e, get_list) refl
  | inr e ↦ rw (e, get_list) (get_list-drop_empty a pool d)
]

pop_fresh-filter :
    {S : Type 0} (now : ℕ) (es : List (Pooled S))
    → (pop_fresh now (filter (is_fresh now) es)).0 ≡ (pop_fresh now es).0
unfolding pop_fresh
pop_fresh-filter now [] = refl
pop_fresh-filter now (e ∷ es) = elim (Bool-cases (is_fresh now e)) [
  | inl f ↦ rw (f, filter) (rw f refl)
  | inr f ↦ rw (f, filter) (pop_fresh-filter now es)
]

retain_fresh-IsDistinct :
    {S : Type 0} (now : ℕ) (pool : ConnectionPool S)
    → IsDistinct pool
    → IsDistinct (retain_fresh now pool)
unfolding retain_fresh
retain_fresh-IsDistinct now [] d = d
retain_fresh-IsDistinct now ((k, es) ∷ pool) (once, d) =
    (get-retain_fresh now k pool once, retain_fresh-IsDistinct now pool d)

-- An eviction keeps exactly the fresh connections of each address, and a caller gets from `take` at
-- that time what it would have got without it.
pub take-evict_expired :
    {S : Type 0} (now : ℕ) (a : Bytes) (pool : ConnectionPool S)
    → IsDistinct pool
    → (get_list a (evict_expired now pool) ≡ filter (is_fresh now) (get_list a pool))
      × ((take now a (evict_expired now pool)).0 ≡ (take now a pool).0)
unfolding evict_expired
take-evict_expired now a pool d =
    let kept : get_list a (evict_expired now pool) ≡ filter (is_fresh now) (get_list a pool) =
      get_list-drop_empty a (retain_fresh now pool) (retain_fresh-IsDistinct now pool d)
      ∙ get_list-retain_fresh now a pool in
    (
      kept,
      (get_list-take now a (evict_expired now pool)).0
          ∙ ap (λ es. (pop_fresh now es).0) kept
          ∙ pop_fresh-filter now (get_list a pool)
          ∙ sym (get_list-take now a pool).0,
    )
