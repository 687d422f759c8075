-- ===== src/Pool/Bound.antt =====
-- What a worker's sequence of calls keeps of its pool.
use tuletorn.Common.{
  ℕ, ◌≤◌, ◌≡◌, refl, subst, inl, inr, Bool, none, some, List, [], ◌∷◌, filter, ltb, length,
  Bool-cases, Option-cases, arith, All,
}
use tuletorn.Common.Bytes.{Bytes, bytes_keys}
use tuletorn.Common.Map.{get, insert, get_list, IsDistinct, insert-IsDistinct}
use tuletorn.Pool.{
  Pooled, ConnectionPool, max_idle_per_host, is_fresh, pop_fresh, take, put, retain_fresh,
  drop_empty, evict_expired,
}

-- The calls on a pool, with the time of each.
pub data Call (S : Type 0) : Type 0 where
  taken : (now : ℕ) → Bytes → Call S
  returned : (now : ℕ) → Bytes → S → Call S
  evicted : (now : ℕ) → Call S

module _ {S : Type 0} where
  pub run : List (Call S) → ConnectionPool S → ConnectionPool S
  unfolding take put evict_expired
  run [] pool = pool
  run (taken now a ∷ calls) pool = run calls (take now a pool).1
  run (returned now a s ∷ calls) pool = run calls (put now a s pool)
  run (evicted now ∷ calls) pool = run calls (evict_expired now pool)

  -- No address has more idle connections than the bound.
  abbrev pub IsBounded : ConnectionPool S → Type 0
  IsBounded pool = All (λ p. length p.1 ≤ max_idle_per_host) pool

  -- One entry for each address, none above the bound.
  abbrev pub IsValid : ConnectionPool S → Type 0
  IsValid pool = IsDistinct pool × IsBounded pool

  insert-IsBounded :
      (a : Bytes) (entries : List (Pooled S)) (pool : ConnectionPool S)
      → length entries ≤ max_idle_per_host
      → IsBounded pool
      → IsBounded (insert a entries pool)
  unfolding insert
  insert-IsBounded a entries [] l h = (l, tt)
  insert-IsBounded a entries ((k, es) ∷ pool) l (one, h) = elim (Bool-cases (bytes_keys.eq k a)) [
    | inl e ↦ rw e (l, h)
    | inr e ↦ rw e (one, insert-IsBounded a entries pool l h)
  ]

  length-pop_fresh : (now : ℕ) (es : List (Pooled S)) → length (pop_fresh now es).1 ≤ length es
  unfolding pop_fresh
  length-pop_fresh now [] = omega arith
  length-pop_fresh now (e ∷ es) = elim (Bool-cases (is_fresh now e)) [
    | inl f ↦ rw f (omega arith)
    | inr f ↦ rw f (omega (arith, length-pop_fresh now es))
  ]

  length-filter : (p : Pooled S → Bool) (es : List (Pooled S)) → length (filter p es) ≤ length es
  length-filter p [] = omega arith
  length-filter p (e ∷ es) = elim (Bool-cases (p e)) [
    | inl f ↦ rw (f, filter) (omega (arith, length-filter p es))
    | inr f ↦ rw (f, filter) (omega (arith, length-filter p es))
  ]

  get-IsBounded :
      (a : Bytes) (pool : ConnectionPool S) (es : List (Pooled S))
      → IsBounded pool
      → get a pool ≡ some es
      → length es ≤ max_idle_per_host
  unfolding get
  get-IsBounded a [] es h e = cc
  get-IsBounded a ((k, vs) ∷ pool) es (one, h) e = elim (Bool-cases (bytes_keys.eq k a)) [
    | inl f ↦
        let same : vs ≡ es = ground (arith, e) in subst (λ l. length l ≤ max_idle_per_host) same one
    | inr f ↦ get-IsBounded a pool es h (ground (arith, e))
  ]

  get_list-IsBounded :
      (a : Bytes) (pool : ConnectionPool S)
      → IsBounded pool
      → length (get_list a pool) ≤ max_idle_per_host
  get_list-IsBounded a pool h = elim (Option-cases (get a pool)) [
    | inl e ↦ rw (e, get_list) (omega arith)
    | inr (es, e) ↦ rw (e, get_list) (get-IsBounded a pool es h e)
  ]

  take-IsValid :
      (now : ℕ) (a : Bytes) (pool : ConnectionPool S) → IsValid pool → IsValid (take now a pool).1
  unfolding take
  take-IsValid now a pool (d, h) = elim (Option-cases (get a pool)) [
    | inl e ↦ rw (e, take) (d, h)
    | inr (es, e) ↦
        rw (e, take)
          (
            insert-IsDistinct a (pop_fresh now es).1 pool d,
            insert-IsBounded a (pop_fresh now es).1 pool
                (omega (arith, length-pop_fresh now es, get-IsBounded a pool es h e)) h,
          )
  ]

  put-IsValid :
      (now : ℕ) (a : Bytes) (s : S) (pool : ConnectionPool S)
      → IsValid pool
      → IsValid (put now a s pool)
  unfolding put
  put-IsValid now a s pool (d, h) =
      elim (Bool-cases (ltb (length (get_list a pool)) max_idle_per_host)) [
        | inl e ↦
            rw (e, put) (insert-IsDistinct a _ pool d, insert-IsBounded a _ pool (ground arith) h)
        | inr e ↦
            rw (e, put)
              (
                insert-IsDistinct a _ pool d,
                insert-IsBounded a _ pool (get_list-IsBounded a pool h) h,
              )
      ]

  pub get-retain_fresh :
      (now : ℕ) (a : Bytes) (pool : ConnectionPool S)
      → get a pool ≡ none
      → get a (retain_fresh now pool) ≡ none
  unfolding get retain_fresh
  get-retain_fresh now a [] e = refl
  get-retain_fresh now a ((k, es) ∷ pool) e = ground (arith, e, get-retain_fresh now a pool)

  pub get-drop_empty :
      (a : Bytes) (pool : ConnectionPool S) → get a pool ≡ none → get a (drop_empty pool) ≡ none
  unfolding get drop_empty
  get-drop_empty a [] e = refl
  get-drop_empty a ((k, es) ∷ pool) e = ground (arith, e, get-drop_empty a pool)

  retain_fresh-IsValid :
      (now : ℕ) (pool : ConnectionPool S) → IsValid pool → IsValid (retain_fresh now pool)
  unfolding retain_fresh
  retain_fresh-IsValid now [] h = h
  retain_fresh-IsValid now ((k, es) ∷ pool) ((once, d), (one, h)) =
      let (d', h') = retain_fresh-IsValid now pool (d, h) in
      (
        (get-retain_fresh now k pool once, d'),
        (omega (arith, length-filter (is_fresh now) es, one), h'),
      )

  drop_empty-IsValid : (pool : ConnectionPool S) → IsValid pool → IsValid (drop_empty pool)
  unfolding drop_empty
  drop_empty-IsValid [] h = h
  drop_empty-IsValid ((k, []) ∷ pool) ((once, d), (one, h)) = drop_empty-IsValid pool (d, h)
  drop_empty-IsValid ((k, e ∷ es) ∷ pool) ((once, d), (one, h)) =
      let (d', h') = drop_empty-IsValid pool (d, h) in ((get-drop_empty k pool once, d'), (one, h'))

-- Whatever calls a worker makes, in whatever order and at whatever times, a valid pool stays valid:
-- every address has one entry, of at most 8192 idle connections.
pub run-IsValid :
    {S : Type 0} (calls : List (Call S)) (pool : ConnectionPool S)
    → IsValid pool
    → IsValid (run calls pool)
unfolding run evict_expired
run-IsValid [] pool h = h
run-IsValid (taken now a ∷ calls) pool h =
    run-IsValid calls (take now a pool).1 (take-IsValid now a pool h)
run-IsValid (returned now a s ∷ calls) pool h =
    run-IsValid calls (put now a s pool) (put-IsValid now a s pool h)
run-IsValid (evicted now ∷ calls) pool h =
    run-IsValid calls (evict_expired now pool)
      (drop_empty-IsValid (retain_fresh now pool) (retain_fresh-IsValid now pool h))
