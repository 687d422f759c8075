-- ===== src/Pool/Tests.antt =====
-- Tests of the connection pool, and the theorems about it at concrete inputs.
use tuletorn.Common.{ℕ, ◌≡◌, ◌≢◌, refl, some, none, List, [], ◌∷◌}
use tuletorn.Common.Bytes.{Bytes, codes, bytes_keys, bytes_eq}
use tuletorn.Common.Map.{get, insert, get_list}
use tuletorn.Pool.{ConnectionPool, take, put, idle_count, evict_expired}
use tuletorn.Pool.Bound.{Call, taken, returned, evicted, run, IsValid, run-IsValid}
use tuletorn.Pool.Reuse.{IsTaken, take-IsTaken}

-- Connections are numbers here; the second of an address is the newest.
abbrev pool : ConnectionPool ℕ
pool =
    (
      codes "a:80",
      record { stream = 2; parked_at = 40000000000 } ∷ record { stream = 1; parked_at = 0 } ∷ [],
    )
    ∷ (codes "b:80", record { stream = 3; parked_at = 0 } ∷ [])
    ∷ []

runs :
    ((take 50000000000 (codes "a:80") pool).0 ≡ some 2)
    × ((take 50000000000 (codes "b:80") pool).0 ≡ none)
    × (idle_count (evict_expired 50000000000 pool) ≡ 1)
    × (idle_count (put 0 (codes "c:80") 4 pool) ≡ 4)
unfolding take put idle_count evict_expired get insert bytes_eq
runs = (refl, refl, refl, refl)

abbrev calls : List (Call ℕ)
calls = returned 0 (codes "a:80") 1 ∷ taken 1 (codes "a:80") ∷ evicted 2 ∷ []

run-IsValid_example : IsValid {S = ℕ} (run calls [])
run-IsValid_example = run-IsValid calls [] (tt, tt)

take-IsTaken_example :
    IsTaken 50000000000
      (get_list (codes "a:80") pool)
      (take 50000000000 (codes "a:80") pool).0
      (get_list (codes "a:80") (take 50000000000 (codes "a:80") pool).1)
    × ((b : Bytes)
        → codes "a:80" ≢ b
        → get_list b (take 50000000000 (codes "a:80") pool).1 ≡ get_list b pool)
take-IsTaken_example = take-IsTaken 50000000000 (codes "a:80") pool
