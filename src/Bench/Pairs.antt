-- ===== src/Bench/Pairs.antt =====
-- crates/bench/src/harness/runner.rs, `pair_pgo_results`: the results of a standard build with those of a
-- PGO build. `improvement` is `pgo_improvement_pct`, a quotient of floats.
use tuletorn.Common.{
  ◌≡◌, refl, subst, inl, inr, Bool, true, ◌&&◌, Option, none, some, List, [], ◌∷◌, if◌then◌else◌,
  ◌>>=◌, ◌==◌, is_some, filter, filter_map, All, Option-cases, Bool-cases,
}
use tuletorn.Common.Bytes.{Bytes, codes, bytes_eq, strip_suffix}
use tuletorn.Bench.Results.{BenchmarkResult}

-- `str::ends_with`
abbrev pub ends_with : (suffix : Bytes) → Bytes → Bool
ends_with suffix s = is_some (strip_suffix suffix s)

abbrev pub find_first {ℓ} : {A : Type ℓ} → (A → Bool) → List A → Option A
find_first p [] = none
find_first p (x ∷ xs) = if p x then some x else find_first p xs

module _ {F : Type 0} (improvement : (standard pgo : BenchmarkResult F) → F) where
  abbrev pub Result : Type 0
  Result = BenchmarkResult F

  -- The same connections, payload and version.
  unfoldable pub same_window : (s p : Result) → Bool
  unfolding bytes_eq
  same_window s p =
      p.concurrency == s.concurrency
      && p.payload_bytes == s.payload_bytes
      && bytes_eq p.http_version s.http_version

  abbrev pub partner : (pgo : List Result) → Result → Option (Result × Result × F)
  partner pgo s = find_first (same_window s) pgo >>= λ p. some (s, p, improvement s p)

  abbrev pub build_results : (label : Bytes) → List Result → List Result
  build_results label results = filter (λ r. ends_with label r.candidate_name) results

  unfoldable pub pair_pgo_results : List Result → List (Result × Result × F)
  unfolding same_window strip_suffix
  pair_pgo_results results =
      let standard = build_results (codes "[standard]") results in
      let pgo = build_results (codes "[pgo]") results in filter_map (partner pgo) standard

  -- A standard and a PGO result of the same window, with the improvement of the second over the first.
  abbrev pub IsPair : Result × Result × F → Type 0
  IsPair (s, p, delta) =
      (ends_with (codes "[standard]") s.candidate_name ≡ true)
      × (ends_with (codes "[pgo]") p.candidate_name ≡ true)
      × (same_window s p ≡ true)
      × (delta ≡ improvement s p)

-- A property of what an option holds.
abbrev Held : {A : Type 0} → (A → Type 0) → Option A → Type 0
Held P none = Unit
Held P (some a) = P a

All-filter : {A : Type 0} (q : A → Bool) (xs : List A) → All (λ a. q a ≡ true) (filter q xs)
All-filter q [] = tt
All-filter q (x ∷ xs) = elim (Bool-cases (q x)) [
  | inl e ↦ rw (e, filter) (e, All-filter q xs)
  | inr e ↦ rw (e, filter) (All-filter q xs)
]

All-filter_map :
    {A B : Type 0} (P : A → Type 0) (Q : B → Type 0) (f : A → Option B) (xs : List A)
    → ((a : A) → P a → Held Q (f a))
    → All P xs
    → All Q (filter_map f xs)
All-filter_map P Q f [] h all = tt
All-filter_map P Q f (x ∷ xs) h (one, all) = elim (Option-cases (f x)) [
  | inl e ↦ rw (e, filter_map) (All-filter_map P Q f xs h all)
  | inr (b, e) ↦ rw (e, filter_map) (subst (Held Q) e (h x one), All-filter_map P Q f xs h all)
]

find_first-Held :
    {A : Type 0} (P : A → Type 0) (q : A → Bool) (xs : List A)
    → All P xs
    → Held (λ a. P a × (q a ≡ true)) (find_first q xs)
find_first-Held P q [] all = tt
find_first-Held P q (x ∷ xs) (one, all) = elim (Bool-cases (q x)) [
  | inl e ↦ rw (e, find_first) (one, e)
  | inr e ↦ rw (e, find_first) (find_first-Held P q xs all)
]

module _ {F : Type 0} (improvement : (standard pgo : BenchmarkResult F) → F) where
  partner_lem :
      (pgo : List (BenchmarkResult F)) (s : BenchmarkResult F)
      → ends_with (codes "[standard]") s.candidate_name ≡ true
      → All (λ p. ends_with (codes "[pgo]") p.candidate_name ≡ true) pgo
      → Held (IsPair improvement) (partner improvement pgo s)
  partner_lem pgo s standard all = from (find_first (same_window improvement s) pgo) (
      find_first-Held (λ p. ends_with (codes "[pgo]") p.candidate_name ≡ true)
        (same_window improvement s) pgo all)
    where
      from :
          (o : Option (BenchmarkResult F))
          → Held
              (λ p.
                (ends_with (codes "[pgo]") p.candidate_name ≡ true)
                × (same_window improvement s p ≡ true))
              o
          → Held (IsPair improvement) (o >>= λ p. some (s, p, improvement s p))
      from none k = tt
      from (some p) (is_pgo, same) = (standard, is_pgo, same, refl)

-- Every pair of the report is a standard and a PGO result of the same connections, payload and version,
-- with the improvement of the second over the first.
pub pair_pgo_results-IsPair :
    {F : Type 0} (improvement : (standard pgo : BenchmarkResult F) → F)
    (results : List (BenchmarkResult F))
    → All (IsPair improvement) (pair_pgo_results improvement results)
unfolding pair_pgo_results
pair_pgo_results-IsPair {F} improvement results =
    let is_standard : BenchmarkResult F → Type 0 =
      λ s. ends_with (codes "[standard]") s.candidate_name ≡ true in
    let is_pgo : BenchmarkResult F → Type 0 =
      λ p. ends_with (codes "[pgo]") p.candidate_name ≡ true in
    let pgo = build_results improvement (codes "[pgo]") results in
    let pgo_all : All is_pgo pgo = All-filter _ results in
    All-filter_map is_standard (IsPair improvement) (partner improvement pgo)
      (build_results improvement (codes "[standard]") results)
      (λ s standard. partner_lem improvement pgo s standard pgo_all) (All-filter _ results)
