-- ===== src/Bench/Runner.antt =====
-- crates/bench/src/harness/runner.rs: the windows of a scenario, the candidates in turn, and the pairs of
-- a standard and a PGO build. A window is a function that may fail.
use tuletorn.Common.{
  ℕ, suc, ◌*◌, ◌≡◌, refl, ap, sym, ◌∙◌, inl, inr, Option, none, some, List, [], ◌∷◌, ◌++◌, ◌>>=◌,
  map, flat_map, length, length-append, Option-cases, arith,
}
use native.Mathlib.Nat.{mul_comm}
use tuletorn.Bench.Payloads.{PayloadSize}
use tuletorn.Bench.Scenario.{HttpVersion, ScenarioConfig, measurement_count}

-- One window: the version, the payload and the number of connections.
abbrev pub Window : Type 0
Window = HttpVersion × PayloadSize × ℕ

module _ {R : Type 0} (measure : Window → Option R) where
  -- The three loops of `measure_all`; `results` is what they pushed so far.
  abbrev pub for_concurrency :
      HttpVersion → PayloadSize → List ℕ → (results : List R) → Option (List R)
  for_concurrency v p [] results = some results
  for_concurrency v p (c ∷ cs) results =
      measure (v, p, c) >>= λ r. for_concurrency v p cs (results ++ r ∷ [])

  abbrev pub for_payload :
      HttpVersion → List ℕ → List PayloadSize → (results : List R) → Option (List R)
  for_payload v cs [] results = some results
  for_payload v cs (p ∷ ps) results =
      for_concurrency v p cs results >>= λ rs. for_payload v cs ps rs

  abbrev pub for_version :
      List ℕ → List PayloadSize → List HttpVersion → (results : List R) → Option (List R)
  for_version cs ps [] results = some results
  for_version cs ps (v ∷ vs) results = for_payload v cs ps results >>= λ rs. for_version cs ps vs rs

  unfoldable pub measure_all : ScenarioConfig → Option (List R)
  measure_all s = for_version s.concurrencies s.payloads s.http_versions []

-- Every window of a scenario, in the order in which they are measured.
abbrev pub windows : ScenarioConfig → List Window
windows s =
    flat_map (λ v. flat_map (λ p. map (λ c. (v, p, c)) s.concurrencies) s.payloads) s.http_versions

bind_same :
    {A B : Type 0} {f g : A → Option B} (o : Option A)
    → ((a : A) → f a ≡ g a)
    → (o >>= f) ≡ (o >>= g)
bind_same none h = refl
bind_same (some a) h = h a

module _ {R : Type 0} (measure : Window → Option R) where
  -- One window after the other, up to the first error.
  abbrev pub in_order : List Window → (results : List R) → Option (List R)
  in_order [] results = some results
  in_order (w ∷ ws) results = measure w >>= λ r. in_order ws (results ++ r ∷ [])

  in_order-append :
      (ws vs : List Window) (results : List R)
      → in_order (ws ++ vs) results ≡ (in_order ws results >>= λ rs. in_order vs rs)
  in_order-append [] vs results = refl
  in_order-append (w ∷ ws) vs results = elim (Option-cases (measure w)) [
    | inl e ↦ rw (e, in_order) refl
    | inr (r, e) ↦ rw (e, in_order) (in_order-append ws vs (results ++ r ∷ []))
  ]

  concurrency_lem :
      (v : HttpVersion) (p : PayloadSize) (cs : List ℕ) (results : List R)
      → for_concurrency measure v p cs results ≡ in_order (map (λ c. (v, p, c)) cs) results
  concurrency_lem v p [] results = refl
  concurrency_lem v p (c ∷ cs) results =
      bind_same (measure (v, p, c)) (λ r. concurrency_lem v p cs (results ++ r ∷ []))

  abbrev rows : HttpVersion → List ℕ → List PayloadSize → List Window
  rows v cs ps = flat_map (λ p. map (λ c. (v, p, c)) cs) ps

  payload_lem :
      (v : HttpVersion) (cs : List ℕ) (ps : List PayloadSize) (results : List R)
      → for_payload measure v cs ps results ≡ in_order (rows v cs ps) results
  payload_lem v cs [] results = refl
  payload_lem v cs (p ∷ ps) results =
      ap (λ o. o >>= λ rs. for_payload measure v cs ps rs) (concurrency_lem v p cs results)
      ∙ bind_same (in_order (map (λ c. (v, p, c)) cs) results) (payload_lem v cs ps)
      ∙ sym (in_order-append (map (λ c. (v, p, c)) cs) (rows v cs ps) results)

  version_lem :
      (cs : List ℕ) (ps : List PayloadSize) (vs : List HttpVersion) (results : List R)
      → for_version measure cs ps vs results ≡ in_order (flat_map (λ v. rows v cs ps) vs) results
  version_lem cs ps [] results = refl
  version_lem cs ps (v ∷ vs) results =
      ap (λ o. o >>= λ rs. for_version measure cs ps vs rs) (payload_lem v cs ps results)
      ∙ bind_same (in_order (rows v cs ps) results) (version_lem cs ps vs)
      ∙ sym (in_order-append (rows v cs ps) (flat_map (λ v. rows v cs ps) vs) results)

length-map : {A B : Type 0} (f : A → B) (xs : List A) → length (map f xs) ≡ length xs
length-map f [] = refl
length-map f (x ∷ xs) = ap suc (length-map f xs)

length-flat_map :
    {A B : Type 0} (f : A → List B) (n : ℕ) (xs : List A)
    → ((a : A) → length (f a) ≡ n)
    → length (flat_map f xs) ≡ length xs * n
length-flat_map f n [] h = omega arith
length-flat_map f n (x ∷ xs) h =
    length-append (f x) (flat_map f xs) ∙ omega (arith, h x, length-flat_map f n xs h)

length-windows : (s : ScenarioConfig) → length (windows s) ≡ measurement_count s
length-windows s =
    length-flat_map _ (length s.payloads * length s.concurrencies) s.http_versions (λ v.
      length-flat_map _ (length s.concurrencies) s.payloads
        (λ p. length-map (λ c. (v, p, c)) s.concurrencies))
    ∙ mul_comm (length s.http_versions) (length s.payloads * length s.concurrencies)
    ∙ ap (λ n. n * length s.http_versions) (mul_comm (length s.payloads) (length s.concurrencies))

-- A scenario measures its windows one after the other, the connections innermost and the versions
-- outermost, as many as `measurement_count` says, and stops at the first that fails.
pub measure_all-in_order :
    {R : Type 0} (measure : Window → Option R) (s : ScenarioConfig)
    → (measure_all measure s ≡ in_order measure (windows s) [])
      × (length (windows s) ≡ measurement_count s)
unfolding measure_all
measure_all-in_order measure s =
    (version_lem measure s.concurrencies s.payloads s.http_versions [], length-windows s)
