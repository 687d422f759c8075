-- ===== src/Target/Shares.antt =====
-- The sequence of indices that a cursor runs through, and how `serve` follows it.
use native.Mathlib.Decide.{dec_lt}
use native.Mathlib.Nat.{zero-div, zero-mod, add-zero, div-add-mod, mod-eq_of_lt}
use tuletorn.Common.{
  ◌⊎◌, ℕ, zero, suc, ◌+◌, ◌*◌, ◌≤◌, ◌<◌, ◌%◌, ◌/◌, ◌≡◌, refl, ap, inl, inr, List, [], ◌∷◌, map,
  arith, length, All, get_elem?, drop, get_elem?-drop, ltb, some, ◌==◌, if◌then◌else◌,
}
use tuletorn.Target.{
  round_robin, weighted, TargetGroup, placeholder, usize_mod, select_policy, select, serve,
}
use tuletorn.Target.Weights.{BackendEndpoint, count}

abbrev pub endpoint_at : List BackendEndpoint → ℕ → BackendEndpoint
endpoint_at [] i = placeholder
endpoint_at (e ∷ es) zero = e
endpoint_at (e ∷ es) (suc i) = endpoint_at es i

get_elem?-endpoint_at :
    (es : List BackendEndpoint) (i : ℕ) → i < length es → get_elem? es i ≡ some (endpoint_at es i)
get_elem?-endpoint_at [] i l = elim l [ ]
get_elem?-endpoint_at (e ∷ es) zero l = refl
get_elem?-endpoint_at (e ∷ es) (suc i) l = get_elem?-endpoint_at es i (omega arith)

-- The indices that a cursor runs through.
abbrev pub cycle : (len cursor n : ℕ) → List ℕ
cycle len cursor zero = []
cycle len cursor (suc n) = cursor % len ∷ cycle len (cursor + 1) n

-- How often the first `m` requests reach index `i`.
abbrev pub share : (len i m : ℕ) → ℕ
share len i m = m / len + (if ltb i (m % len) then 1 else 0)

mul_mono : (w a b : ℕ) → a ≤ b → w * a ≤ w * b
mul_mono w a b h = grind arith

div_unique :
    (len q q' a b : ℕ) → a < len → b < len → len * q + a ≡ len * q' + b → (q ≡ q') × (a ≡ b)
div_unique len q q' a b ha hb e = elim (dec_lt q q') [
  | yes h ↦ absurd (omega (arith, mul_mono len (suc q) q' h))
  | no h ↦ elim (dec_lt q' q) [
    | yes k ↦ absurd (omega (arith, mul_mono len (suc q') q k))
    | no k ↦ let same : q ≡ q' = omega arith in (same, omega (arith, ap (λ (t : ℕ). len * t) same))
  ]
]

div_suc :
    (len m : ℕ)
    → 0 < len
    → ((m % len + 1 < len) × ((m + 1) / len ≡ m / len) × ((m + 1) % len ≡ m % len + 1))
      ⊎ ((m % len + 1 ≡ len) × ((m + 1) / len ≡ m / len + 1) × ((m + 1) % len ≡ 0))
div_suc len m h = elim (dec_lt (m % len + 1) len) [
  | yes k ↦
      let (q, r) =
        div_unique len ((m + 1) / len) (m / len) ((m + 1) % len) (m % len + 1) (omega arith) k
          (omega (arith, div-add-mod m len, div-add-mod (m + 1) len)) in
      inl (k, q, r)
  | no k ↦
      let (q, r) =
        div_unique len ((m + 1) / len) (m / len + 1) ((m + 1) % len) 0 (omega arith) h
          (omega (arith, div-add-mod m len, div-add-mod (m + 1) len)) in
      inr (omega arith, q, r)
]

share-suc :
    (len i m : ℕ) → i < len → (if i == m % len then 1 else 0) + share len i m ≡ share len i (m + 1)
share-suc len i m h = ground (arith, div_suc len m)

count-cycle :
    (len i cursor n : ℕ)
    → i < len
    → count i (cycle len cursor n) + share len i cursor ≡ share len i (cursor + n)
count-cycle len i cursor zero h = rw (add-zero cursor) (omega arith)
count-cycle len i cursor (suc n) h =
    let e : cursor + 1 + n ≡ cursor + suc n = omega arith in
    omega (arith, share-suc len i cursor h, rw e at (count-cycle len i (cursor + 1) n h))

pub count-cycle_zero : (len i n : ℕ) → i < len → count i (cycle len 0 n) ≡ share len i n
count-cycle_zero len i n h =
    let e : 0 + n ≡ n = omega arith in
    ground (arith, rw e at (count-cycle len i 0 n h), zero-div len, zero-mod len)

module _ (kept : List BackendEndpoint) where
  pub serve-round_robin :
      (cursor n : ℕ)
      → 0 < length kept
      → cursor + n < usize_mod
      → serve n (record { inner = round_robin kept cursor })
        ≡ some (
          map (endpoint_at kept) (cycle (length kept) cursor n),
          record { inner = round_robin kept (cursor + n) },
        )
  unfolding serve select select_policy
  serve-round_robin cursor zero p h = rw (add-zero cursor)
  serve-round_robin cursor (suc n) p h =
      let next : (cursor + 1) % usize_mod ≡ cursor + 1 = omega arith in
      let e : cursor + 1 + n ≡ cursor + suc n = omega arith in
      rw (get_elem?-endpoint_at kept (cursor % length kept) (omega arith))
        (rw next (rw (serve-round_robin (cursor + 1) n p (omega arith)) (rw e)))

  pub serve-weighted :
      (table suf : List ℕ) (cursor : ℕ)
      → drop cursor table ≡ suf
      → length table < usize_mod
      → All (λ slot. slot < length kept) suf
      → (g : TargetGroup) × (serve (length suf) (record { inner = weighted kept table cursor })
          ≡ some (map (endpoint_at kept) suf, g))
  unfolding serve select select_policy
  serve-weighted table [] cursor e h a = (record { inner = weighted kept table cursor }, refl)
  serve-weighted table (s ∷ suf) cursor e h (l, a) =
      let (found, rest, below) = get_elem?-drop table cursor s suf e in
      let next : (cursor + 1) % usize_mod ≡ cursor + 1 = omega arith in
      let here : cursor % length table ≡ cursor = mod-eq_of_lt below in
      let (g, later) = serve-weighted table suf (cursor + 1) rest h a in
      (g, rw here (rw found (rw (get_elem?-endpoint_at kept s l) (rw next (rw later)))))
