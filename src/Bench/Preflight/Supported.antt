-- ===== src/Bench/Preflight/Supported.antt =====
-- The number of connections that `max_supported` finds.
use tuletorn.Common.{
  ℕ, zero, suc, ◌+◌, ◌-◌, ◌/◌, ◌≡◌, ◌≤◌, ◌<◌, refl, sym, ◌∙◌, ◌≢◌, ◌⊎◌, inl, inr, Bool, true, false,
  Bool-cases, ltb, ltb→lt, arith,
}
use tuletorn.Bench.Preflight.{Limits, Sockets, supports, search, most, max_supported}
use tuletorn.Bench.Preflight.Fits.{IsMonotone, supports_mono}

-- The largest number up to `hi` that fits.
abbrev pub IsMost : (fits : ℕ → Bool) → (hi m : ℕ) → Type 0
IsMost fits hi m = (fits m ≡ true) × (m ≤ hi) × ((n : ℕ) → m < n → n ≤ hi → fits n ≡ false)

true≢false : true ≢ false
true≢false e = cc

module _ (fits : ℕ → Bool) (most : ℕ)
    (mono : (a b : ℕ) → a ≤ b → b ≤ most → fits b ≡ true → fits a ≡ true) where
  refused : (a b : ℕ) → a ≤ b → b ≤ most → fits a ≡ false → fits b ≡ false
  refused a b le up blocked = elim (Bool-cases (fits b)) [
    | inl fit ↦ absurd (true≢false (sym (mono a b le up fit) ∙ blocked))
    | inr e ↦ e
  ]

  search-IsMost :
      (fuel lo hi : ℕ)
      → hi ≤ lo + fuel
      → lo ≤ hi
      → hi ≤ most
      → fits lo ≡ true
      → ((n : ℕ) → hi < n → n ≤ most → fits n ≡ false)
      → IsMost fits most (search fits fuel lo hi)
  search-IsMost zero lo hi enough le up low above =
      (low, omega arith, λ n h k. above n (omega arith) k)
  search-IsMost (suc fuel) lo hi enough le up low above = elim (Bool-cases (ltb lo hi)) [
    | inl e ↦
        let lt = ltb→lt lo hi e in
        elim (Bool-cases (fits ((lo + hi + 1) / 2))) [
          | inl f ↦
              rw (e, search, f)
                (search-IsMost fuel ((lo + hi + 1) / 2) hi (omega arith) (omega arith) up f above)
          | inr f ↦
              rw (e, search, f)
                (search-IsMost fuel lo ((lo + hi + 1) / 2 - 1) (omega arith) (omega arith)
                  (omega arith) low (λ n h k. refused ((lo + hi + 1) / 2) n (omega arith) k f))
        ]
    | inr e ↦ rw (e, search) (low, omega arith, λ n h k. above n (ground arith) k)
  ]

-- `max_supported` gives the largest number of connections up to 200000 that no limit blocks, and 0 where
-- a limit blocks a single one, if more connections never need fewer sockets and the most that it tries
-- need at most `2 ^ 40`.
pub max_supported-IsMost :
    (l : Limits) (s : Sockets)
    → IsMonotone s
    → ((max_supported l s ≡ 0) × (supports l s 1 ≡ false))
      ⊎ IsMost (supports l s) most (max_supported l s)
unfolding max_supported
max_supported-IsMost l s mono = elim (Bool-cases (supports l s 1)) [
  | inl e ↦
      rw (e, max_supported)
        (inr (
          search-IsMost (supports l s) most (supports_mono l s mono) most 1 most (omega arith)
            (omega arith) (omega arith) e (λ n h k. absurd (omega arith))))
  | inr e ↦ rw (e, max_supported) (inl (refl, refl))
]
