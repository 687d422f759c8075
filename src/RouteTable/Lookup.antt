-- ===== src/RouteTable/Lookup.antt =====
-- The lookup tries a list of routers, one after the other, and ignores the case of the host.
use native.Mathlib.Numerals.{add-one}
use tuletorn.Common.{
  ℕ, zero, suc, ◌+◌, ◌<◌, ◌≡◌, refl, sym, ◌∙◌, ◌⊎◌, inl, inr, true, Option, none, some, List, [],
  ◌∷◌, ◌++◌, arith, leb, ◌==◌, if◌then◌else◌, ◌<|>◌, length, drop, Bool-cases, Option-cases,
}
use tuletorn.Common.Bytes.{Bytes, is_empty, bytes_keys}
use tuletorn.Common.Map.{get}
use tuletorn.RouteTable.{
  RouteTable, at_host, try_suffix, wildcards, normalized, lookup_host, lookup,
}
use tuletorn.RouteTable.Trie.{Matchit}
use tuletorn.Simd.{Arch, Memchr, position, find_byte}

-- The suffixes of a host that a dot opens, longest first.
pub dot_suffixes : Bytes → List Bytes
dot_suffixes [] = []
dot_suffixes (c ∷ s) = let rest = dot_suffixes s in if c == b'.' then (c ∷ s) ∷ rest else rest

module _ {A : Type 0} (t : Matchit A) where
  -- The routers of the hosts that have one.
  pub routers_of : List (Bytes × t.Router) → List Bytes → List t.Router
  routers_of hosts [] = []
  routers_of hosts (h ∷ hs) = elim (get h hosts) [
    | none ↦ routers_of hosts hs
    | some hr ↦ hr ∷ routers_of hosts hs
  ]

  -- What the first router that serves the path answers.
  pub first_at : List t.Router → Bytes → Option A
  first_at [] path = none
  first_at (r ∷ rs) path = t.at r path <|> first_at rs path

  -- The routers to try: of the exact host, of its wildcard suffixes, longest first, the default one.
  pub tiers : RouteTable t → Bytes → List t.Router
  tiers table host =
      routers_of table.exact_hosts (host ∷ [])
      ++ (routers_of table.wildcard_hosts (dot_suffixes host) ++ table.default_router ∷ [])

  first_at-append :
      (rs qs : List t.Router) (path : Bytes)
      → first_at (rs ++ qs) path ≡ (first_at rs path <|> first_at qs path)
  unfolding first_at
  first_at-append [] qs path = refl
  first_at-append (r ∷ rs) qs path = elim (Option-cases (t.at r path)) [
    | inl e ↦ rw e (first_at-append rs qs path)
    | inr (a, e) ↦ rw e
  ]

  first_at-routers_of :
      (hosts : List (Bytes × t.Router)) (h : Bytes) (hs : List Bytes) (path : Bytes)
      → first_at (routers_of hosts (h ∷ hs)) path
        ≡ (at_host t hosts h path <|> first_at (routers_of hosts hs) path)
  unfolding first_at routers_of at_host
  first_at-routers_of hosts h hs path = elim (Option-cases (get h hosts)) [
    | inl e ↦ rw (e, first_at)
    | inr (hr, e) ↦ rw (e, first_at)
  ]

  first_at-none :
      (hosts : List (Bytes × t.Router)) (hs : List Bytes) (path : Bytes)
      → is_empty hosts ≡ true
      → first_at (routers_of hosts hs) path ≡ none
  unfolding first_at routers_of get
  first_at-none [] [] path e = refl
  first_at-none [] (h ∷ hs) path e = first_at-none [] hs path e
  first_at-none (p ∷ hosts) hs path e = cc

or_assoc {ℓ} : {A : Type ℓ} (a b c : Option A) → ((a <|> b) <|> c) ≡ (a <|> (b <|> c))
or_assoc none b c = refl
or_assoc (some a) b c = refl

or_none {ℓ} : {A : Type ℓ} (a : Option A) → (a <|> none) ≡ a
or_none none = refl
or_none (some a) = refl

position-dot :
    (s : Bytes)
    → ((position b'.' s ≡ none) × (dot_suffixes s ≡ []))
      ⊎ ((i : ℕ) × (rest : Bytes) × (position b'.' s ≡ some i)
          × (drop i s ≡ b'.' ∷ rest)
          × (dot_suffixes s ≡ (b'.' ∷ rest) ∷ dot_suffixes rest)
          × (length rest < length s))
unfolding position dot_suffixes
position-dot [] = inl (refl, refl)
position-dot (c ∷ s) = elim (Bool-cases (c == b'.')) [
  | inl dot ↦
      let same : c ≡ b'.' = ground arith in
      inr (0, s, rw dot, rw same, rw dot (rw same), omega arith)
  | inr plain ↦ elim (position-dot s) [
    | inl (e, f) ↦ inl (rw plain (rw e), rw plain f)
    | inr (i, rest, e, d, f, l) ↦
        inr (i + 1, rest, rw plain (rw e), rw (add-one i) d, rw plain f, omega arith)
  ]
]

module _ {A : Type 0} (t : Matchit A) (m : Memchr) where
  no_routers :
      (hosts : List (Bytes × t.Router)) (path : Bytes)
      → first_at t (routers_of t hosts []) path ≡ none
  unfolding first_at routers_of
  no_routers hosts path = refl

  -- One round's answer: of the suffix, or else of the shorter ones, if there are any.
  try_suffix_lem :
      (hosts : List (Bytes × t.Router)) (path rest : Bytes)
      → try_suffix t hosts path
          (b'.' ∷ rest)
          (first_at t (routers_of t hosts (dot_suffixes rest)) path)
        ≡ (at_host t hosts (b'.' ∷ rest) path
            <|> first_at t (routers_of t hosts (dot_suffixes rest)) path)
  unfolding try_suffix dot_suffixes
  try_suffix_lem hosts path rest = elim (Option-cases (at_host t hosts (b'.' ∷ rest) path)) [
    | inr (a, e) ↦ rw (e, try_suffix)
    | inl e ↦ rw (e, try_suffix) (shorter rest)
  ]
    where
      shorter :
          (r : Bytes)
          → (if leb (length (b'.' ∷ r)) 1
              then none
              else first_at t (routers_of t hosts (dot_suffixes r)) path)
            ≡ first_at t (routers_of t hosts (dot_suffixes r)) path
      shorter [] = sym (no_routers hosts path)
      shorter (c ∷ r) = ground arith

  wildcards_lem :
      (fuel : ℕ) (hosts : List (Bytes × t.Router)) (path current : Bytes)
      → length current < fuel
      → wildcards t m fuel hosts path current
        ≡ first_at t (routers_of t hosts (dot_suffixes current)) path
  unfolding wildcards find_byte
  wildcards_lem zero hosts path current h = absurd (omega arith)
  wildcards_lem (suc fuel) hosts path current h = elim (position-dot current) [
    | inl (e, f) ↦
        rw (m.memchr_lem b'.' current ∙ e, wildcards) (rw f (sym (no_routers hosts path)))
    | inr (i, rest, e, d, f, l) ↦
        rw (m.memchr_lem b'.' current ∙ e, wildcards)
          (rw (d, f, wildcards_lem fuel hosts path rest (omega arith))
            (try_suffix_lem hosts path rest
              ∙ sym (first_at-routers_of t hosts (b'.' ∷ rest) (dot_suffixes rest) path)))
  ]

  all_wildcards :
      (hosts : List (Bytes × t.Router)) (host path : Bytes)
      → (if is_empty hosts then none else wildcards t m (suc (length host)) hosts path host)
        ≡ first_at t (routers_of t hosts (dot_suffixes host)) path
  all_wildcards hosts host path = elim (Bool-cases (is_empty hosts)) [
    | inl e ↦ rw e (sym (first_at-none t hosts (dot_suffixes host) path e))
    | inr e ↦ rw e (wildcards_lem (suc (length host)) hosts path host (omega arith))
  ]

  exact_host :
      (hosts : List (Bytes × t.Router)) (host path : Bytes)
      → first_at t (routers_of t hosts (host ∷ [])) path ≡ at_host t hosts host path
  exact_host hosts host path =
      rw (first_at-routers_of t hosts host [] path, no_routers hosts path)
        (or_none (at_host t hosts host path))

  only : (r : t.Router) (path : Bytes) → first_at t (r ∷ []) path ≡ t.at r path
  unfolding first_at
  only r path = or_none (t.at r path)

  lookup_host_lem :
      (table : RouteTable t) (host path : Bytes)
      → (lookup_host t m table host path <|> t.at table.default_router path)
        ≡ first_at t (tiers t table host) path
  unfolding lookup_host tiers
  lookup_host_lem table host path =
      rw
        (
          all_wildcards table.wildcard_hosts host path,
          first_at-append t (routers_of t table.exact_hosts (host ∷ []))
              (routers_of t table.wildcard_hosts (dot_suffixes host) ++ table.default_router ∷ [])
              path,
          first_at-append t (routers_of t table.wildcard_hosts (dot_suffixes host))
              (table.default_router ∷ []) path,
          exact_host table.exact_hosts host path,
          only table.default_router path,
        )
        (or_assoc (at_host t table.exact_hosts host path)
          (first_at t (routers_of t table.wildcard_hosts (dot_suffixes host)) path)
          (t.at table.default_router path))

-- A request is answered by the first router, of the exact host, of its wildcard suffixes from the
-- longest to the shortest, and of the routes without a host, that serves its path; without a `Host`
-- header only the last is asked. The empty path counts as the root.
pub lookup-tiers :
    {A : Type 0} (t : Matchit A) (m : Memchr) (arch : Arch) (table : RouteTable t)
    (host path : Bytes)
    → (lookup t m arch table (some host) path
        ≡ first_at t
            (tiers t table (normalized t m arch host))
            (if is_empty path then b'/' ∷ [] else path))
      × (lookup t m arch table none path
          ≡ t.at table.default_router (if is_empty path then b'/' ∷ [] else path))
unfolding lookup
lookup-tiers t m arch table host path = (lookup_host_lem t m table _ _, refl)
