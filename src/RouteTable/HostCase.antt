-- ===== src/RouteTable/HostCase.antt =====
-- Host names are matched without regard to ASCII case.
use tuletorn.Common.{
  ℕ, zero, suc, ◌+◌, ◌≤◌, ◌<◌, ◌≡◌, refl, ap, sym, ◌∙◌, ◌⊎◌, inl, inr, false, Option, none, some,
  [], ◌∷◌, arith, ltb, ◌==◌, length, length-map, take, Bool-cases, Option-cases,
}
use tuletorn.Common.Bytes.{Bytes, to_ascii_lowercase, to_ascii_lowercase_byte}
use tuletorn.Common.Bytes.Laws.{to_ascii_lowercase_idem}
use tuletorn.RouteTable.{RouteTable, normalized, lookup, max_host_len}
use tuletorn.RouteTable.Trie.{Matchit}
use tuletorn.Simd.{Arch, Memchr, position, find_byte, starts_bracket, host_without_port}
use tuletorn.Simd.CaseFold.{IsBytes, lowercase_ascii_into_lem}

-- A byte that no letter has for its lower case, and that is no letter.
abbrev IsCaseless : ℕ → Type 0
IsCaseless b = (c : ℕ) → (to_ascii_lowercase_byte c == b) ≡ (c == b)

colon-IsCaseless : IsCaseless b':'
unfolding to_ascii_lowercase_byte
colon-IsCaseless c = ground arith

bracket-IsCaseless : IsCaseless b']'
unfolding to_ascii_lowercase_byte
bracket-IsCaseless c = ground arith

position-lowercase :
    (b : ℕ) → IsCaseless b → (s : Bytes) → position b (to_ascii_lowercase s) ≡ position b s
unfolding position to_ascii_lowercase
position-lowercase b h [] = refl
position-lowercase b h (c ∷ s) = rw (h c, position-lowercase b h s)

take-lowercase : (n : ℕ) (s : Bytes) → take n (to_ascii_lowercase s) ≡ to_ascii_lowercase (take n s)
unfolding to_ascii_lowercase
take-lowercase zero s = refl
take-lowercase (suc n) [] = refl
take-lowercase (suc n) (c ∷ s) = ap (◌∷◌ (to_ascii_lowercase_byte c)) (take-lowercase n s)

starts_bracket-lowercase : (s : Bytes) → starts_bracket (to_ascii_lowercase s) ≡ starts_bracket s
unfolding to_ascii_lowercase
starts_bracket-lowercase [] = refl
starts_bracket-lowercase (c ∷ s) = caseless c
  where
    caseless : (d : ℕ) → (to_ascii_lowercase_byte d == b'[') ≡ (d == b'[')
    caseless d = ground arith

module _ (m : Memchr) where
  find_byte-lowercase :
      (b : ℕ) → IsCaseless b → (s : Bytes) → find_byte m b (to_ascii_lowercase s) ≡ find_byte m b s
  unfolding find_byte
  find_byte-lowercase b h s =
      m.memchr_lem b (to_ascii_lowercase s) ∙ position-lowercase b h s ∙ sym (m.memchr_lem b s)

  -- The cut at a found byte, itself included where `k` is one.
  cut_at :
      (o : Option ℕ) (cut : ℕ → ℕ) (s : Bytes)
      → (elim o [ none ↦ to_ascii_lowercase s | some i ↦ take (cut i) (to_ascii_lowercase s) ])
        ≡ to_ascii_lowercase (elim o [ none ↦ s | some i ↦ take (cut i) s ])
  cut_at none cut s = refl
  cut_at (some i) cut s = take-lowercase (cut i) s

  host_without_port-lowercase :
      (s : Bytes)
      → host_without_port m (to_ascii_lowercase s) ≡ to_ascii_lowercase (host_without_port m s)
  unfolding host_without_port
  host_without_port-lowercase s = elim (Bool-cases (starts_bracket s)) [
    | inl e ↦
        rw (starts_bracket-lowercase s, e, find_byte-lowercase b']' bracket-IsCaseless s)
          (cut_at (find_byte m b']' s) (λ i. i + 1) s)
    | inr e ↦
        rw (starts_bracket-lowercase s, e, find_byte-lowercase b':' colon-IsCaseless s)
          (cut_at (find_byte m b':' s) (λ i. i) s)
  ]

  length-take : (n : ℕ) (s : Bytes) → length (take n s) ≤ length s
  length-take zero s = omega arith
  length-take (suc n) [] = omega arith
  length-take (suc n) (c ∷ s) = omega (arith, length-take n s)

  take-IsBytes : (n : ℕ) (s : Bytes) → IsBytes s → IsBytes (take n s)
  take-IsBytes zero s h = tt
  take-IsBytes (suc n) [] h = h
  take-IsBytes (suc n) (c ∷ s) (p, h) = (p, take-IsBytes n s h)

  -- The host without its port is a beginning of the host.
  host_without_port-take :
      (s : Bytes) → (host_without_port m s ≡ s) ⊎ ((n : ℕ) × (host_without_port m s ≡ take n s))
  unfolding host_without_port find_byte
  host_without_port-take s = elim (Bool-cases (starts_bracket s)) [
    | inl e ↦ elim (Option-cases (m.memchr b']' s)) [
      | inl f ↦ inl (rw (e, f))
      | inr (i, f) ↦ inr (i + 1, rw (e, f))
    ]
    | inr e ↦ elim (Option-cases (m.memchr b':' s)) [
      | inl f ↦ inl (rw (e, f))
      | inr (i, f) ↦ inr (i, rw (e, f))
    ]
  ]

  stripped_lem :
      (s : Bytes)
      → IsBytes s
      → IsBytes (host_without_port m s) × (length (host_without_port m s) ≤ length s)
  stripped_lem s h = elim (host_without_port-take s) [
    | inl e ↦ rw e (h, omega arith)
    | inr (n, e) ↦ rw e (take-IsBytes n s h, length-take n s)
  ]

lowercase_byte_bound : (c : ℕ) → c < 256 → to_ascii_lowercase_byte c < 256
unfolding to_ascii_lowercase_byte
lowercase_byte_bound c h = ground arith

lowercase-IsBytes : (s : Bytes) → IsBytes s → IsBytes (to_ascii_lowercase s)
unfolding to_ascii_lowercase
lowercase-IsBytes [] h = h
lowercase-IsBytes (c ∷ s) (p, h) = (lowercase_byte_bound c p, lowercase-IsBytes s h)

length-lowercase : (s : Bytes) → length (to_ascii_lowercase s) ≡ length s
unfolding to_ascii_lowercase
length-lowercase s = length-map s to_ascii_lowercase_byte

module _ {A : Type 0} (t : Matchit A) (m : Memchr) (arch : Arch) where
  normalized_lem :
      (s : Bytes)
      → IsBytes s
      → length s ≤ max_host_len
      → normalized t m arch s ≡ to_ascii_lowercase (host_without_port m s)
  unfolding normalized
  normalized_lem s h l =
      let (bytes, shorter) = stripped_lem m s h in
      let fits : ltb max_host_len (length (host_without_port m s)) ≡ false = ground arith in
      rw
        (lowercase_ascii_into_lem arch max_host_len (host_without_port m s) bytes, normalized, fits)

  normalized-lowercase :
      (s : Bytes)
      → IsBytes s
      → length s ≤ max_host_len
      → normalized t m arch (to_ascii_lowercase s) ≡ normalized t m arch s
  normalized-lowercase s h l =
      rw
        (
          normalized_lem s h l,
          normalized_lem (to_ascii_lowercase s) (lowercase-IsBytes s h) (rw (length-lowercase s) l),
          host_without_port-lowercase m s,
        )
        (to_ascii_lowercase_idem (host_without_port m s))

-- A host of at most 256 bytes, port and all, is routed like the same host in lower case.
pub lookup_case :
    {A : Type 0} (t : Matchit A) (m : Memchr) (arch : Arch) (table : RouteTable t)
    (host path : Bytes)
    → IsBytes host
    → length host ≤ max_host_len
    → lookup t m arch table (some (to_ascii_lowercase host)) path
      ≡ lookup t m arch table (some host) path
unfolding lookup
lookup_case t m arch table host path h l = rw (normalized-lowercase t m arch host h l)
