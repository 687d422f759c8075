-- ===== src/Simd/Host.antt =====
-- Stripping the port of a `Host` header.
use native.Mathlib.Nat.{suc-add}
use tuletorn.Common.{
  ℕ, ◌+◌, ◌≢◌, ◌≡◌, refl, ap, false, [], ◌∷◌, ◌++◌, arith, length, take, All, some, none,
}
use tuletorn.Common.Bytes.{Bytes}
use tuletorn.Simd.{Memchr, position, starts_bracket, host_without_port}

-- A byte that stands nowhere in a text.
abbrev pub IsFree : ℕ → Bytes → Type 0
IsFree b s = All (λ c. c ≢ b) s

position-append : (b : ℕ) (s t : Bytes) → IsFree b s → position b (s ++ b ∷ t) ≡ some (length s)
unfolding position
position-append b [] t h = ground arith
position-append b (c ∷ s) t (p, h) = ground (arith, position-append b s t h)

position-IsFree : (b : ℕ) (s : Bytes) → IsFree b s → position b s ≡ none
unfolding position
position-IsFree b [] h = refl
position-IsFree b (c ∷ s) (p, h) = ground (arith, position-IsFree b s h)

take-append : (s t : Bytes) → take (length s) (s ++ t) ≡ s
take-append [] t = refl
take-append (c ∷ s) t = ap (◌∷◌ c) (take-append s t)

take_one_more : (s : Bytes) (c : ℕ) (t : Bytes) → take (length s + 1) (s ++ c ∷ t) ≡ s ++ c ∷ []
take_one_more [] c t = refl
take_one_more (d ∷ s) c t = rw (suc-add (length s) 1) (ap (◌∷◌ d) (take_one_more s c t))

starts_bracket-append :
    (host : Bytes) (port : Bytes)
    → starts_bracket host ≡ false
    → starts_bracket (host ++ b':' ∷ port) ≡ false
starts_bracket-append [] port h = refl
starts_bracket-append (c ∷ host) port h = h

-- A host name with no colon in it, which does not open a bracket, loses its port and stays as it is
-- without one.
pub host_without_port_name :
    (m : Memchr) (host port : Bytes)
    → IsFree b':' host
    → starts_bracket host ≡ false
    → (host_without_port m (host ++ b':' ∷ port) ≡ host) × (host_without_port m host ≡ host)
unfolding host_without_port
host_without_port_name m host port free plain = (
  rw
      (
        starts_bracket-append host port plain,
        m.memchr_lem b':' (host ++ b':' ∷ port),
        position-append b':' host port free,
      )
      (take-append host (b':' ∷ port)),
  rw (plain, m.memchr_lem b':' host, position-IsFree b':' host free),
)

-- An IPv6 literal keeps its brackets and loses whatever follows the closing one; an unclosed one
-- stays as it is.
pub host_without_port_ipv6 :
    (m : Memchr) (inner port : Bytes)
    → IsFree b']' inner
    → (host_without_port m (b'[' ∷ (inner ++ b']' ∷ port)) ≡ b'[' ∷ (inner ++ b']' ∷ []))
      × (host_without_port m (b'[' ∷ inner) ≡ b'[' ∷ inner)
unfolding host_without_port
host_without_port_ipv6 m inner port free =
    let opened : IsFree b']' (b'[' ∷ inner) = ((λ e. omega arith), free) in
    (
      rw
          (
            m.memchr_lem b']' (b'[' ∷ (inner ++ b']' ∷ port)),
            position-append b']' (b'[' ∷ inner) port opened,
          )
          (take_one_more (b'[' ∷ inner) b']' port),
      rw (m.memchr_lem b']' (b'[' ∷ inner), position-IsFree b']' (b'[' ∷ inner) opened),
    )
