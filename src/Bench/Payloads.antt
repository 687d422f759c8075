-- ===== src/Bench/Payloads.antt =====
-- crates/bench/src/load/payloads.rs: the payloads of a given size.
use tuletorn.Common.{
  ℕ, zero, suc, ◌+◌, ◌-◌, ◌*◌, ◌≡◌, ◌≤◌, refl, ap, sym, ◌∙◌, inl, inr, true, false, ◌||◌, Option,
  none, some, List, [], ◌∷◌, ◌++◌, if◌then◌else◌, ltb, ltb→lt, min, length, length-append, take,
  append_assoc, append-nil, Bool-cases, arith,
}
use tuletorn.Common.Bytes.{Bytes, codes, bytes_eq, to_ascii_lowercase}
use tuletorn.Common.Bytes.Parts.{length-take}
use tuletorn.Common.Bytes.Text.{trim}

abbrev pub chunk : Bytes
chunk = codes "{\"key\":\"value\",\"data\":\"benchmark-payload-chunk-0123456789\"}" ++ 10 ∷ []

-- The loop; every round adds a byte at least, so the size is fuel enough.
abbrev pub extend_to : (fuel : ℕ) → (size_bytes : ℕ) → Bytes → Bytes
extend_to zero size out = out
extend_to (suc fuel) size out = elim (ltb (length out) size) [
  | true ↦ extend_to fuel size (out ++ take (min (size - length out) (length chunk)) chunk)
  | false ↦ out
]

unfoldable pub generate_payload : (size_bytes : ℕ) → Bytes
generate_payload size = extend_to size size []

pub data PayloadSize : Type 0 where
  small_1kb medium_64kb large_1mb : PayloadSize

abbrev pub size_in_bytes : PayloadSize → ℕ
size_in_bytes small_1kb = 1024
size_in_bytes medium_64kb = 64 * 1024
size_in_bytes large_1mb = 1024 * 1024

abbrev pub payload_label : PayloadSize → Bytes
payload_label small_1kb = codes "1k"
payload_label medium_64kb = codes "64k"
payload_label large_1mb = codes "1m"

abbrev pub all_payloads : List PayloadSize
all_payloads = small_1kb ∷ medium_64kb ∷ large_1mb ∷ []

unfoldable pub parse_payload : Bytes → Option PayloadSize
unfolding bytes_eq to_ascii_lowercase trim
parse_payload text =
    let s = to_ascii_lowercase (trim text) in
    if bytes_eq s (codes "1k") || bytes_eq s (codes "1kb") || bytes_eq s (codes "1024")
    then some small_1kb
    else if bytes_eq s (codes "64k") || bytes_eq s (codes "64kb")
    then some medium_64kb
    else if bytes_eq s (codes "1m") || bytes_eq s (codes "1mb")
    then some large_1mb
    else none

-- `StandardPayloads::get`
abbrev pub standard_payload : PayloadSize → Bytes
standard_payload size = generate_payload (size_in_bytes size)

-- The chunk again and again.
abbrev pub cycle : ℕ → Bytes
cycle zero = []
cycle (suc n) = chunk ++ cycle n

take-append :
    (n : ℕ) (xs ys : Bytes)
    → take n (xs ++ ys) ≡ take (min n (length xs)) xs ++ take (n - length xs) ys
take-append zero xs ys =
    let e : min 0 (length xs) ≡ 0 = ground arith in
    let f : 0 - length xs ≡ 0 = omega arith in rw (e, f) refl
take-append (suc n) [] ys =
    let e : min (suc n) 0 ≡ 0 = ground arith in
    let f : suc n - 0 ≡ suc n = omega arith in rw (e, f) refl
take-append (suc n) (x ∷ xs) ys =
    let e : min (suc n) (suc (length xs)) ≡ suc (min n (length xs)) = ground arith in
    let f : suc n - suc (length xs) ≡ n - length xs = omega arith in
    rw (e, f) (ap (◌∷◌ x) (take-append n xs ys))

extend_to_lem :
    (fuel size : ℕ) (out : Bytes)
    → size ≤ length out + fuel
    → extend_to fuel size out ≡ out ++ take (size - length out) (cycle fuel)
extend_to_lem zero size out enough =
    let e : size - length out ≡ 0 = omega arith in rw (e, append-nil out) refl
extend_to_lem (suc fuel) size out enough = elim (Bool-cases (ltb (length out) size)) [
  | inl e ↦
      let lt = ltb→lt (length out) size e in
      let part = take (min (size - length out) (length chunk)) chunk in
      let grown = length-append out part in
      let added = length-take (min (size - length out) (length chunk)) chunk in
      let rest : size - length (out ++ part) ≡ (size - length out) - length chunk = ground arith in
      rw (e, extend_to)
        (extend_to_lem fuel size (out ++ part) (ground arith)
          ∙ rw rest (
              append_assoc out part (take ((size - length out) - length chunk) (cycle fuel))
              ∙ ap (λ t. out ++ t) (sym (take-append (size - length out) chunk (cycle fuel)))))
  | inr e ↦
      let f : size - length out ≡ 0 = ground arith in rw (e, extend_to, f, append-nil out) refl
]

length-cycle : (n : ℕ) → length (cycle n) ≡ n * length chunk
length-cycle zero = omega arith
length-cycle (suc n) = omega (arith, length-append chunk (cycle n), length-cycle n)

-- A payload has exactly the size that is asked for, and is the start of the chunk repeated.
pub generate_payload-cycle :
    (size : ℕ)
    → (length (generate_payload size) ≡ size) × (generate_payload size ≡ take size (cycle size))
unfolding generate_payload
generate_payload-cycle size =
    let same : extend_to size size [] ≡ take size (cycle size) =
      extend_to_lem size size [] (omega arith) ∙ ap (λ n. take n (cycle size)) (omega arith) in
    (ap length same ∙ length-take size (cycle size) ∙ rw (length-cycle size) (ground arith), same)
