-- ===== src/Http1/Framing.antt =====
-- The lengths that the scans of the headers keep fit in 64 bits.
use tuletorn.Common.{
  ℕ, ◌+◌, ◌-◌, ◌*◌, ◌^◌, ◌<◌, ◌≡◌, refl, inl, inr, ◌&&◌, Option, none, some, List, [], ◌∷◌,
  Bool-cases, Option-cases, arith, ◌>>=◌, ◌==◌, leb, ltb,
}
use tuletorn.Common.Bytes.{Bytes, codes, is_empty}
use tuletorn.Common.Bytes.Text.{trim, eq_ignore_case, parse_digits, parse_u64}
use tuletorn.Http1.{Platform}
use tuletorn.Http1.Parse.{
  Scan, content_length_of, scan_shared, scan_request_header, scan_request, scan_response,
}

abbrev pub Fits : Option ℕ → Type 0
Fits none = Unit
Fits (some n) = n < 2 ^ 64

parse_digits-Fits : (n : ℕ) (s : Bytes) → n < 2 ^ 64 → Fits (parse_digits n s)
unfolding parse_digits
parse_digits-Fits n [] h = h
parse_digits-Fits n (c ∷ s) h =
    elim (Bool-cases (leb b'0' c && leb c b'9' && ltb (n * 10 + (c - b'0')) (2 ^ 64))) [
      | inl e ↦ rw (e, parse_digits) (parse_digits-Fits (n * 10 + (c - b'0')) s (ground arith))
      | inr e ↦ rw (e, parse_digits) tt
    ]

parse_u64-Fits : (s : Bytes) → Fits (parse_u64 s)
unfolding parse_u64
parse_u64-Fits [] = tt
parse_u64-Fits (c ∷ s) = elim (Bool-cases (c == b'+')) [
  | inl e ↦ elim (Bool-cases (is_empty s)) [
    | inl f ↦ rw (e, f) tt
    | inr f ↦ rw (e, f) (parse_digits-Fits 0 s (omega arith))
  ]
  | inr e ↦ rw e (parse_digits-Fits 0 (c ∷ s) (omega arith))
]

module _ (p : Platform) where
  content_length_of-Fits : (value : Bytes) → Fits (content_length_of p value)
  content_length_of-Fits value = elim (Option-cases (p.validate_utf8 value)) [
    | inl e ↦ rw e tt
    | inr (v, e) ↦ rw e (parse_u64-Fits (trim v))
  ]

  abbrev pub ScanFits : Option Scan → Type 0
  ScanFits none = Unit
  ScanFits (some s) = Fits s.content_length

  -- The shared branches leave the length alone.
  content_length-scan_shared :
      (s : Scan) (name value : Bytes)
      → (scan_shared p s name value).content_length ≡ s.content_length
  unfolding scan_shared
  content_length-scan_shared s name value =
      elim (Bool-cases (eq_ignore_case name (codes "transfer-encoding"))) [
        | inl e ↦ elim (Option-cases (p.validate_utf8 value)) [
          | inl f ↦ rw (e, f) refl
          | inr (v, f) ↦ rw (e, f) refl
        ]
        | inr e ↦ elim (Bool-cases (eq_ignore_case name (codes "connection"))) [
          | inl g ↦ elim (Option-cases (p.validate_utf8 value)) [
            | inl f ↦ rw (e, g, f) refl
            | inr (v, f) ↦ rw (e, g, f) refl
          ]
          | inr g ↦ rw (e, g) refl
        ]
      ]

  scan_request_header-ScanFits :
      (s : Scan) (name value : Bytes)
      → Fits s.content_length
      → ScanFits (scan_request_header p s (name, value))
  unfolding scan_request_header
  scan_request_header-ScanFits s name value h =
      elim (Bool-cases (eq_ignore_case name (codes "host"))) [
        | inl e ↦ rw e h
        | inr e ↦ elim (Bool-cases (eq_ignore_case name (codes "content-length"))) [
          | inl f ↦ rw (e, f) (read (content_length_of p value) (content_length_of-Fits value))
          | inr f ↦ rw (e, f) (rw (content_length-scan_shared s name value) h)
        ]
      ]
    where
      read :
          (o : Option ℕ)
          → Fits o
          → ScanFits (o >>= λ n. some (record s { content_length = some n }))
      read none k = tt
      read (some n) k = k

  pub scan_request-ScanFits :
      (s : Scan) (hs : List (Bytes × Bytes))
      → Fits s.content_length
      → ScanFits (scan_request p s hs)
  unfolding scan_request
  scan_request-ScanFits s [] h = h
  scan_request-ScanFits s ((name, value) ∷ hs) h =
      elim (Option-cases (scan_request_header p s (name, value))) [
        | inl e ↦ rw e tt
        | inr (s', e) ↦
            rw e
              (scan_request-ScanFits s' hs (rw e at (scan_request_header-ScanFits s name value h)))
      ]

  pub scan_response-Fits :
      (s : Scan) (hs : List (Bytes × Bytes))
      → Fits s.content_length
      → Fits (scan_response p s hs).content_length
  unfolding scan_response
  scan_response-Fits s [] h = h
  scan_response-Fits s ((name, value) ∷ hs) h =
      elim (Bool-cases (eq_ignore_case name (codes "content-length"))) [
        | inl e ↦
            rw (e, scan_response)
              (scan_response-Fits (record s { content_length = content_length_of p value }) hs
                (content_length_of-Fits value))
        | inr e ↦
            rw (e, scan_response)
              (scan_response-Fits (scan_shared p s name value) hs
                (rw (content_length-scan_shared s name value) h))
      ]
