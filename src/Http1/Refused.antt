-- ===== src/Http1/Refused.antt =====
-- A request whose length cannot be read is refused.
use tuletorn.Common.{
  ℕ, ◌≡◌, inl, inr, Bool, true, false, ◌&&◌, not, none, List, [], ◌∷◌, any, Bool-cases,
  Option-cases, is_some, refl,
}
use tuletorn.Common.Bytes.{Bytes, codes}
use tuletorn.Common.Bytes.Text.{eq_ignore_case}
use tuletorn.Http1.{invalid, RawRequest, done, Platform, max_headers}
use tuletorn.Http1.Parse.{
  Scan, fresh_scan, content_length_of, scan_request_header, scan_request, finish_request,
  read_request, parse_request,
}

module _ (p : Platform) where
  -- A `Content-Length` that is no number of 64 bits.
  abbrev pub is_bad_length : Bytes × Bytes → Bool
  is_bad_length (name, value) =
      not (eq_ignore_case name (codes "host"))
      && (eq_ignore_case name (codes "content-length") && not (is_some (content_length_of p value)))

  bad_header :
      (s : Scan) (name value : Bytes)
      → is_bad_length (name, value) ≡ true
      → scan_request_header p s (name, value) ≡ none
  unfolding scan_request_header
  bad_header s name value h = elim (Bool-cases (eq_ignore_case name (codes "host"))) [
    | inl e ↦ cc
    | inr e ↦ elim (Bool-cases (eq_ignore_case name (codes "content-length"))) [
      | inl f ↦ elim (Option-cases (content_length_of p value)) [
        | inl g ↦ rw (e, f, g) refl
        | inr (n, g) ↦ let k : false ≡ true = rw (e, f, g) at h in cc
      ]
      | inr f ↦ let k : false ≡ true = rw (e, f) at h in cc
    ]
  ]

  scan_request-bad :
      (s : Scan) (hs : List (Bytes × Bytes))
      → any is_bad_length hs ≡ true
      → scan_request p s hs ≡ none
  unfolding scan_request
  scan_request-bad s [] h = cc
  scan_request-bad s ((name, value) ∷ hs) h =
      elim (Option-cases (scan_request_header p s (name, value))) [
        | inl e ↦ rw e refl
        | inr (s', e) ↦ elim (Bool-cases (is_bad_length (name, value))) [
          | inl f ↦ let k = bad_header s name value f in cc
          | inr f ↦ rw e (scan_request-bad s' hs (rw (f, any) at h))
        ]
      ]

  read_request-bad :
      (buf : Bytes) (n : ℕ) (req : RawRequest)
      → any is_bad_length req.headers ≡ true
      → read_request p buf n req ≡ invalid
  unfolding read_request finish_request
  read_request-bad buf n req bad = elim (Option-cases req.method) [
    | inl e ↦ rw e refl
    | inr (method, e) ↦ elim (Option-cases req.path) [
      | inl f ↦ rw (e, f) refl
      | inr (target, f) ↦ elim (Option-cases (p.memmem buf target)) [
        | inl g ↦ rw (e, f, g) refl
        | inr (start, g) ↦
            rw (e, f, g)
              (rw (scan_request-bad (fresh_scan req.version) req.headers bad, finish_request) refl)
      ]
    ]
  ]

  -- A request whose head is complete, and of which one `Content-Length` is not a number of 64 bits, is
  -- refused, whatever its other headers are.
  pub parse_request-bad :
      (buf : Bytes) (n : ℕ) (req : RawRequest)
      → p.request_parser max_headers buf ≡ done n req
      → any is_bad_length req.headers ≡ true
      → parse_request p buf ≡ invalid
  unfolding parse_request
  parse_request-bad buf n req e bad = rw (e, parse_request) (read_request-bad buf n req bad)
