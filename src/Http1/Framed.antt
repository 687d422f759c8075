-- ===== src/Http1/Framed.antt =====
-- What a parsed head promises, and which heads are refused.
use tuletorn.Common.{
  ℕ, ◌+◌, ◌^◌, ◌≤◌, ◌<◌, ◌≡◌, ◌≢◌, ◌⊎◌, refl, sym, ◌∙◌, inl, inr, true, Option, none, some, ◌++◌,
  Bool-cases, Option-cases, arith, take, if◌then◌else◌, ◌==◌, length,
}
use tuletorn.Common.Bytes.{Bytes, codes}
use tuletorn.Common.Bytes.Text.{eq_ignore_case}
use tuletorn.Common.Bytes.Search.{append_of_find_sub}
use tuletorn.Http1.{
  BodyLength, fixed, chunked, until_close, empty, RequestHead, ResponseHead, Parsed, complete,
  partial, invalid, RawRequest, RawResponse, Status, done, more, failed, Platform, max_headers,
}
use tuletorn.Http1.Framing.{Fits, scan_request-ScanFits, scan_response-Fits}
use tuletorn.Http1.Parse.{
  Scan, fresh_scan, request_body, response_body, is_bodyless, scan_request, scan_response,
  finish_request, read_request, parse_request, read_response, parse_response,
}

Status-cases :
    {A : Type 0} (s : Status A) → ((n : ℕ) × (a : A) × (s ≡ done n a)) ⊎ (s ≡ more) ⊎ (s ≡ failed)
Status-cases (done n a) = inl (n, a, refl)
Status-cases more = inr (inl refl)
Status-cases failed = inr (inr refl)

-- A length that is announced is positive and fits in 64 bits.
abbrev pub IsSound : BodyLength → Type 0
IsSound (fixed n) = (0 < n) × (n < 2 ^ 64)
IsSound chunked = Unit
IsSound until_close = Unit
IsSound empty = Unit

sized-IsSound :
    (o : Option ℕ) (default : BodyLength)
    → Fits o
    → IsSound default
    → IsSound (elim o as (λ _. BodyLength) [
      | none ↦ default
      | some n ↦ if n == 0 then empty else fixed n
    ])
sized-IsSound none default h k = k
sized-IsSound (some n) default h k = elim (Bool-cases (n == 0)) [
  | inl e ↦ rw e tt
  | inr e ↦ rw e (ground arith, h)
]

request_body-IsSound : (s : Scan) → Fits s.content_length → IsSound (request_body s)
request_body-IsSound s h = elim (Bool-cases s.is_chunked) [
  | inl e ↦ rw e tt
  | inr e ↦ rw e (sized-IsSound s.content_length empty h tt)
]

response_body-IsSound :
    (m : Bytes) (status : ℕ) (s : Scan) → Fits s.content_length → IsSound (response_body m status s)
unfolding response_body
response_body-IsSound m status s h = elim (Bool-cases (is_bodyless m status)) [
  | inl e ↦ rw e tt
  | inr e ↦ elim (Bool-cases s.is_chunked) [
    | inl f ↦ rw (e, f) tt
    | inr f ↦ rw (e, f) (sized-IsSound s.content_length until_close h tt)
  ]
]

-- To `HEAD`, or with one of the statuses that never have a body.
abbrev pub HasNoBody : (request_method : Bytes) → (status : ℕ) → Type 0
HasNoBody m status =
    (eq_ignore_case m (codes "HEAD") ≡ true)
    ⊎ ((100 ≤ status) × (status < 200))
    ⊎ (status ≡ 204)
    ⊎ (status ≡ 304)

is_bodyless-HasNoBody : (m : Bytes) (status : ℕ) → HasNoBody m status → is_bodyless m status ≡ true
unfolding is_bodyless
is_bodyless-HasNoBody m status (inl e) = rw e refl
is_bodyless-HasNoBody m status (inr (inl (low, high))) = ground arith
is_bodyless-HasNoBody m status (inr (inr (inl e))) = ground arith
is_bodyless-HasNoBody m status (inr (inr (inr e))) = ground arith

response_body-HasNoBody :
    (m : Bytes) (status : ℕ) (s : Scan) → HasNoBody m status → response_body m status s ≡ empty
unfolding response_body
response_body-HasNoBody m status s h = rw (is_bodyless-HasNoBody m status h) refl

request_body-ne-until_close : (s : Scan) → request_body s ≢ until_close
request_body-ne-until_close s = elim (Bool-cases s.is_chunked) [
  | inl e ↦ rw e (λ k. cc)
  | inr e ↦ rw e (sized s.content_length)
]
  where
    sized :
        (o : Option ℕ)
        → (elim o as (λ _. BodyLength) [
          | none ↦ empty
          | some n ↦ if n == 0 then empty else fixed n
        ])
          ≢ until_close
    sized none k = cc
    sized (some n) k = elim (Bool-cases (n == 0)) [ inl e ↦ cc | inr e ↦ cc ]

module _ (p : Platform) (buf : Bytes) where
  -- A request: its head lies in the buffer, its body has a length, and its target stands where the
  -- span says.
  abbrev pub IsRequest : RequestHead → Type 0
  IsRequest head =
      (head.head_len ≤ length buf)
      × IsSound head.body
      × (head.body ≢ until_close)
      × (head.target_span.1 ≡ head.target_span.0 + length head.target)
      × ((rest : Bytes) × (buf ≡ take head.target_span.0 buf ++ (head.target ++ rest)))

  abbrev ParsedRequest : Parsed RequestHead → Type 0
  ParsedRequest (complete head) = IsRequest head
  ParsedRequest partial = Unit
  ParsedRequest invalid = Unit

  scanned-IsRequest :
      (req : RawRequest) (n : ℕ) (method target : Bytes) (start : ℕ)
      → n ≤ length buf
      → (rest : Bytes) × (buf ≡ take start buf ++ (target ++ rest))
      → ParsedRequest (finish_request p req n method target start)
  unfolding finish_request
  scanned-IsRequest req n method target start bound place =
      elim (Option-cases (scan_request p (fresh_scan req.version) req.headers)) [
        | inl e ↦ rw (e, ParsedRequest, finish_request) tt
        | inr (s, e) ↦
            let fits : Fits s.content_length =
              rw (e, ParsedRequest, finish_request) at
                (scan_request-ScanFits p (fresh_scan req.version) req.headers tt) in
            rw (e, ParsedRequest, finish_request)
              (bound, request_body-IsSound s fits, request_body-ne-until_close s, refl, place)
      ]

  read_request-IsRequest :
      (req : RawRequest) (n : ℕ) → n ≤ length buf → ParsedRequest (read_request p buf n req)
  unfolding read_request
  read_request-IsRequest req n bound = elim (Option-cases req.method) [
    | inl e ↦ rw e tt
    | inr (method, e) ↦ elim (Option-cases req.path) [
      | inl f ↦ rw (e, f) tt
      | inr (target, f) ↦ elim (Option-cases (p.memmem buf target)) [
        | inl g ↦ rw (e, f, g) tt
        | inr (start, g) ↦
            rw (e, f, g)
              (scanned-IsRequest req n method target start bound
                (append_of_find_sub buf target start (sym (p.memmem_lem buf target) ∙ g)))
      ]
    ]
  ]

  parsed-IsRequest : ParsedRequest (parse_request p buf)
  unfolding parse_request
  parsed-IsRequest = elim (Status-cases (p.request_parser max_headers buf)) [
    | inl (n, req, e) ↦
        rw (e, ParsedRequest, parse_request)
          (read_request-IsRequest req n (p.request_parser_lem max_headers buf n req e))
    | inr (inl e) ↦ rw (e, ParsedRequest, parse_request) tt
    | inr (inr e) ↦ rw (e, ParsedRequest, parse_request) tt
  ]

  -- A request head that is parsed lies in the buffer; its body never runs until the connection closes, and
  -- a length is positive and fits in 64 bits; its target stands in the buffer at the span.
  pub parse_request-IsRequest :
      (head : RequestHead) → parse_request p buf ≡ complete head → IsRequest head
  parse_request-IsRequest head h = rw h at parsed-IsRequest

  -- A response to a request with this method.
  abbrev pub IsResponse : (request_method : Bytes) → ResponseHead → Type 0
  IsResponse m head =
      (head.head_len ≤ length buf)
      × IsSound head.body
      × (HasNoBody m head.status → head.body ≡ empty)

  abbrev ParsedResponse : (request_method : Bytes) → Parsed ResponseHead → Type 0
  ParsedResponse m (complete head) = IsResponse m head
  ParsedResponse m partial = Unit
  ParsedResponse m invalid = Unit

  read_response-IsResponse :
      (m : Bytes) (resp : RawResponse) (n : ℕ)
      → n ≤ length buf
      → ParsedResponse m (read_response p m n resp)
  unfolding read_response
  read_response-IsResponse m resp n bound = elim (Option-cases resp.code) [
    | inl e ↦ rw e tt
    | inr (status, e) ↦
        let s = scan_response p (fresh_scan resp.version) resp.headers in
        rw e (
          bound,
          response_body-IsSound m status s
              (scan_response-Fits p (fresh_scan resp.version) resp.headers tt),
          response_body-HasNoBody m status s,
        )
  ]

  parsed-IsResponse : (m : Bytes) → ParsedResponse m (parse_response p buf m)
  unfolding parse_response
  parsed-IsResponse m = elim (Status-cases (p.response_parser max_headers buf)) [
    | inl (n, resp, e) ↦
        rw (e, ParsedResponse, parse_response)
          (read_response-IsResponse m resp n (p.response_parser_lem max_headers buf n resp e))
    | inr (inl e) ↦ rw (e, ParsedResponse, parse_response) tt
    | inr (inr e) ↦ rw (e, ParsedResponse, parse_response) tt
  ]

  -- A response head that is parsed lies in the buffer; a length is positive and fits in 64 bits; and the
  -- response to `HEAD`, or with the status 1xx, 204 or 304, has no body, whatever its headers say.
  pub parse_response-IsResponse :
      (m : Bytes) (head : ResponseHead) → parse_response p buf m ≡ complete head → IsResponse m head
  parse_response-IsResponse m head h = rw h at (parsed-IsResponse m)
