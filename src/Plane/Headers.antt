-- ===== src/Plane/Headers.antt =====
-- What the planes' header pipelines do to the values of one header name.
use tuletorn.Common.{
  ◌≡◌, refl, ap, ◌∙◌, inl, inr, Bool, true, false, none, some, List, [], ◌∷◌, ◌++◌, if◌then◌else◌,
  ◌>>=◌, Option-cases,
}
use tuletorn.Common.Bytes.{Bytes, codes}
use tuletorn.Filter.{
  Compiled, RouteFilters, apply, apply_all, apply_request_headers, apply_response_headers,
}
use tuletorn.Http.{Http, first_value}
use tuletorn.Plane.{request_headers, response_headers}
use tuletorn.Proxy.{
  forwarded_for, forwarded_proto, strip_hop_by_hop, append_forwarded_for, set_forwarded_proto,
}
use tuletorn.Proxy.Hop.{is_hop_by_hop, get_all-strip_hop_by_hop}

module _ (x : Http) (n : x.HeaderName) where
  -- What a compiled modifier does to the values of the name.
  abbrev pub acts : Compiled x → List x.HeaderValue → List x.HeaderValue
  acts (Compiled.set k v) vs = if x.name_eq k n then v ∷ [] else vs
  acts (Compiled.add k v) vs = if x.name_eq k n then vs ++ v ∷ [] else vs
  acts (Compiled.remove k) vs = if x.name_eq k n then [] else vs

  abbrev pub acts_all : List (Compiled x) → List x.HeaderValue → List x.HeaderValue
  acts_all [] vs = vs
  acts_all (c ∷ cs) vs = acts_all cs (acts c vs)

  get_all-apply :
      (c : Compiled x) (h : x.HeaderMap) → x.get_all (apply x c h) n ≡ acts c (x.get_all h n)
  unfolding apply
  get_all-apply (Compiled.set k v) h = x.get_all-insert h k v n
  get_all-apply (Compiled.add k v) h = x.get_all-append h k v n
  get_all-apply (Compiled.remove k) h = x.get_all-remove h k n

  get_all-apply_all :
      (cs : List (Compiled x)) (h : x.HeaderMap)
      → x.get_all (apply_all x cs h) n ≡ acts_all cs (x.get_all h n)
  unfolding apply_all
  get_all-apply_all [] h = refl
  get_all-apply_all (c ∷ cs) h =
      get_all-apply_all cs (apply x c h) ∙ ap (acts_all cs) (get_all-apply c h)

  abbrev pub request_acts : RouteFilters x → List x.HeaderValue → List x.HeaderValue
  request_acts filters vs = elim filters.inner [
    | none ↦ vs
    | some p ↦ acts_all p.request_headers vs
  ]

  abbrev pub response_acts : RouteFilters x → List x.HeaderValue → List x.HeaderValue
  response_acts filters vs = elim filters.inner [
    | none ↦ vs
    | some p ↦ acts_all p.response_headers vs
  ]

  pub get_all-apply_request :
      (f : RouteFilters x) (h : x.HeaderMap)
      → x.get_all (apply_request_headers x f h) n ≡ request_acts f (x.get_all h n)
  unfolding apply_request_headers
  get_all-apply_request f h = elim (Option-cases f.inner) [
    | inl e ↦ rw (e, request_acts) refl
    | inr (p, e) ↦ rw (e, request_acts) (get_all-apply_all p.request_headers h)
  ]

  pub get_all-apply_response :
      (f : RouteFilters x) (h : x.HeaderMap)
      → x.get_all (apply_response_headers x f h) n ≡ response_acts f (x.get_all h n)
  unfolding apply_response_headers
  get_all-apply_response f h = elim (Option-cases f.inner) [
    | inl e ↦ rw (e, response_acts) refl
    | inr (p, e) ↦ rw (e, response_acts) (get_all-apply_all p.response_headers h)
  ]

  -- The values behind the hop-by-hop headers' removal.
  abbrev pub kept_values : x.HeaderMap → List x.HeaderValue
  kept_values h = if is_hop_by_hop x h n then [] else x.get_all h n

-- The peer, behind the chain of the values that are kept.
abbrev pub chain_of : (x : Http) → List x.HeaderValue → (peer : Bytes) → Bytes
chain_of x vs peer =
    (elim (first_value vs >>= λ v. x.to_str v) [
      | none ↦ []
      | some existing ↦ existing ++ codes ", "
    ])
    ++ peer

module _ (x : Http) (n : x.HeaderName) where
  -- The values behind `append_forwarded_for`, of the chain's values and of those of the name.
  abbrev pub chained : (chain own : List x.HeaderValue) → (peer : Bytes) → List x.HeaderValue
  chained chain own peer = elim (x.value_from_str (chain_of x chain peer)) [
    | none ↦ own
    | some v ↦ if x.name_eq (forwarded_for x) n then v ∷ [] else own
  ]

  -- The values behind the forwarding headers.
  abbrev pub forwarded_values : (forwarded : Bool) (peer : Bytes) → x.HeaderMap → List x.HeaderValue
  forwarded_values forwarded peer h =
      if forwarded
      then (if x.name_eq (forwarded_proto x) n
          then x.value_from_static (codes "http") ∷ []
          else chained (kept_values x (forwarded_for x) h) (kept_values x n h) peer)
      else kept_values x n h

  chained_lem :
      (h : x.HeaderMap) (peer : Bytes)
      → x.get_all (append_forwarded_for x h peer) n
        ≡ chained (x.get_all h (forwarded_for x)) (x.get_all h n) peer
  unfolding append_forwarded_for
  chained_lem h peer =
      elim (Option-cases (x.value_from_str (chain_of x (x.get_all h (forwarded_for x)) peer))) [
        | inl e ↦ rw (e, append_forwarded_for, chained) refl
        | inr (v, e) ↦
            rw (e, append_forwarded_for, chained) (x.get_all-insert h (forwarded_for x) v n)
      ]

module _ (x : Http) where
  kept_lem :
      (n : x.HeaderName) (h : x.HeaderMap) → x.get_all (strip_hop_by_hop x h) n ≡ kept_values x n h
  kept_lem n h = (get_all-strip_hop_by_hop x h n).0

  pub request_headers_lem :
      (n : x.HeaderName) (forwarded : Bool) (peer : Bytes) (filters : RouteFilters x)
      (h : x.HeaderMap)
      → x.get_all (request_headers x forwarded peer filters h) n
        ≡ request_acts x n filters (forwarded_values x n forwarded peer h)
  unfolding request_headers set_forwarded_proto
  request_headers_lem n true peer filters h =
      let k = strip_hop_by_hop x h in
      get_all-apply_request x n filters _
      ∙ ap (request_acts x n filters) (
          x.get_all-insert (append_forwarded_for x k peer) (forwarded_proto x)
            (x.value_from_static (codes "http")) n
          ∙ rw (chained_lem x n k peer, kept_lem n h, kept_lem (forwarded_for x) h) refl)
  request_headers_lem n false peer filters h =
      get_all-apply_request x n filters (strip_hop_by_hop x h)
      ∙ ap (request_acts x n filters) (kept_lem n h)

  pub response_headers_lem :
      (n : x.HeaderName) (filters : RouteFilters x) (h : x.HeaderMap)
      → x.get_all (response_headers x filters h) n ≡ response_acts x n filters (kept_values x n h)
  unfolding response_headers
  response_headers_lem n filters h =
      get_all-apply_response x n filters (strip_hop_by_hop x h)
      ∙ ap (response_acts x n filters) (kept_lem n h)
