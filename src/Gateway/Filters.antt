-- ===== src/Gateway/Filters.antt =====
-- crates/core/src/gateway.rs, `compile_filters`: the filters of a rule as a pipeline.
use tuletorn.Common.{
  ◌≡◌, refl, ap, sym, ◌∙◌, inl, inr, true, false, Option, none, some, List, [], ◌∷◌, ◌++◌, map,
  if◌then◌else◌, ◌>>=◌, flat_map, append_assoc, append-nil, Bool-cases,
}
use mathlib.Core.Option
use tuletorn.Common.Bytes.{Bytes, codes, bytes_eq, bytes_eq_iff, trim_end_matches}
use tuletorn.Filter.{
  HeaderModifier, UrlRewrite, RouteFilters, apply_request_headers, apply_response_headers,
}
use tuletorn.Filter.Headers.{effects, get_all-apply_headers}
use tuletorn.Filter
use tuletorn.Gateway.{HeaderFilter, UrlRewritePath, HttpRouteFilter}
use tuletorn.Http.{Http}

unfoldable pub to_modifiers : HeaderFilter → List HeaderModifier
to_modifiers h =
    map (λ nv. HeaderModifier.set nv.name nv.value) h.set
    ++ (map (λ nv. HeaderModifier.add nv.name nv.value) h.add
        ++ map (λ n. HeaderModifier.remove n) h.remove)

-- `if let Some(h) = &f.request_header_modifier`
abbrev pub extended : List HeaderModifier → Option HeaderFilter → List HeaderModifier
unfolding to_modifiers
extended out none = out
extended out (some h) = out ++ to_modifiers h

unfoldable pub rewrite_of : UrlRewritePath → (matched_prefix : Bytes) → Option UrlRewrite
unfolding bytes_eq trim_end_matches
rewrite_of path matched_prefix =
    if bytes_eq path.path_type (codes "ReplacePrefixMatch")
    then Option.map (λ r. UrlRewrite.prefix (trim_end_matches b'/' matched_prefix) r)
        path.replace_prefix_match
    else (if bytes_eq path.path_type (codes "ReplaceFullPath")
        then Option.map (λ r. UrlRewrite.exact r) path.replace_full_path
        else none)

-- The three locals of the loop.
pub record Collected : Type 0 where
  pub request : List HeaderModifier
  pub response : List HeaderModifier
  pub rewrite : Option UrlRewrite

-- The body of the loop over the filters.
unfoldable pub collect : Bytes → Collected → HttpRouteFilter → Collected
unfolding extended rewrite_of bytes_eq
collect matched_prefix c f =
    if bytes_eq f.filter_type (codes "RequestHeaderModifier")
    then record {
      request = extended c.request f.request_header_modifier;
      response = c.response;
      rewrite = c.rewrite;
    }
    else (if bytes_eq f.filter_type (codes "ResponseHeaderModifier")
        then record {
          request = c.request;
          response = extended c.response f.response_header_modifier;
          rewrite = c.rewrite;
        }
        else (if bytes_eq f.filter_type (codes "URLRewrite")
            then record {
              request = c.request;
              response = c.response;
              rewrite = elim (f.url_rewrite >>= λ u. u.path) [
                | none ↦ c.rewrite
                | some path ↦ rewrite_of path matched_prefix
              ];
            }
            else c))

unfoldable pub collect_all : Bytes → Collected → List HttpRouteFilter → Collected
unfolding collect
collect_all matched_prefix c [] = c
collect_all matched_prefix c (f ∷ fs) = collect_all matched_prefix (collect matched_prefix c f) fs

unfoldable pub compile_filters :
    (x : Http) → List HttpRouteFilter → (matched_prefix : Bytes) → RouteFilters x
unfolding collect_all
compile_filters x filters matched_prefix =
    let c =
      collect_all matched_prefix (record { request = []; response = []; rewrite = none }) filters in
    Filter.new x c.request c.response c.rewrite

-- What one filter adds to the modifiers of its type.
abbrev pub modifiers_of : Option HeaderFilter → List HeaderModifier
modifiers_of none = []
modifiers_of (some h) = to_modifiers h

pub request_modifiers : HttpRouteFilter → List HeaderModifier
unfolding bytes_eq
request_modifiers f =
    if bytes_eq f.filter_type (codes "RequestHeaderModifier")
    then modifiers_of f.request_header_modifier
    else []

pub response_modifiers : HttpRouteFilter → List HeaderModifier
unfolding bytes_eq
response_modifiers f =
    if bytes_eq f.filter_type (codes "ResponseHeaderModifier")
    then modifiers_of f.response_header_modifier
    else []

extended_lem :
    (out : List HeaderModifier) (h : Option HeaderFilter) → extended out h ≡ out ++ modifiers_of h
unfolding extended
extended_lem out none = sym (append-nil out)
extended_lem out (some h) = refl

-- The names of the two header filters differ.
apart :
    (t : Bytes)
    → bytes_eq t (codes "RequestHeaderModifier") ≡ true
    → bytes_eq t (codes "ResponseHeaderModifier") ≡ false
unfolding bytes_eq
apart t h = rw ((bytes_eq_iff t (codes "RequestHeaderModifier")).0 h) refl

collect_lem :
    (p : Bytes) (c : Collected) (f : HttpRouteFilter)
    → ((collect p c f).request ≡ c.request ++ request_modifiers f)
      × ((collect p c f).response ≡ c.response ++ response_modifiers f)
unfolding collect request_modifiers response_modifiers
collect_lem p c f = elim (Bool-cases (bytes_eq f.filter_type (codes "RequestHeaderModifier"))) [
  | inl e ↦
      rw (e, apart f.filter_type e)
        (extended_lem c.request f.request_header_modifier, sym (append-nil c.response))
  | inr e ↦ elim (Bool-cases (bytes_eq f.filter_type (codes "ResponseHeaderModifier"))) [
    | inl g ↦
        rw (e, g) (sym (append-nil c.request), extended_lem c.response f.response_header_modifier)
    | inr g ↦ elim (Bool-cases (bytes_eq f.filter_type (codes "URLRewrite"))) [
      | inl k ↦ rw (e, g, k) (sym (append-nil c.request), sym (append-nil c.response))
      | inr k ↦ rw (e, g, k) (sym (append-nil c.request), sym (append-nil c.response))
    ]
  ]
]

collect_all_lem :
    (p : Bytes) (c : Collected) (fs : List HttpRouteFilter)
    → ((collect_all p c fs).request ≡ c.request ++ flat_map request_modifiers fs)
      × ((collect_all p c fs).response ≡ c.response ++ flat_map response_modifiers fs)
unfolding collect_all
collect_all_lem p c [] = (sym (append-nil c.request), sym (append-nil c.response))
collect_all_lem p c (f ∷ fs) =
    let (request, response) = collect_lem p c f in
    let (requests, responses) = collect_all_lem p (collect p c f) fs in
    (
      requests
          ∙ ap (λ q. q ++ flat_map request_modifiers fs) request
          ∙ append_assoc c.request (request_modifiers f) (flat_map request_modifiers fs),
      responses
          ∙ ap (λ q. q ++ flat_map response_modifiers fs) response
          ∙ append_assoc c.response (response_modifiers f) (flat_map response_modifiers fs),
    )

-- On the wire, a rule's filters do to the values of each header name what the modifiers of its
-- RequestHeaderModifier filters, and of its ResponseHeaderModifier filters, say one after the other,
-- in the order of the filters; filters of other types change no header.
pub compile_filters-effects :
    (x : Http) (fs : List HttpRouteFilter) (p : Bytes) (h : x.HeaderMap) (m : x.HeaderName)
    → (x.get_all (apply_request_headers x (compile_filters x fs p) h) m
        ≡ effects x m (flat_map request_modifiers fs) (x.get_all h m))
      × (x.get_all (apply_response_headers x (compile_filters x fs p) h) m
          ≡ effects x m (flat_map response_modifiers fs) (x.get_all h m))
unfolding compile_filters
compile_filters-effects x fs p h m =
    let start : Collected = record { request = []; response = []; rewrite = none } in
    let (request, response) = collect_all_lem p start fs in
    let c : Collected = collect_all p start fs in
    let (on_request, on_response) = get_all-apply_headers x c.request c.response c.rewrite h m in
    (
      on_request ∙ ap (λ ms. effects x m ms (x.get_all h m)) request,
      on_response ∙ ap (λ ms. effects x m ms (x.get_all h m)) response,
    )
