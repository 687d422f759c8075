-- ===== src/Filter/Headers.antt =====
-- A pipeline acts on the values of each header name by itself.
use tuletorn.Common.{
  ◌≡◌, refl, ap, ◌∙◌, inl, inr, true, ◌&&◌, not, Option, none, some, List, [], ◌∷◌, ◌++◌,
  if◌then◌else◌, is_some, Bool-cases, Option-cases, arith,
}
use tuletorn.Common.Bytes.{is_empty}
use tuletorn.Http.{Http}
use tuletorn.Filter.{
  HeaderModifier, UrlRewrite, Compiled, parse, compile, apply, compile_all, new, apply_all,
  apply_request_headers, apply_response_headers,
}

module _ (x : Http) (m : x.HeaderName) where
  -- What one modifier does to the values of the name `m`; an invalid one does nothing.
  pub effect : HeaderModifier → List x.HeaderValue → List x.HeaderValue
  effect (HeaderModifier.set name value) vs = elim (parse x name value) [
    | none ↦ vs
    | some (n, v) ↦ if x.name_eq n m then v ∷ [] else vs
  ]
  effect (HeaderModifier.add name value) vs = elim (parse x name value) [
    | none ↦ vs
    | some (n, v) ↦ if x.name_eq n m then vs ++ v ∷ [] else vs
  ]
  effect (HeaderModifier.remove name) vs = elim (x.name_from_bytes name) [
    | none ↦ vs
    | some n ↦ if x.name_eq n m then [] else vs
  ]

  pub effects : List HeaderModifier → List x.HeaderValue → List x.HeaderValue
  effects [] vs = vs
  effects (f ∷ fs) vs = effects fs (effect f vs)

module _ (x : Http) (m : x.HeaderName) where
  abbrev step : Option (Compiled x) → x.HeaderMap → x.HeaderMap
  step none h = h
  step (some c) h = apply x c h

  get_all-step :
      (f : HeaderModifier) (h : x.HeaderMap)
      → x.get_all (step (compile x f) h) m ≡ effect x m f (x.get_all h m)
  unfolding compile apply effect
  get_all-step (HeaderModifier.set name value) h = elim (Option-cases (parse x name value)) [
    | inl e ↦ rw (e, effect)
    | inr ((n, v), e) ↦ rw (e, effect) (x.get_all-insert h n v m)
  ]
  get_all-step (HeaderModifier.add name value) h = elim (Option-cases (parse x name value)) [
    | inl e ↦ rw (e, effect)
    | inr ((n, v), e) ↦ rw (e, effect) (x.get_all-append h n v m)
  ]
  get_all-step (HeaderModifier.remove name) h = elim (Option-cases (x.name_from_bytes name)) [
    | inl e ↦ rw (e, effect)
    | inr (n, e) ↦ rw (e, effect) (x.get_all-remove h n m)
  ]

  get_all-apply_all :
      (fs : List HeaderModifier) (h : x.HeaderMap)
      → x.get_all (apply_all x (compile_all x fs) h) m ≡ effects x m fs (x.get_all h m)
  unfolding compile_all apply_all effects
  get_all-apply_all [] h = refl
  get_all-apply_all (f ∷ fs) h = elim (Option-cases (compile x f)) [
    | inl e ↦
        rw (e, apply_all)
          (get_all-apply_all fs h ∙ ap (effects x m fs) (rw e at (get_all-step f h)))
    | inr (c, e) ↦
        rw (e, apply_all)
          (get_all-apply_all fs (apply x c h) ∙ ap (effects x m fs) (rw e at (get_all-step f h)))
  ]

  -- A pipeline that `new` drops as empty has no effect to lose.
  dropped :
      (fs : List HeaderModifier) (h : x.HeaderMap)
      → is_empty (compile_all x fs) ≡ true
      → x.get_all h m ≡ effects x m fs (x.get_all h m)
  unfolding apply_all
  dropped fs h e = nothing (compile_all x fs) e (get_all-apply_all fs h)
    where
      nothing :
          (cs : List (Compiled x))
          → is_empty cs ≡ true
          → x.get_all (apply_all x cs h) m ≡ effects x m fs (x.get_all h m)
          → x.get_all h m ≡ effects x m fs (x.get_all h m)
      nothing [] e' k = k
      nothing (c ∷ cs) e' k = cc

-- The compiled pipelines do to each header name exactly what the modifiers of their own list do to
-- its values, one after the other, where invalid modifiers are skipped; requests and responses have
-- separate lists.
pub get_all-apply_headers :
    (x : Http) (req resp : List HeaderModifier) (rw_rule : Option UrlRewrite) (h : x.HeaderMap)
    (m : x.HeaderName)
    → (x.get_all (apply_request_headers x (new x req resp rw_rule) h) m
        ≡ effects x m req (x.get_all h m))
      × (x.get_all (apply_response_headers x (new x req resp rw_rule) h) m
          ≡ effects x m resp (x.get_all h m))
unfolding apply_request_headers apply_response_headers new
get_all-apply_headers x req resp rw_rule h m =
    elim (Bool-cases
      (is_empty (compile_all x req) && is_empty (compile_all x resp) && not (is_some rw_rule))) [
        | inl noop ↦ rw noop (dropped x m req h (ground arith), dropped x m resp h (ground arith))
        | inr real ↦ rw real (get_all-apply_all x m req h, get_all-apply_all x m resp h)
      ]
