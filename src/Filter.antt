-- ===== src/Filter.antt =====
-- crates/core/src/filter.rs: header modifiers, compiled once, and URL rewrites. A compiled pipeline
-- sits behind an `Arc` and is never written, so clones are the same value; a `Cow` is the text it
-- holds. The header types of the crate `http` are the parameter `Http`.
pub mod Headers
pub mod Rewrite
mod Tests
use tuletorn.Common.{
  ℕ, Bool, true, false, ◌&&◌, not, Option, none, some, List, [], ◌∷◌, ◌++◌, if◌then◌else◌, ◌>>=◌,
  is_some, filter_map,
}
use tuletorn.Common.Bytes.{Bytes, is_empty, strip_prefix, starts_with, trim_end_matches}
use tuletorn.Http.{Http}

pub data HeaderModifier : Type 0 where
  set : (name value : Bytes) → HeaderModifier
  add : (name value : Bytes) → HeaderModifier
  remove : (name : Bytes) → HeaderModifier

pub data UrlRewrite : Type 0 where
  prefix : (prefix replacement : Bytes) → UrlRewrite
  exact : Bytes → UrlRewrite

module _ (x : Http) where
  open x use {HeaderName, HeaderValue, HeaderMap}

  pub data Compiled : Type 0 where
    set : HeaderName → HeaderValue → Compiled
    add : HeaderName → HeaderValue → Compiled
    remove : HeaderName → Compiled

  abbrev parse : Bytes → Bytes → Option (HeaderName × HeaderValue)
  parse name value = x.name_from_bytes name >>= λ n. x.value_from_str value >>= λ v. some (n, v)

  pub compile : HeaderModifier → Option Compiled
  compile (HeaderModifier.set name value) = parse name value >>= λ p. some (Compiled.set p.0 p.1)
  compile (HeaderModifier.add name value) = parse name value >>= λ p. some (Compiled.add p.0 p.1)
  compile (HeaderModifier.remove name) = x.name_from_bytes name >>= λ n. some (Compiled.remove n)

  unfoldable pub apply : Compiled → HeaderMap → HeaderMap
  apply (Compiled.set n v) headers = x.insert headers n v
  apply (Compiled.add n v) headers = x.append headers n v
  apply (Compiled.remove n) headers = x.remove headers n

  pub record Pipeline : Type 0 where
    pub request_headers : List Compiled
    pub response_headers : List Compiled
    pub url_rewrite : Option UrlRewrite

  pub record RouteFilters : Type 0 where
    pub inner : Option Pipeline

  pub compile_all : List HeaderModifier → List Compiled
  unfolding compile
  compile_all mods = filter_map compile mods

  unfoldable pub new : List HeaderModifier → List HeaderModifier → Option UrlRewrite → RouteFilters
  unfolding compile_all
  new request_headers response_headers url_rewrite =
      let request = compile_all request_headers in
      let response = compile_all response_headers in
      if is_empty request && is_empty response && not (is_some url_rewrite)
      then record { inner = none }
      else record {
        inner = some (record {
          request_headers = request;
          response_headers = response;
          url_rewrite = url_rewrite;
        });
      }

  unfoldable pub is_noop : RouteFilters → Bool
  is_noop f = not (is_some f.inner)

  unfoldable pub rewrites_path : RouteFilters → Bool
  rewrites_path f = elim f.inner [ none ↦ false | some p ↦ is_some p.url_rewrite ]

  -- `for m in mods { m.apply(headers) }`
  unfoldable pub apply_all : List Compiled → HeaderMap → HeaderMap
  apply_all [] headers = headers
  apply_all (m ∷ mods) headers = apply_all mods (apply m headers)

  unfoldable pub apply_request_headers : RouteFilters → HeaderMap → HeaderMap
  unfolding apply_all apply
  apply_request_headers f headers = elim f.inner [
    | none ↦ headers
    | some p ↦ apply_all p.request_headers headers
  ]

  unfoldable pub apply_response_headers : RouteFilters → HeaderMap → HeaderMap
  unfolding apply_all apply
  apply_response_headers f headers = elim f.inner [
    | none ↦ headers
    | some p ↦ apply_all p.response_headers headers
  ]

-- What a prefix rewrite builds from the replacement and the rest of the path.
pub rewrite_prefix : (replacement rest : Bytes) → Bytes
rewrite_prefix replacement rest =
    let out = trim_end_matches b'/' replacement in
    let out =
      if is_empty rest
      then (if is_empty out then b'/' ∷ [] else out)
      else (if starts_with (b'/' ∷ []) rest then out ++ rest else out ++ b'/' ∷ rest) in
    if is_empty out then b'/' ∷ [] else out

pub rewrite : UrlRewrite → Bytes → Bytes
unfolding rewrite_prefix
rewrite (exact text) path = text
rewrite (prefix pre replacement) path = elim (strip_prefix pre path) [
  | none ↦ path
  | some rest ↦ rewrite_prefix replacement rest
]

module _ (x : Http) where
  unfoldable pub apply_url_rewrite : RouteFilters x → Bytes → Bytes
  unfolding rewrite
  apply_url_rewrite f path = elim (f.inner >>= λ p. p.url_rewrite) [
    | none ↦ path
    | some r ↦ rewrite r path
  ]
