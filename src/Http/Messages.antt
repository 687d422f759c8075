-- ===== src/Http/Messages.antt =====
-- More of the third-party crate `http`, as a parameter with its documented behaviour: URIs, protocol
-- versions, and the parts of a header map that are no lookups.
use tuletorn.Common.{ℕ, ◌≡◌, not, Option, some, List, [], any, All, ◌<|>◌, ◌>>=◌}
use tuletorn.Common.Bytes.{Bytes, codes, is_empty}
use tuletorn.Http.{Http, IsVisible, first_value}

pub record Messages (x : Http) : Type 1 where
  pub Uri : Type 0
  pub Authority : Type 0
  pub PathAndQuery : Type 0
  pub Version : Type 0
  -- `Uri::host`, `Uri::path`, `Uri::query`, `Uri::path_and_query`
  pub host : Uri → Option Bytes
  pub path : Uri → Bytes
  pub query : Uri → Option Bytes
  pub path_and_query : Uri → Option PathAndQuery
  pub authority : Uri → Option Authority
  -- `Uri::from_parts(..).ok()` for the scheme HTTP, an authority and a path
  pub from_parts : Authority → PathAndQuery → Option Uri
  -- `text.parse::<Uri>().ok()`, `Authority::try_from(text).ok()`, `PathAndQuery::try_from(text).ok()`
  pub parse_uri : Bytes → Option Uri
  pub parse_authority : Bytes → Option Authority
  pub parse_path : Bytes → Option PathAndQuery
  -- `Authority::as_str`, `PathAndQuery::from_static`
  pub authority_text : Authority → Bytes
  pub static_path : Bytes → PathAndQuery
  -- `Version::HTTP_11`, `Version::HTTP_2`
  pub http_11 : Version
  pub http_2 : Version
  -- `HeaderMap::default()`, `HeaderMap::keys`
  pub new_map : x.HeaderMap
  pub keys : x.HeaderMap → List x.HeaderName
  -- The three parts that a full URI needs make a URI, which has them.
  pub from_parts_lem :
      (a : Authority) (p : PathAndQuery)
      → (u : Uri) × (from_parts a p ≡ some u) × (authority u ≡ some a) × (path_and_query u ≡ some p)
  -- `HeaderValue::from_static` is `from_str` on visible ASCII.
  pub from_static_lem :
      (s : Bytes) → All IsVisible s → x.value_from_str s ≡ some (x.value_from_static s)
  pub get_all-new_map : (n : x.HeaderName) → x.get_all new_map n ≡ []
  -- The keys are the names that have a value.
  pub keys_lem :
      (h : x.HeaderMap) (n : x.HeaderName)
      → any (λ k. x.name_eq k n) (keys h) ≡ not (is_empty (x.get_all h n))

-- A request or a response behind its first line.
module _ (x : Http) (u : Messages x) where
  pub record Parts : Type 0 where
    pub method : Bytes
    pub uri : u.Uri
    pub version : u.Version
    pub headers : x.HeaderMap

  pub record Response (B : Type 0) : Type 0 where
    pub status : ℕ
    pub headers : x.HeaderMap
    pub body : B

  -- `http::header::HOST`, `CONTENT_LENGTH`, `CONTENT_TYPE`
  abbrev pub host_name : x.HeaderName
  host_name = x.name_from_static (codes "host")

  abbrev pub content_length : x.HeaderName
  content_length = x.name_from_static (codes "content-length")

  abbrev pub content_type : x.HeaderName
  content_type = x.name_from_static (codes "content-type")

  -- `uri.host().or_else(|| headers.get(HOST).and_then(|h| h.to_str().ok()))`
  abbrev pub host_of : u.Uri → x.HeaderMap → Option Bytes
  host_of uri headers =
      u.host uri <|> (first_value (x.get_all headers host_name) >>= λ v. x.to_str v)
