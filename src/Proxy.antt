-- ===== src/Proxy.antt =====
-- crates/core/src/proxy.rs: the headers that do not outlive a hop, and the forwarding headers. A
-- header map that the code changes in place is passed in and returned; an address is its text.
pub mod Hop
pub mod Forwarded
mod Tests
use tuletorn.Common.{
  ℕ, Bool, true, false, ◌&&◌, ◌||◌, not, Option, none, some, List, [], ◌∷◌, ◌++◌, if◌then◌else◌,
  ◌>>=◌, leb, ◌==◌, map, filter, filter_map, flat_map,
}
use tuletorn.Common.Bytes.{Bytes, codes, bytes_eq, is_empty, to_ascii_lowercase, split}
use tuletorn.Common.Bytes.Text.{trim}
use tuletorn.Http.{Http, first_value}

-- The tokens that are no header names: empty ones, `close` and `keep-alive`.
pub nominates : Bytes → Bool
unfolding bytes_eq to_ascii_lowercase
nominates token =
    not (is_empty token)
    && not (bytes_eq (to_ascii_lowercase token) (codes "close"))
    && not (bytes_eq (to_ascii_lowercase token) (codes "keep-alive"))

module _ (x : Http) where
  open x use {HeaderName, HeaderValue, HeaderMap}

  -- `http::header::CONNECTION`
  abbrev pub connection : HeaderName
  connection = x.name_from_static (codes "connection")

  abbrev pub forwarded_for : HeaderName
  forwarded_for = x.name_from_static (codes "x-forwarded-for")

  abbrev pub forwarded_proto : HeaderName
  forwarded_proto = x.name_from_static (codes "x-forwarded-proto")

  abbrev pub hop_by_hop : List HeaderName
  hop_by_hop =
      x.name_from_static (codes "keep-alive")
      ∷ x.name_from_static (codes "proxy-authenticate")
      ∷ x.name_from_static (codes "proxy-authorization")
      ∷ x.name_from_static (codes "proxy-connection")
      ∷ x.name_from_static (codes "te")
      ∷ x.name_from_static (codes "trailer")
      ∷ x.name_from_static (codes "upgrade")
      ∷ []

  unfoldable pub nominated_from_value : Bytes → List HeaderName
  unfolding nominates split trim
  nominated_from_value value =
      filter_map (λ token. x.name_from_bytes token) (filter nominates (map trim (split b',' value)))

  -- `let Ok(text) = value.to_str() else { continue }`
  unfoldable pub nominated_by : HeaderValue → List HeaderName
  unfolding nominated_from_value
  nominated_by value = elim (x.to_str value) [ none ↦ [] | some text ↦ nominated_from_value text ]

  unfoldable pub connection_nominated : HeaderMap → List HeaderName
  unfolding nominated_by
  connection_nominated headers = flat_map nominated_by (x.get_all headers connection)

  unfoldable pub remove_all : List HeaderName → HeaderMap → HeaderMap
  remove_all [] headers = headers
  remove_all (n ∷ ns) headers = remove_all ns (x.remove headers n)

  unfoldable pub strip_hop_by_hop : HeaderMap → HeaderMap
  unfolding connection_nominated remove_all
  strip_hop_by_hop headers =
      let nominated = connection_nominated headers in
      remove_all nominated (remove_all hop_by_hop (x.remove headers connection))

  -- The existing chain, if it can be read, with its separator.
  abbrev pub existing_chain : HeaderMap → Bytes
  existing_chain headers =
      elim (first_value (x.get_all headers forwarded_for) >>= λ v. x.to_str v) [
        | none ↦ []
        | some existing ↦ existing ++ codes ", "
      ]

  unfoldable pub append_forwarded_for : HeaderMap → (peer : Bytes) → HeaderMap
  append_forwarded_for headers peer = elim (x.value_from_str (existing_chain headers ++ peer)) [
    | none ↦ headers
    | some value ↦ x.insert headers forwarded_for value
  ]

  unfoldable pub set_forwarded_proto : HeaderMap → (proto : Bytes) → HeaderMap
  set_forwarded_proto headers proto = x.insert headers forwarded_proto (x.value_from_static proto)
