-- ===== src/Proxy/Hop.antt =====
-- What is left of a request's headers after `strip_hop_by_hop`.
use tuletorn.Common.{
  ◌≡◌, refl, Bool, ◌||◌, List, [], ◌∷◌, ◌++◌, if◌then◌else◌, any, map, map-append, filter-append,
  filter_map-append, arith,
}
use tuletorn.Common.Bytes.{Bytes, split}
use tuletorn.Common.Bytes.Laws.{split-append}
use tuletorn.Common.Bytes.Text.{trim}
use tuletorn.Http.{Http}
use tuletorn.Proxy.{
  connection, hop_by_hop, nominates, nominated_from_value, connection_nominated, remove_all,
  strip_hop_by_hop,
}

module _ (x : Http) where
  get_all-remove_all :
      (ns : List x.HeaderName) (h : x.HeaderMap) (n : x.HeaderName)
      → x.get_all (remove_all x ns h) n
        ≡ (if any (λ m. x.name_eq m n) ns then [] else x.get_all h n)
  unfolding remove_all
  get_all-remove_all [] h n = refl
  get_all-remove_all (m ∷ ns) h n =
      ground (arith, get_all-remove_all ns (x.remove h m) n, x.get_all-remove h m n)

  -- `Connection`, a header of the fixed list, or one that the request's `Connection` headers name.
  abbrev pub is_hop_by_hop : x.HeaderMap → x.HeaderName → Bool
  is_hop_by_hop h n =
      any (λ m. x.name_eq m n) (connection_nominated x h)
      || any (λ m. x.name_eq m n) (hop_by_hop x)
      || x.name_eq (connection x) n

  strip_hop_by_hop_lem :
      (h : x.HeaderMap) (n : x.HeaderName)
      → x.get_all (strip_hop_by_hop x h) n ≡ (if is_hop_by_hop h n then [] else x.get_all h n)
  unfolding strip_hop_by_hop
  strip_hop_by_hop_lem h n = ground (
    arith,
    get_all-remove_all (connection_nominated x h)
        (remove_all x (hop_by_hop x) (x.remove h (connection x))) n,
    get_all-remove_all (hop_by_hop x) (x.remove h (connection x)) n,
    x.get_all-remove h (connection x) n,
  )

  connection_gone : (h : x.HeaderMap) → x.get_all (strip_hop_by_hop x h) (connection x) ≡ []
  connection_gone h = ground (
    arith,
    strip_hop_by_hop_lem h (connection x),
    (x.name_eq_iff (connection x) (connection x)).1 refl,
  )

  nothing_nominated : (h : x.HeaderMap) → connection_nominated x (strip_hop_by_hop x h) ≡ []
  unfolding connection_nominated
  nothing_nominated h = rw (connection_gone h)

-- Forwarded headers: `Connection`, the fixed hop-by-hop headers and those that a `Connection` value
-- names are gone, every other header keeps its values; stripping twice is stripping once.
pub get_all-strip_hop_by_hop :
    (x : Http) (h : x.HeaderMap) (n : x.HeaderName)
    → (x.get_all (strip_hop_by_hop x h) n ≡ (if is_hop_by_hop x h n then [] else x.get_all h n))
      × (x.get_all (strip_hop_by_hop x (strip_hop_by_hop x h)) n
          ≡ x.get_all (strip_hop_by_hop x h) n)
get_all-strip_hop_by_hop x h n = (strip_hop_by_hop_lem x h n, again)
  where
    again :
        x.get_all (strip_hop_by_hop x (strip_hop_by_hop x h)) n ≡ x.get_all (strip_hop_by_hop x h) n
    again = ground (
      arith,
      strip_hop_by_hop_lem x h n,
      strip_hop_by_hop_lem x (strip_hop_by_hop x h) n,
      nothing_nominated x h,
    )

-- A `Connection` value that joins two values with a comma nominates the headers of the first and
-- then those of the second.
pub nominated_from_value-append :
    (x : Http) (a b : Bytes)
    → nominated_from_value x (a ++ b',' ∷ b) ≡ nominated_from_value x a ++ nominated_from_value x b
unfolding nominated_from_value
nominated_from_value-append x a b =
    rw
      (
        split-append b',' a b,
        map-append trim (split b',' a) (split b',' b),
        filter-append nominates (map trim (split b',' a)) (map trim (split b',' b)),
      )
      (filter_map-append (λ token. x.name_from_bytes token) _ _)
