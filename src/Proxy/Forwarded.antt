-- ===== src/Proxy/Forwarded.antt =====
-- The chain of addresses in `X-Forwarded-For`.
use tuletorn.Common.{
  ◌≡◌, ◌≢◌, refl, ap, sym, subst, ◌∙◌, some, List, [], ◌∷◌, ◌++◌, flat_map, append_assoc,
  append-nil, All, All-append, arith,
}
use tuletorn.Common.Bytes.{Bytes, codes}
use tuletorn.Http.{Http, IsVisible}
use tuletorn.Proxy.{forwarded_for, existing_chain, append_forwarded_for}

module _ (x : Http) where
  -- One proxy after the other appends its peer.
  pub append_all : List Bytes → x.HeaderMap → x.HeaderMap
  unfolding append_forwarded_for
  append_all [] h = h
  append_all (peer ∷ peers) h = append_all peers (append_forwarded_for x h peer)

  -- The chain as its only value reads as `text`, and the other headers are those of `g`.
  abbrev pub IsChain : Bytes → x.HeaderMap → x.HeaderMap → Type 0
  IsChain text g h =
      ((v : x.HeaderValue) × (x.get_all h (forwarded_for x) ≡ v ∷ []) × (x.to_str v ≡ some text))
      × ((n : x.HeaderName) → n ≢ forwarded_for x → x.get_all h n ≡ x.get_all g n)

  append_forwarded_for_lem :
      (h : x.HeaderMap) (peer : Bytes)
      → All IsVisible (existing_chain x h ++ peer)
      → IsChain (existing_chain x h ++ peer) h (append_forwarded_for x h peer)
  unfolding append_forwarded_for
  append_forwarded_for_lem h peer visible =
      let (v, made, read) = x.to_str-value_from_str (existing_chain x h ++ peer) visible in
      rw (made, append_forwarded_for)
        (
          (
            v,
            ground (
              arith,
              x.get_all-insert h (forwarded_for x) v (forwarded_for x),
              (x.name_eq_iff (forwarded_for x) (forwarded_for x)).1 refl,
            ),
            read,
          ),
          λ n other. ground (
            arith,
            other,
            x.get_all-insert h (forwarded_for x) v n,
            x.name_eq_iff (forwarded_for x) n,
          ),
        )

  existing_chain_lem :
      (text : Bytes) (g h : x.HeaderMap)
      → IsChain text g h
      → existing_chain x h ≡ text ++ codes ", "
  existing_chain_lem text g h ((v, one, read), others) = rw (one, existing_chain) (rw read)

  -- Each further peer stands behind a comma and a space.
  abbrev pub further : List Bytes → Bytes
  further peers = flat_map (λ p. codes ", " ++ p) peers

  append_all_lem :
      (peers : List Bytes) (text : Bytes) (g h : x.HeaderMap)
      → All (All IsVisible) peers
      → All IsVisible text
      → IsChain text g h
      → IsChain (text ++ further peers) g (append_all peers h)
  unfolding append_all
  append_all_lem [] text g h all plain chain = rw (append-nil text) chain
  append_all_lem (peer ∷ peers) text g h (one, all) plain chain =
      let known : existing_chain x h ++ peer ≡ (text ++ codes ", ") ++ peer =
        ap (λ t. t ++ peer) (existing_chain_lem text g h chain) in
      let comma : All IsVisible (codes ", ") =
        ((omega arith, omega arith), ((omega arith, omega arith), tt)) in
      let visible : All IsVisible ((text ++ codes ", ") ++ peer) =
        All-append IsVisible (text ++ codes ", ") peer
          (All-append IsVisible text (codes ", ") plain comma) one in
      let (read, others) =
        append_forwarded_for_lem h peer (subst (All IsVisible) (sym known) visible) in
      let grown : IsChain ((text ++ codes ", ") ++ peer) g (append_forwarded_for x h peer) = (
        subst
            (λ t.
              (v : x.HeaderValue) × (x.get_all (append_forwarded_for x h peer) (forwarded_for x)
                ≡ v ∷ [])
              × (x.to_str v ≡ some t))
            known read,
        λ n other. others n other ∙ chain.1 n other,
      ) in
      subst (λ t. IsChain t g (append_all peers (append_forwarded_for x h peer)))
        (append_assoc (text ++ codes ", ") peer (further peers)
          ∙ append_assoc text (codes ", ") (peer ++ further peers))
        (append_all_lem peers ((text ++ codes ", ") ++ peer) g (append_forwarded_for x h peer) all
          visible grown)

-- On a request without the header, proxies that append visible addresses one after the other leave
-- one value, the addresses in order with a comma and a space between them, and no other header
-- changes.
pub append_all-IsChain :
    (x : Http) (h : x.HeaderMap) (peer : Bytes) (peers : List Bytes)
    → x.get_all h (forwarded_for x) ≡ []
    → All (All IsVisible) (peer ∷ peers)
    → IsChain x (peer ++ further x peers) h (append_all x (peer ∷ peers) h)
unfolding append_all
append_all-IsChain x h peer peers new (one, all) =
    let empty : existing_chain x h ≡ [] = rw (new, existing_chain) refl in
    append_all_lem x peers peer h (append_forwarded_for x h peer) all one (
      subst (λ t. IsChain x (t ++ peer) h (append_forwarded_for x h peer)) empty
        (append_forwarded_for_lem x h peer
          (subst (λ t. All IsVisible (t ++ peer)) (sym empty) one)))
