-- ===== src/Pingora/Replay.antt =====
-- What the header of Pingora holds after its operations were called one by one.
use tuletorn.Common.{
  ◌≡◌, refl, ap, ◌∙◌, inl, inr, Bool, not, ◌&&◌, List, [], ◌∷◌, ◌++◌, if◌then◌else◌, any, filter,
  append_assoc, append-nil, Bool-cases, arith,
}
use tuletorn.Common.Bytes.{is_empty}
use tuletorn.Http.{Http}
use tuletorn.Http.Messages.{Messages}
use tuletorn.Pingora.{
  Headed, remove_names, append_values, put_values, put_all, contains_key, replay, strip_header,
}
use tuletorn.Proxy.{connection, hop_by_hop, connection_nominated, remove_all, strip_hop_by_hop}

module _ (x : Http) (u : Messages x) (r : Headed x) where
  headers-remove_names :
      (ns : List x.HeaderName) (h : r.Header)
      → r.headers (remove_names x u r ns h) ≡ remove_all x ns (r.headers h)
  unfolding remove_all
  headers-remove_names [] h = refl
  headers-remove_names (n ∷ ns) h =
      headers-remove_names ns (r.remove_header h n) ∙ ap (remove_all x ns) (r.headers-remove h n)

  -- Stripping through the operations of the header strips the header map.
  pub headers-strip_header :
      (h : r.Header) → r.headers (strip_header x u r h) ≡ strip_hop_by_hop x (r.headers h)
  unfolding strip_header strip_hop_by_hop
  headers-strip_header h =
      headers-remove_names (connection_nominated x (r.headers h)) _
      ∙ ap (remove_all x (connection_nominated x (r.headers h))) (
          headers-remove_names (hop_by_hop x) (r.remove_header h (connection x))
          ∙ ap (remove_all x (hop_by_hop x)) (r.headers-remove h (connection x)))

  module _ (n : x.HeaderName) where
    abbrev values : r.Header → List x.HeaderValue
    values h = x.get_all (r.headers h) n

    values-append :
        (k : x.HeaderName) (vs : List x.HeaderValue) (h : r.Header)
        → values (append_values x u r k vs h) ≡ (if x.name_eq k n then values h ++ vs else values h)
    values-append k [] h = ground (arith, append-nil (values h))
    values-append k (v ∷ vs) h = ground (
      arith,
      values-append k vs (r.append_header h k v),
      r.headers-append h k v,
      x.get_all-append (r.headers h) k v n,
      append_assoc (values h) (v ∷ []) vs,
    )

    values-put :
        (k : x.HeaderName) (vs : List x.HeaderValue) (h : r.Header)
        → values (put_values x u r k vs h)
          ≡ (if x.name_eq k n && not (is_empty vs) then vs else values h)
    values-put k [] h = ground arith
    values-put k (v ∷ vs) h = ground (
      arith,
      values-append k vs (r.insert_header h k v),
      r.headers-insert h k v,
      x.get_all-insert (r.headers h) k v n,
    )

    values-put_all :
        (staged : x.HeaderMap) (ks : List x.HeaderName) (h : r.Header)
        → values (put_all x u r staged ks h) ≡ (
            if any (λ k. x.name_eq k n) ks && not (is_empty (x.get_all staged n))
            then x.get_all staged n
            else values h)
    values-put_all staged [] h = refl
    values-put_all staged (k ∷ ks) h =
        let rest = values-put_all staged ks (put_values x u r k (x.get_all staged k) h) in
        let first = values-put k (x.get_all staged k) h in
        elim (Bool-cases (x.name_eq k n)) [
          | inl e ↦
              let same : x.get_all staged k ≡ x.get_all staged n =
                ap (x.get_all staged) ((x.name_eq_iff k n).0 e) in
              ground (arith, e, same, rest, first)
          | inr e ↦ ground (arith, e, rest, first)
        ]

    any-filter :
        (p : x.HeaderName → Bool) (ks : List x.HeaderName)
        → any (λ k. x.name_eq k n) (filter p ks) ≡ (p n && any (λ k. x.name_eq k n) ks)
    any-filter p [] = ground arith
    any-filter p (k ∷ ks) = ground (arith, x.name_eq_iff k n, any-filter p ks)

    values-remove_names :
        (ns : List x.HeaderName) (h : r.Header)
        → values (remove_names x u r ns h) ≡ (if any (λ k. x.name_eq k n) ns then [] else values h)
    values-remove_names [] h = refl
    values-remove_names (k ∷ ns) h = ground (
      arith,
      values-remove_names ns (r.remove_header h k),
      r.headers-remove h k,
      x.get_all-remove (r.headers h) k n,
    )

    pub values-replay :
        (h : r.Header) (staged : x.HeaderMap) → values (replay x u r h staged) ≡ x.get_all staged n
    unfolding replay
    values-replay h staged =
        let removed = filter (λ k. not (contains_key x u r staged k)) (u.keys (r.headers h)) in
        ground (
          arith,
          values-put_all staged (u.keys staged) (remove_names x u r removed h),
          values-remove_names removed h,
          any-filter (λ k. not (contains_key x u r staged k)) (u.keys (r.headers h)),
          u.keys_lem staged n,
          u.keys_lem (r.headers h) n,
        )
