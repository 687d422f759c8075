-- ===== src/Server/Connection/Heads.antt =====
-- The loop that reads a request's head: it ends, and loses no byte.
use tuletorn.Common.{
  min, ℕ, zero, suc, ◌+◌, ◌≡◌, ◌≤◌, ◌<◌, refl, ap, subst, sym, ◌∙◌, inl, inr, Bool, true, false,
  not, Option, none, some, [], ◌∷◌, ◌++◌, append_assoc, append-nil, length, length-append, arith,
  Bool-cases, leb, ◌==◌, take,
}
use tuletorn.Common.Bytes.{Bytes, bytes_eq}
use tuletorn.Http1.{RequestHead, Parsed, complete, partial, invalid, Platform, max_head_size}
use tuletorn.Http1.Parse.{parse_request}
use tuletorn.Http1.Write.{error_response}
use tuletorn.Server.{Stream, grow_for_read}
use tuletorn.Server.Buffer.{IsBuffer, grow_for_read_bounds}
use tuletorn.Server.Connection.{
  Decision, read_more, upgrade, accept, refuse, HeadRead, got, is_http_2, refused, hung_up,
  head_error, head_starved, parsed, sniffed, decide, read_request_head,
}
use tuletorn.Server.Preface.{detect_h2, h2_preface}
use tuletorn.Server.Response.{Filled, more_bytes, at_end, read_error, fill, filled_with}

module _ {S : Type 0} (io : Stream S) where
  abbrev pub IsFilled : (buf : Bytes) (buf_len : ℕ) → S → Filled S → Type 0
  IsFilled buf buf_len s (more_bytes buf' buf_len' s') =
      (b : Bytes) × (0 < length b)
      × (buf' ≡ buf ++ b)
      × (io.pending s ≡ b ++ io.pending s')
      × (length buf' ≤ buf_len')
  IsFilled buf buf_len s (at_end s') = (io.pending s ≡ io.pending s') × (io.pending s' ≡ [])
  IsFilled buf buf_len s read_error = Unit

  pub fill-IsFilled :
      (buf : Bytes) (buf_len : ℕ) (s : S)
      → IsBuffer buf_len (length buf)
      → IsFilled buf buf_len s (fill io buf buf_len s)
  unfolding fill
  fill-IsFilled buf buf_len s fits = from (io.read want s) refl
    where
      room : ℕ
      room = grow_for_read buf_len (length buf)

      want : ℕ
      want = io.room room (length buf) s

      from :
          (r : Option Bytes × S)
          → io.read want s ≡ r
          → IsFilled buf buf_len s (elim r.0 as (λ _. Filled S) [
            | none ↦ read_error
            | some b ↦ filled_with io buf room b r.1
          ])
      from (none, s') e = tt
      from (some [], s') e =
          let bounds = grow_for_read_bounds buf_len (length buf) fits in
          let some_room : 0 < want = omega (arith, bounds.0, io.room_lem room (length buf) s) in
          let (le, split) = io.read_lem want s s' [] e in
          (split, sym split ∙ io.read_end want s s' e some_room)
      from (some (c ∷ b), s') e =
          let (le, split) = io.read_lem want s s' (c ∷ b) e in
          (
            c ∷ b,
            omega arith,
            refl,
            split,
            omega (
              arith,
              length-append buf (c ∷ b),
              io.vec_len_lem room (length buf + length (c ∷ b)),
            ),
          )

  -- The buffer holds what it held, and what was read since.
  abbrev pub HasRead : (buf buf' : Bytes) (s s' : S) → Type 0
  HasRead buf buf' s s' = (b : Bytes) × (buf' ≡ buf ++ b) × (io.pending s ≡ b ++ io.pending s')

  pub HasRead-trans :
      (buf b buf' : Bytes) (s s' s'' : S)
      → io.pending s ≡ b ++ io.pending s'
      → HasRead (buf ++ b) buf' s' s''
      → HasRead buf buf' s s''
  HasRead-trans buf b buf' s s' s'' e (c, f, g) = (
    b ++ c,
    f ∙ append_assoc buf b c,
    e ∙ ap (λ r. b ++ r) g ∙ sym (append_assoc b c (io.pending s'')),
  )

module _ (p : Platform) where
  abbrev IsDecided : (buf : Bytes) → Decision → Type 0
  IsDecided buf read_more = length buf < 65536
  IsDecided buf upgrade = Unit
  IsDecided buf (accept head) = parse_request p buf ≡ complete head
  IsDecided buf (refuse status reason) = Unit

  parsed-IsDecided :
      (buf : Bytes) (o : Parsed RequestHead)
      → parse_request p buf ≡ o
      → IsDecided buf (parsed p (length buf) o)
  parsed-IsDecided buf (complete head) e = e
  parsed-IsDecided buf invalid e = tt
  parsed-IsDecided buf partial e = elim (Bool-cases (leb max_head_size (length buf))) [
    | inl f ↦ rw f tt
    | inr f ↦ rw f (ground arith)
  ]

  detect_h2-short : (buf : Bytes) → detect_h2 buf ≡ none → length buf < 24
  unfolding detect_h2
  detect_h2-short buf h =
      elim (Bool-cases
        (not (bytes_eq (take (min (length buf) 24) buf) (take (min (length buf) 24) h2_preface)))) [
          | inl e ↦ let k : some false ≡ none = rw e at h in cc
          | inr e ↦ elim (Bool-cases (leb 24 (length buf))) [
            | inl f ↦ let k : some true ≡ none = rw (e, f) at h in cc
            | inr f ↦ ground arith
          ]
        ]

  sniffed-IsDecided :
      (buf : Bytes) (o : Option Bool) → detect_h2 buf ≡ o → IsDecided buf (sniffed p buf o)
  sniffed-IsDecided buf none e = omega (arith, detect_h2-short buf e)
  sniffed-IsDecided buf (some true) e = tt
  sniffed-IsDecided buf (some false) e = parsed-IsDecided buf (parse_request p buf) refl

  decide-IsDecided : (served : ℕ) (buf : Bytes) → IsDecided buf (decide p served buf)
  unfolding decide
  decide-IsDecided served [] = omega arith
  decide-IsDecided served (c ∷ buf) = elim (Bool-cases (served == 0)) [
    | inl e ↦ rw e (sniffed-IsDecided (c ∷ buf) (detect_h2 (c ∷ buf)) refl)
    | inr e ↦ rw e (parsed-IsDecided (c ∷ buf) (parse_request p (c ∷ buf)) refl)
  ]

  module _ {S : Type 0} (io : Stream S) (show : ℕ → Bytes) where
    abbrev pub IsHeadRead : (buf : Bytes) → S → HeadRead S → Type 0
    IsHeadRead buf s (got head buf' buf_len' s') =
        (parse_request p buf' ≡ complete head)
        × HasRead io buf buf' s s'
        × IsBuffer buf_len' (length buf')
    IsHeadRead buf s (is_http_2 buf' s') = HasRead io buf buf' s s'
    IsHeadRead buf s (refused s') = Unit
    IsHeadRead buf s (hung_up s') = Unit
    IsHeadRead buf s head_error = Unit
    IsHeadRead buf s head_starved = ⊥

    IsHeadRead-more :
        (buf b : Bytes) (s s' : S)
        → io.pending s ≡ b ++ io.pending s'
        → (x : HeadRead S) → IsHeadRead (buf ++ b) s' x
        → IsHeadRead buf s x
    IsHeadRead-more buf b s s' e (got head buf' buf_len' s'') (f, g, h) =
        (f, HasRead-trans io buf b buf' s s' s'' e g, h)
    IsHeadRead-more buf b s s' e (is_http_2 buf' s'') g = HasRead-trans io buf b buf' s s' s'' e g
    IsHeadRead-more buf b s s' e (refused s'') h = tt
    IsHeadRead-more buf b s s' e (hung_up s'') h = tt
    IsHeadRead-more buf b s s' e head_error h = tt
    IsHeadRead-more buf b s s' e head_starved h = h

    -- The head of a request is read in a bounded number of rounds, whatever the client sends: with rounds
    -- for 65537 bytes, of which the buffer may hold some, and a buffer that lies in its vector, the loop
    -- ends. A head that it gives is the one that parses from the buffer; the buffer holds what it held and
    -- what was read since, of which nothing is lost, also where the connection goes over to HTTP/2; and with
    -- a head it still lies in its vector.
    pub read_request_head-IsHeadRead :
        (fuel served : ℕ) (buf : Bytes) (buf_len : ℕ) (s : S)
        → 0 < fuel
        → 65537 ≤ length buf + fuel
        → IsBuffer buf_len (length buf)
        → IsHeadRead buf s (read_request_head p io show fuel served buf buf_len s)
    unfolding read_request_head
    read_request_head-IsHeadRead zero served buf buf_len s pos enough fits = absurd (omega arith)
    read_request_head-IsHeadRead (suc fuel) served buf buf_len s pos enough fits =
        from (decide p served buf) (decide-IsDecided served buf) (fill io buf buf_len s)
          (fill-IsFilled io buf buf_len s fits)
          (λ buf' buf_len' s' pos' enough' fits'.
            read_request_head-IsHeadRead fuel served buf' buf_len' s' pos' enough' fits')
      where
        from :
            (x : Decision)
            → IsDecided buf x
            → (y : Filled S) → IsFilled io buf buf_len s y
            → ((buf' : Bytes) (buf_len' : ℕ) (s' : S)
                → 0 < fuel
                → 65537 ≤ length buf' + fuel
                → IsBuffer buf_len' (length buf')
                → IsHeadRead buf' s' (read_request_head p io show fuel served buf' buf_len' s'))
            → IsHeadRead buf s (elim x as (λ _. HeadRead S) [
              | accept head ↦ got head buf buf_len s
              | upgrade ↦ is_http_2 buf s
              | refuse status reason ↦
                  refused (io.write_all (error_response show status reason) s).1
              | read_more ↦ elim y as (λ _. HeadRead S) [
                | read_error ↦ head_error
                | at_end s' ↦ hung_up s'
                | more_bytes buf' buf_len' s' ↦
                    read_request_head p io show fuel served buf' buf_len' s'
              ]
            ])
        from (accept head) e y k rest = (e, ([], sym (append-nil buf), refl), fits)
        from upgrade e y k rest = ([], sym (append-nil buf), refl)
        from (refuse status reason) e y k rest = tt
        from read_more e read_error k rest = tt
        from read_more e (at_end s') k rest = tt
        from read_more e (more_bytes buf' buf_len' s') (b, some_bytes, same, split, within) rest =
            let total : length buf' ≡ length buf + length b =
              ap length same ∙ length-append buf b in
            IsHeadRead-more buf b s s' split
              (read_request_head p io show fuel served buf' buf_len' s')
              (subst
                (λ r. IsHeadRead r s' (read_request_head p io show fuel served buf' buf_len' s'))
                same (rest buf' buf_len' s' (omega arith) (omega arith) within))
