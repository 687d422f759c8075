-- ===== src/Server/Received.antt =====
-- The head of a response, as it is read.
use tuletorn.Common.{
  ℕ, zero, suc, ◌+◌, ◌≡◌, ◌<◌, refl, ap, subst, sym, ◌∙◌, inr, [], ◌∷◌, ◌++◌, append-nil, inl, ◌⊎◌,
  length, length-append, arith, if◌then◌else◌,
}
use tuletorn.Common.Bytes.{Bytes, is_empty}
use tuletorn.Http1.{ResponseHead, Parsed, complete, partial, invalid, Platform}
use tuletorn.Http1.Parse.{parse_response}
use tuletorn.Server.{Stream}
use tuletorn.Server.Buffer.{IsBuffer}
use tuletorn.Server.Connection.Heads.{IsFilled, fill-IsFilled, HasRead, HasRead-trans}
use tuletorn.Server.Response.{
  Filled, more_bytes, at_end, read_error, ResponseRead, found, malformed, no_head, head_error,
  head_starved, fill, read_response_head,
}

module _ (p : Platform) {S : Type 0} (io : Stream S) (m : Bytes) where
  -- Nothing yet, or not a whole head.
  abbrev pub IsPartial : Bytes → Type 0
  IsPartial buf = (buf ≡ []) ⊎ (parse_response p buf m ≡ partial)

  abbrev pub IsResponseRead : (buf : Bytes) → S → ResponseRead S → Type 0
  IsResponseRead buf s (found head buf' buf_len' s') =
      (parse_response p buf' m ≡ complete head) × HasRead io buf buf' s s'
  IsResponseRead buf s (malformed s') =
      (buf' : Bytes) × (parse_response p buf' m ≡ invalid) × HasRead io buf buf' s s'
  IsResponseRead buf s (no_head s') =
      (buf' : Bytes) × IsPartial buf' × HasRead io buf buf' s s' × (io.pending s' ≡ [])
  IsResponseRead buf s head_error = Unit
  IsResponseRead buf s head_starved = ⊥

  IsResponseRead-more :
      (buf b : Bytes) (s s' : S)
      → io.pending s ≡ b ++ io.pending s'
      → (x : ResponseRead S) → IsResponseRead (buf ++ b) s' x
      → IsResponseRead buf s x
  IsResponseRead-more buf b s s' e (found head buf' buf_len' s'') (f, g) =
      (f, HasRead-trans io buf b buf' s s' s'' e g)
  IsResponseRead-more buf b s s' e (malformed s'') (buf', f, g) =
      (buf', f, HasRead-trans io buf b buf' s s' s'' e g)
  IsResponseRead-more buf b s s' e (no_head s'') (buf', f, g, h) =
      (buf', f, HasRead-trans io buf b buf' s s' s'' e g, h)
  IsResponseRead-more buf b s s' e head_error h = tt
  IsResponseRead-more buf b s s' e head_starved h = h

  abbrev try_parse : Bytes → Parsed ResponseHead
  try_parse buf = if is_empty buf then partial else parse_response p buf m

  try_parse_lem :
      (buf : Bytes) (head : ResponseHead)
      → try_parse buf ≡ complete head
      → parse_response p buf m ≡ complete head
  try_parse_lem [] head e = cc
  try_parse_lem (c ∷ buf) head e = e

  try_parse-invalid : (buf : Bytes) → try_parse buf ≡ invalid → parse_response p buf m ≡ invalid
  try_parse-invalid [] e = cc
  try_parse-invalid (c ∷ buf) e = e

  try_parse-partial : (buf : Bytes) → try_parse buf ≡ partial → IsPartial buf
  try_parse-partial [] e = inl refl
  try_parse-partial (c ∷ buf) e = inr e

  pub read_response_head-IsResponseRead :
      (fuel : ℕ) (buf : Bytes) (buf_len : ℕ) (s : S)
      → length (io.pending s) < fuel
      → IsBuffer buf_len (length buf)
      → IsResponseRead buf s (read_response_head io p fuel m buf buf_len s)
  unfolding read_response_head
  read_response_head-IsResponseRead zero buf buf_len s enough fits = absurd (omega arith)
  read_response_head-IsResponseRead (suc fuel) buf buf_len s enough fits =
      from (try_parse buf) refl (fill io buf buf_len s) (fill-IsFilled io buf buf_len s fits)
        (λ buf' buf_len' s' enough' fits'.
          read_response_head-IsResponseRead fuel buf' buf_len' s' enough' fits')
    where
      from :
          (x : Parsed ResponseHead)
          → try_parse buf ≡ x
          → (y : Filled S) → IsFilled io buf buf_len s y
          → ((buf' : Bytes) (buf_len' : ℕ) (s' : S)
              → length (io.pending s') < fuel
              → IsBuffer buf_len' (length buf')
              → IsResponseRead buf' s' (read_response_head io p fuel m buf' buf_len' s'))
          → IsResponseRead buf s (elim x as (λ _. ResponseRead S) [
            | complete head ↦ found head buf buf_len s
            | invalid ↦ malformed s
            | partial ↦ elim y as (λ _. ResponseRead S) [
              | read_error ↦ head_error
              | at_end s' ↦ no_head s'
              | more_bytes buf' buf_len' s' ↦ read_response_head io p fuel m buf' buf_len' s'
            ]
          ])
      from (complete head) e y k rest = (try_parse_lem buf head e, ([], sym (append-nil buf), refl))
      from invalid e y k rest = (buf, try_parse-invalid buf e, ([], sym (append-nil buf), refl))
      from partial e read_error k rest = tt
      from partial e (at_end s') (same, over) rest =
          (buf, try_parse-partial buf e, ([], sym (append-nil buf), same), over)
      from partial e (more_bytes buf' buf_len' s') (b, some_bytes, same, split, within) rest =
          let total : length (io.pending s) ≡ length b + length (io.pending s') =
            ap length split ∙ length-append b (io.pending s') in
          IsResponseRead-more buf b s s' split (read_response_head io p fuel m buf' buf_len' s') (
            subst (λ r. IsResponseRead r s' (read_response_head io p fuel m buf' buf_len' s')) same
              (rest buf' buf_len' s' (omega arith) within))
