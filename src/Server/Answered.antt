-- ===== src/Server/Answered.antt =====
-- What a client gets as the response.
use tuletorn.Common.{
  ℕ, ◌+◌, ◌≡◌, ◌<◌, refl, ap, sym, ◌∙◌, inl, inr, ◌⊎◌, Bool, Option, none, some, [], ◌++◌,
  append_assoc, append-nil, subst, length, length-append, arith, take, drop,
}
use tuletorn.Common.Bytes.{Bytes, codes}
use tuletorn.Http1.{ResponseHead, complete, invalid, Platform}
use tuletorn.Http1.Parse.{parse_response}
use tuletorn.Http1.Write.{write_return_head, error_response}
use tuletorn.Server.{Stream}
use tuletorn.Server.Bodies.{relay_body-IsDelivered}
use tuletorn.Server.Delivered.{IsBodyOf, IsDelivered, IsSent, send-IsSent, left_of}
use tuletorn.Common.Bytes.Parts.{take_and_rest}
use tuletorn.Server.Received.{IsPartial, IsResponseRead, read_response_head-IsResponseRead}
use tuletorn.Server.Relay.{Relayed, relayed, broken, closed, out_of_fuel}
use tuletorn.Server.Response.{
  RelayOutcome, ResponseRead, found, malformed, no_head, head_error, head_starved, Answer, answered,
  no_answer, starved, send, relay_body, read_response_head, downstream_keep, outcome_of,
  answer_with, unusable, relay_response,
}

module _ (p : Platform) {S : Type 0} (io : Stream S) (m : Bytes) where
  -- The head that parses from what was read, and a body that is framed as it says: the client gets the
  -- returned head and the body, and what is left of the upstream's bytes is `rest`.
  abbrev pub IsRelayedMessage : (keep_alive : Bool) → (u d : S) → RelayOutcome → (d' : S) → Type 0
  IsRelayedMessage keep_alive u d o d' =
      (head : ResponseHead) × (buf : Bytes) × (b : Bytes) × (rest : Bytes) × (parse_response p buf m
        ≡ complete head)
      × (io.pending u ≡ take head.head_len buf ++ (b ++ rest))
      × (io.written d'
          ≡ io.written d ++ (write_return_head p buf head (downstream_keep keep_alive head) ++ b))
      × IsBodyOf head.body b rest
      × (o ≡ outcome_of keep_alive head)

  -- No head: the upstream's bytes start with what is none, and the client is sent the error 502, or they
  -- end before there is one, and the client is sent nothing.
  abbrev pub IsUnanswered : (show : ℕ → Bytes) → (u d u' d' : S) → Type 0
  IsUnanswered show u d u' d' =
      ((buf : Bytes) × (parse_response p buf m ≡ invalid)
        × (io.pending u ≡ buf ++ io.pending u')
        × (d' ≡ (io.write_all (error_response show 502 (codes "Bad Gateway")) d).1))
      ⊎ (IsPartial p io m (io.pending u) × (d' ≡ d))

  abbrev pub IsAnswer : (show : ℕ → Bytes) (keep_alive : Bool) → (u d : S) → Answer S → Type 0
  IsAnswer show keep_alive u d (answered o u' d') =
      ((o ≡ unusable) × IsUnanswered show u d u' d') ⊎ IsRelayedMessage keep_alive u d o d'
  IsAnswer show keep_alive u d no_answer = Unit
  IsAnswer show keep_alive u d starved = ⊥

  -- The head was sent, and then the body was relayed.
  body_relayed :
      (show : ℕ → Bytes) (keep_alive : Bool) (head : ResponseHead) (buf : Bytes) (u u1 d d1 : S)
      → parse_response p buf m ≡ complete head
      → io.pending u ≡ buf ++ io.pending u1
      → io.written d1
        ≡ io.written d ++ write_return_head p buf head (downstream_keep keep_alive head)
      → (x : Relayed S) → IsDelivered io head.body (drop head.head_len buf) u1 d1 x
      → IsAnswer show keep_alive u d (elim x as (λ _. Answer S) [
        | relayed n u' d' ↦ answered (outcome_of keep_alive head) u' d'
        | broken ↦ no_answer
        | closed n u' d' ↦ no_answer
        | out_of_fuel ↦ starved
      ])
  body_relayed show keep_alive head buf u u1 d d1 parses from_u to_d (relayed n u' d')
        (b, split, wrote, framed) =
      inr (
        head,
        buf,
        b,
        left_of head.body (drop head.head_len buf) ++ io.pending u',
        parses,
        from_u
            ∙ ap (λ r. r ++ io.pending u1) (take_and_rest head.head_len buf)
            ∙ append_assoc (take head.head_len buf) (drop head.head_len buf) (io.pending u1)
            ∙ ap (λ r. take head.head_len buf ++ r) split,
        wrote
            ∙ ap (λ r. r ++ b) to_d
            ∙ append_assoc (io.written d)
                (write_return_head p buf head (downstream_keep keep_alive head)) b,
        framed,
        refl,
      )
  body_relayed show keep_alive head buf u u1 d d1 parses from_u to_d broken h = tt
  body_relayed show keep_alive head buf u u1 d d1 parses from_u to_d (closed n u' d') h = tt
  body_relayed show keep_alive head buf u u1 d d1 parses from_u to_d out_of_fuel h = h

  answer_with-IsAnswer :
      (show : ℕ → Bytes) (fuel : ℕ) (keep_alive : Bool) (head : ResponseHead) (buf : Bytes)
      (buf_len : ℕ) (u u1 d : S)
      → parse_response p buf m ≡ complete head
      → io.pending u ≡ buf ++ io.pending u1
      → length (io.pending u) < fuel
      → IsAnswer show keep_alive u d (answer_with io p fuel keep_alive head buf buf_len u1 d)
  unfolding answer_with
  answer_with-IsAnswer show fuel keep_alive head buf buf_len u u1 d parses from_u enough =
      from (send io returned d) (send-IsSent io returned d)
    where
      returned : Bytes
      returned = write_return_head p buf head (downstream_keep keep_alive head)

      shorter : length (io.pending u1) < fuel
      shorter =
          let total : length (io.pending u) ≡ length buf + length (io.pending u1) =
            ap length from_u ∙ length-append buf (io.pending u1) in
          omega arith

      from :
          (o : Option S)
          → IsSent io returned d o
          → IsAnswer show keep_alive u d (elim o as (λ _. Answer S) [
            | none ↦ no_answer
            | some d1 ↦
                elim (relay_body io p fuel head.body (drop head.head_len buf) buf_len u1 d1)
                  as (λ _. Answer S) [
                    | relayed n u' d' ↦ answered (outcome_of keep_alive head) u' d'
                    | broken ↦ no_answer
                    | closed n u' d' ↦ no_answer
                    | out_of_fuel ↦ starved
                  ]
          ])
      from none h = tt
      from (some d1) h =
          body_relayed show keep_alive head buf u u1 d d1 parses from_u h
            (relay_body io p fuel head.body (drop head.head_len buf) buf_len u1 d1)
            (relay_body-IsDelivered io p fuel head.body (drop head.head_len buf) buf_len u1 d1
              shorter)

  -- With a round for each byte that the upstream still sends and one more, the relay of a response
  -- terminates. Without an I/O error or a body that ends too soon, the upstream's bytes begin with a head
  -- that parses, and the client is sent that head as rewritten and the body that the head's framing calls
  -- for, byte for byte: one that runs until the connection closes is all that the upstream still sends, and
  -- a chunked one has the bytes of a last chunk's end in it, or is all that the upstream still sends. Which
  -- connections are used again is then as the head's framing and the two wishes to close say. Or there is
  -- no head: the upstream's bytes begin with something else, and the client is sent the error 502, or they
  -- end before a head does, and it is sent nothing; then neither connection is used again.
  pub relay_response-IsAnswer :
      (show : ℕ → Bytes) (fuel : ℕ) (keep_alive : Bool) (u d : S)
      → length (io.pending u) < fuel
      → IsAnswer show keep_alive u d (relay_response io p show fuel m keep_alive u d)
  unfolding relay_response
  relay_response-IsAnswer show fuel keep_alive u d enough =
      from (read_response_head io p fuel m [] 0 u)
        (read_response_head-IsResponseRead p io m fuel [] 0 u enough (omega arith))
    where
      from :
          (x : ResponseRead S)
          → IsResponseRead p io m [] u x
          → IsAnswer show keep_alive u d (elim x as (λ _. Answer S) [
            | found head buf buf_len u1 ↦ answer_with io p fuel keep_alive head buf buf_len u1 d
            | malformed u1 ↦
                answered unusable u1
                  (io.write_all (error_response show 502 (codes "Bad Gateway")) d).1
            | no_head u1 ↦ answered unusable u1 d
            | head_error ↦ no_answer
            | head_starved ↦ starved
          ])
      from (found head buf buf_len u1) (parses, (b, same, split)) =
          answer_with-IsAnswer show fuel keep_alive head buf buf_len u u1 d parses
            (split ∙ ap (λ r. r ++ io.pending u1) (sym same)) enough
      from (malformed u1) (buf, parses, (b, same, split)) =
          inl (refl, inl (buf, parses, split ∙ ap (λ r. r ++ io.pending u1) (sym same), refl))
      from (no_head u1) (buf, none_yet, (b, same, split), over) =
          let all : buf ≡ io.pending u =
            same ∙ sym (append-nil b) ∙ ap (λ r. b ++ r) (sym over) ∙ sym split in
          inl (refl, inr (subst (IsPartial p io m) all none_yet, refl))
      from head_error h = tt
      from head_starved h = h
