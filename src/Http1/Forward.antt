-- ===== src/Http1/Forward.antt =====
-- What the upstream reads of a forwarded head, and the client of a returned one.
use tuletorn.Common.{
  ℕ, ◌+◌, ◌≡◌, ◌≢◌, refl, ap, sym, ◌∙◌, inl, inr, Bool, true, false, Option, none, some, List, [],
  ◌∷◌, ◌++◌, filter, flat_map, append_assoc, append-nil, All, Bool-cases, Option-cases,
  if◌then◌else◌, drop, ◌&&◌, not,
}
use tuletorn.Common.Bytes.{Bytes, codes}
use tuletorn.Common.Bytes.Every.{drop-All, trim_ascii-All}
use tuletorn.Common.Bytes.Text.{trim_ascii}
use tuletorn.Http1.{RequestHead, Platform}
use tuletorn.Http1.Lines.{IsLine, split_header_lines-cons}
use tuletorn.Http1.Withheld.{
  names_one, is_other, withheld, kept_lines, forwarded_value, Agrees, fate_lem, last_forwarded,
  named, connection_nominated-named,
}
use tuletorn.Http1.Write.{
  crlf, split_header_lines, header_block, Fate, dropped, kept, forwarded_for, fate, copy_lines,
  forwarded_line, write_forward_head,
}
use tuletorn.Simd.{find_byte}
use tuletorn.Simd.Host.{IsFree}

-- Lines as they are written, each with its end.
abbrev pub text_of : List Bytes → Bytes
text_of lines = flat_map (λ l. l ++ crlf) lines

pub split_header_lines-text_of :
    (lines : List Bytes) (rest : Bytes)
    → All IsLine lines
    → split_header_lines (text_of lines ++ rest) ≡ lines ++ split_header_lines rest
split_header_lines-text_of [] rest h = refl
split_header_lines-text_of (l ∷ ls) rest (h, hs) =
    ap split_header_lines
      (append_assoc (l ++ crlf) (text_of ls) rest ∙ append_assoc l crlf (text_of ls ++ rest))
    ∙ split_header_lines-cons l (text_of ls ++ rest) h
    ∙ ap (◌∷◌ l) (split_header_lines-text_of ls rest hs)

abbrev pub IsFreeOption : Option Bytes → Type 0
IsFreeOption none = Unit
IsFreeOption (some v) = IsFree 10 v

module _ (p : Platform) (nominated : List Bytes) where
  copy_lines_lem :
      (out : Bytes) (xff : Option Bytes) (lines : List Bytes)
      → copy_lines p nominated out xff lines
        ≡ (out ++ text_of (kept_lines p nominated lines), last_forwarded p nominated xff lines)
  unfolding copy_lines last_forwarded
  copy_lines_lem out xff [] = ap (λ o. (o, xff)) (sym (append-nil out))
  copy_lines_lem out xff (l ∷ ls) =
      from (fate p nominated l) (fate_lem p nominated l) (λ o y. copy_lines_lem o y ls)
    where
      from :
          (f : Fate)
          → Agrees p nominated l f
          → ((o : Bytes) (y : Option Bytes)
              → copy_lines p nominated o y ls
                ≡ (o ++ text_of (kept_lines p nominated ls), last_forwarded p nominated y ls))
          → (elim f as (λ _. Bytes × Option Bytes) [
            | dropped ↦ copy_lines p nominated out xff ls
            | kept ↦ copy_lines p nominated (out ++ (l ++ crlf)) xff ls
            | forwarded_for v ↦ copy_lines p nominated out (some v) ls
          ])
            ≡ (
              out ++ text_of (kept_lines p nominated (l ∷ ls)),
              last_forwarded p nominated xff (l ∷ ls),
            )
      from dropped (one, two) rest = rw (one, filter, two, last_forwarded) (rest out xff)
      from kept (one, two) rest =
          rw (one, filter, two, last_forwarded)
            (rest (out ++ (l ++ crlf)) xff
              ∙ ap (λ o. (o, last_forwarded p nominated xff ls))
                  (append_assoc out (l ++ crlf) (text_of (kept_lines p nominated ls))))
      from (forwarded_for v) (one, two) rest =
          rw (one, filter, two, last_forwarded) (rest out (some v))

  pub kept_lines-IsLine :
      (lines : List Bytes) → All IsLine lines → All IsLine (kept_lines p nominated lines)
  kept_lines-IsLine [] h = tt
  kept_lines-IsLine (l ∷ ls) (h, hs) =
      elim (Bool-cases (is_other p (withheld p nominated ++ codes "x-forwarded-for" ∷ []) l)) [
        | inl e ↦ rw (e, filter) (h, kept_lines-IsLine ls hs)
        | inr e ↦ rw (e, filter) (kept_lines-IsLine ls hs)
      ]

  forwarded_value-IsFree : (l : Bytes) → IsFree 10 l → IsFreeOption (forwarded_value p nominated l)
  forwarded_value-IsFree l h = elim (Option-cases (find_byte p.bytes b':' l)) [
    | inl f ↦ rw (f, forwarded_value, IsFreeOption) tt
    | inr (colon, f) ↦
        rw (f, forwarded_value, IsFreeOption)
          (whether
            (names_one p (codes "x-forwarded-for" ∷ []) l colon
              && not (names_one p (withheld p nominated) l colon))
            (trim_ascii (drop (colon + 1) l))
            (trim_ascii-All (λ c. c ≢ 10) (drop (colon + 1) l)
              (drop-All (λ c. c ≢ 10) (colon + 1) l h)))
  ]
    where
      whether : (b : Bool) (v : Bytes) → IsFree 10 v → IsFreeOption (if b then some v else none)
      whether true v h = h
      whether false v h = tt

  pub last_forwarded-IsFree :
      (xff : Option Bytes) (lines : List Bytes)
      → IsFreeOption xff
      → All IsLine lines
      → IsFreeOption (last_forwarded p nominated xff lines)
  unfolding last_forwarded
  last_forwarded-IsFree xff [] k h = k
  last_forwarded-IsFree xff (l ∷ ls) k (h, hs) =
      from (forwarded_value p nominated l) (forwarded_value-IsFree l h.0)
        (λ y j. last_forwarded-IsFree y ls j hs)
    where
      from :
          (o : Option Bytes)
          → IsFreeOption o
          → ((y : Option Bytes) → IsFreeOption y → IsFreeOption (last_forwarded p nominated y ls))
          → IsFreeOption (elim o as (λ _. Option Bytes) [
            | none ↦ last_forwarded p nominated xff ls
            | some v ↦ last_forwarded p nominated (some v) ls
          ])
      from none j rest = rest xff k
      from (some v) j rest = rest (some v) j

pub text_of-append : (ls ms : List Bytes) → text_of (ls ++ ms) ≡ text_of ls ++ text_of ms
text_of-append [] ms = refl
text_of-append (l ∷ ls) ms =
    ap (λ t. (l ++ crlf) ++ t) (text_of-append ls ms)
    ∙ sym (append_assoc (l ++ crlf) (text_of ls) (text_of ms))

pub append-ne-nil : (s t : Bytes) (c : ℕ) → s ++ c ∷ t ≢ []
append-ne-nil [] t c e = cc
append-ne-nil (d ∷ s) t c e = cc

-- The line that is added for the peer.
abbrev pub forwarded_lines : Option Bytes → (peer : Option Bytes) → List Bytes
forwarded_lines xff none = []
forwarded_lines none (some ip) = (codes "X-Forwarded-For: " ++ ip) ∷ []
forwarded_lines (some prev) (some ip) =
    (codes "X-Forwarded-For: " ++ (prev ++ (codes ", " ++ ip))) ∷ []

forwarded_line_lem :
    (xff peer : Option Bytes) → forwarded_line xff peer ≡ text_of (forwarded_lines xff peer)
forwarded_line_lem xff none = refl
forwarded_line_lem none (some ip) = simp (append_assoc, append-nil)
forwarded_line_lem (some prev) (some ip) = simp (append_assoc, append-nil)

-- The request line and the headers of a forwarded head.
abbrev pub request_line : RequestHead → (target : Bytes) → Bytes
request_line head target = head.method ++ (codes " " ++ (target ++ codes " HTTP/1.1"))

abbrev pub added_lines : (upstream_host : Bytes) → Option Bytes → (peer : Option Bytes) → List Bytes
added_lines upstream_host xff peer =
    (codes "Host: " ++ upstream_host)
    ∷ (forwarded_lines xff peer ++ codes "X-Forwarded-Proto: http" ∷ [])

abbrev pub forwarded_head :
    Platform
    → (original : Bytes) → RequestHead
    → (target upstream_host : Bytes) → (peer : Option Bytes) → List Bytes
forwarded_head p original head target upstream_host peer =
    let block = header_block p original head.head_len in
    let lines = split_header_lines block in
    let nominated = named p block in
    request_line head target
    ∷ (kept_lines p nominated lines
        ++ added_lines upstream_host (last_forwarded p nominated none lines) peer)

pub write_forward_head_lem :
    (p : Platform) (original : Bytes) (head : RequestHead) (target upstream_host : Bytes)
    (peer : Option Bytes)
    → write_forward_head p original head target upstream_host peer
      ≡ text_of (forwarded_head p original head target upstream_host peer) ++ crlf
unfolding write_forward_head
write_forward_head_lem p original head target upstream_host peer =
    let block = header_block p original head.head_len in
    let lines = split_header_lines block in
    let nominated = named p block in
    rw
      (
        connection_nominated-named p block,
        copy_lines_lem p nominated
            (head.method ++ (codes " " ++ (target ++ (codes " HTTP/1.1" ++ crlf)))) none lines,
        forwarded_line_lem (last_forwarded p nominated none lines) peer,
        text_of-append (kept_lines p nominated lines)
            (added_lines upstream_host (last_forwarded p nominated none lines) peer),
        text_of-append (forwarded_lines (last_forwarded p nominated none lines) peer)
            (codes "X-Forwarded-Proto: http" ∷ []),
      )
      (simp (append_assoc, append-nil))
