-- ===== src/Http1/Returned.antt =====
-- The head that the client reads, line by line.
use tuletorn.Common.{
  ℕ, zero, suc, ◌+◌, ◌≡◌, refl, ap, sym, not, Option-cases, ◌∙◌, inl, inr, Bool, true, false,
  Option, none, some, List, [], ◌∷◌, ◌++◌, filter, append_assoc, append-nil, All, All-append,
  Bool-cases, arith, take, if◌then◌else◌,
}
use tuletorn.Common.Bytes.{Bytes, codes, starts_with}
use tuletorn.Common.Bytes.Search.{append_of_starts_with}
use tuletorn.Common.Bytes.Text.{find_sub}
use tuletorn.Http1.{ResponseHead, Platform}
use tuletorn.Http1.Forward.{text_of, text_of-append, split_header_lines-text_of}
use tuletorn.Http1.Withheld.{
  connection_headers, any-append, is_other, named, connection_nominated-named,
}
use tuletorn.Http1.Lines.{
  IsLine, split_header_lines-IsLine, split_header_lines_nil, split_header_lines-append,
}
use tuletorn.Simd.{find_byte}
use tuletorn.Http1.Write.{
  crlf, split_header_lines, headers_start, header_block, returns, is_hop_by_hop, eq_ci,
  write_return_head,
}

line_end :
    (c m : ℕ) (s : Bytes)
    → starts_with crlf (c ∷ take m s) ≡ true
    → (t : Bytes) × (take 2 (c ∷ s) ≡ t ++ crlf)
line_end c m s e = at_once m s (append_of_starts_with crlf (c ∷ take m s) e)
  where
    at_once :
        (m : ℕ) (s : Bytes)
        → (rest : Bytes) × (c ∷ take m s ≡ crlf ++ rest)
        → (t : Bytes) × (take 2 (c ∷ s) ≡ t ++ crlf)
    at_once zero s (rest, e) = cc
    at_once (suc m) [] (rest, e) = cc
    at_once (suc m) (d ∷ s) (rest, e) = ([], cc)

-- Where the end of the first line is found, the text up to there ends in it.
abbrev EndsLine : Bytes → Option ℕ → Type 0
EndsLine s none = Unit
EndsLine s (some i) = (t : Bytes) × (take (i + 2) s ≡ t ++ crlf)

take-EndsLine : (n : ℕ) (s : Bytes) → EndsLine s (find_sub (take n s) crlf)
unfolding find_sub
take-EndsLine zero s = tt
take-EndsLine (suc n) [] = tt
take-EndsLine (suc n) (c ∷ s) = elim (Bool-cases (starts_with crlf (c ∷ take n s))) [
  | inl e ↦ rw e (line_end c n s e)
  | inr e ↦ rw e (later (find_sub (take n s) crlf) (take-EndsLine n s))
]
  where
    later :
        (o : Option ℕ)
        → EndsLine s o
        → EndsLine (c ∷ s) (elim o as (λ _. Option ℕ) [ none ↦ none | some i ↦ some (i + 1) ])
    later none h = tt
    later (some i) (t, h) =
        (c ∷ t, let e : i + 1 + 2 ≡ suc (i + 2) = omega arith in rw e (ap (◌∷◌ c) h))

filter-All :
    (f : Bytes → Bool) (P : Bytes → Type 0) (ls : List Bytes) → All P ls → All P (filter f ls)
filter-All f P [] h = tt
filter-All f P (l ∷ ls) (h, hs) = elim (Bool-cases (f l)) [
  | inl e ↦ rw (e, filter) (h, filter-All f P ls hs)
  | inr e ↦ rw (e, filter) (filter-All f P ls hs)
]

-- The status line and the line that the proxy adds.
abbrev pub disposition_line : (keep_alive : Bool) → Bytes
disposition_line keep_alive =
    if keep_alive then codes "Connection: keep-alive" else codes "Connection: close"

returns_lem :
    (p : Platform) (nominated : List Bytes) (l : Bytes)
    → returns p nominated l ≡ is_other p (connection_headers ++ nominated) l
unfolding returns is_hop_by_hop
returns_lem p nominated l = elim (Option-cases (find_byte p.bytes b':' l)) [
  | inl e ↦ rw (e, returns, is_other) refl
  | inr (colon, e) ↦
      rw (e, returns, is_other)
        (ap not (sym (any-append (λ n. eq_ci p (take colon l) n) connection_headers nominated)))
]

filter_same :
    (q r : Bytes → Bool) (ls : List Bytes) → ((l : Bytes) → q l ≡ r l) → filter q ls ≡ filter r ls
filter_same q r [] same = refl
filter_same q r (l ∷ ls) same = elim (Bool-cases (r l)) [
  | inl e ↦
      let k : q l ≡ true = same l ∙ e in rw (e, k, filter) (ap (◌∷◌ l) (filter_same q r ls same))
  | inr e ↦ let k : q l ≡ false = same l ∙ e in rw (e, k, filter) (filter_same q r ls same)
]

module _ (p : Platform) (original : Bytes) (head : ResponseHead) where
  -- The upstream's header lines that are returned.
  abbrev pub returned_lines : List Bytes
  returned_lines =
      let block = header_block p original head.head_len in
      filter (is_other p (connection_headers ++ named p block)) (split_header_lines block)

  block_text : (keep_alive : Bool) → Bytes
  block_text keep_alive = text_of (returned_lines ++ disposition_line keep_alive ∷ []) ++ crlf

  returned_text :
      (keep_alive : Bool)
      → text_of returned_lines
          ++ (if keep_alive
              then codes "Connection: keep-alive" ++ (crlf ++ crlf)
              else codes "Connection: close" ++ (crlf ++ crlf))
        ≡ block_text keep_alive
  unfolding block_text
  returned_text true =
      rw (text_of-append returned_lines (disposition_line true ∷ []))
        (simp (append_assoc, append-nil))
  returned_text false =
      rw (text_of-append returned_lines (disposition_line false ∷ []))
        (simp (append_assoc, append-nil))

  disposition_line-IsLine : (keep_alive : Bool) → IsLine (disposition_line keep_alive)
  disposition_line-IsLine true = (omega arith, λ e. cc)
  disposition_line-IsLine false = (omega arith, λ e. cc)

  split_header_lines-block_text :
      (keep_alive : Bool)
      → split_header_lines (block_text keep_alive)
        ≡ returned_lines ++ disposition_line keep_alive ∷ []
  unfolding block_text
  split_header_lines-block_text keep_alive =
      let block = header_block p original head.head_len in
      let lines = returned_lines ++ disposition_line keep_alive ∷ [] in
      split_header_lines-text_of lines crlf (
        All-append IsLine returned_lines (disposition_line keep_alive ∷ [])
          (filter-All (is_other p (connection_headers ++ named p block)) IsLine
            (split_header_lines block) (split_header_lines-IsLine block))
          (disposition_line-IsLine keep_alive, tt))
      ∙ ap (λ r. lines ++ r) split_header_lines_nil
      ∙ append-nil lines

  behind_line :
      (s rest : Bytes)
      → (t : Bytes) × (s ≡ t ++ crlf)
      → split_header_lines (s ++ rest) ≡ split_header_lines s ++ split_header_lines rest
  behind_line s rest (t, e) =
      rw e (ap split_header_lines (append_assoc t crlf rest) ∙ split_header_lines-append t rest)

  -- Where the upstream's head has a first line end at `pos`, the client reads the returned head as the
  -- line up to there, the upstream's header lines in order, less those without a colon, the hop-by-hop
  -- ones and the nominated ones, and one `Connection` line that says whether the connection is kept.
  pub split_header_lines-write_return_head :
      (keep_alive : Bool) (pos : ℕ)
      → find_sub (take head.head_len original) crlf ≡ some pos
      → split_header_lines (write_return_head p original head keep_alive)
        ≡ split_header_lines (take (pos + 2) original)
          ++ (returned_lines ++ disposition_line keep_alive ∷ [])
  unfolding write_return_head
  split_header_lines-write_return_head keep_alive pos found =
      let start : headers_start p original head.head_len ≡ pos + 2 =
        rw (p.memmem_lem (take head.head_len original) crlf, found, headers_start) refl in
      let block = header_block p original head.head_len in
      let same =
        ap (λ ns. filter (returns p ns) (split_header_lines block))
          (connection_nominated-named p block)
        ∙ filter_same (returns p (named p block)) (is_other p (connection_headers ++ named p block))
            (split_header_lines block) (returns_lem p (named p block)) in
      ap split_header_lines (
        ap
          (λ ls.
            take (headers_start p original head.head_len) original
            ++ (text_of ls
                ++ (if keep_alive
                    then codes "Connection: keep-alive" ++ (crlf ++ crlf)
                    else codes "Connection: close" ++ (crlf ++ crlf))))
          same
        ∙ ap (λ r. take (headers_start p original head.head_len) original ++ r)
            (returned_text keep_alive)
        ∙ ap (λ n. take n original ++ block_text keep_alive) start)
      ∙ behind_line (take (pos + 2) original) (block_text keep_alive)
          (rw found at (take-EndsLine head.head_len original))
      ∙ ap (λ r. split_header_lines (take (pos + 2) original) ++ r)
          (split_header_lines-block_text keep_alive)
