-- ===== src/Http1/Lines.antt =====
-- Header lines: what is written line by line reads back line by line.
use tuletorn.Common.{
  ℕ, ◌≡◌, ◌≢◌, refl, ap, sym, ◌∙◌, inl, inr, false, not, Option, none, some, List, [], ◌∷◌, ◌++◌,
  map, map-append, filter, filter-append, append_assoc, append-nil, All, All-append, Bool-cases,
  arith, ◌==◌,
}
use tuletorn.Common.Bytes.{Bytes, bytes_eq, is_empty, split, in_first, strip_suffix}
use tuletorn.Common.Bytes.Laws.{split-append}
use tuletorn.Common.Bytes.Every.{Holds, strip_suffix-Holds}
use tuletorn.Http1.Write.{crlf, strip_cr, split_header_lines}
use tuletorn.Simd.Host.{IsFree}

-- A text that can stand on a line of its own.
abbrev pub IsLine : Bytes → Type 0
IsLine l = IsFree 10 l × (l ≢ [])

split-IsFree : (b : ℕ) (s : Bytes) → IsFree b s → split b s ≡ s ∷ []
unfolding split
split-IsFree b [] h = refl
split-IsFree b (c ∷ s) (p, h) =
    let other : (c == b) ≡ false = ground arith in rw other (rw (split-IsFree b s h))

split_parts-IsFree : (b : ℕ) (s : Bytes) → All (IsFree b) (split b s)
unfolding split
split_parts-IsFree b [] = (tt, tt)
split_parts-IsFree b (c ∷ s) = elim (Bool-cases (c == b)) [
  | inl e ↦ rw e (tt, split_parts-IsFree b s)
  | inr e ↦ rw e (in_first-IsFree (ground arith) (split b s) (split_parts-IsFree b s))
]
  where
    in_first-IsFree :
        c ≢ b → (parts : List Bytes) → All (IsFree b) parts → All (IsFree b) (in_first c parts)
    in_first-IsFree ne [] h = ((ne, tt), tt)
    in_first-IsFree ne (p ∷ ps) (h, hs) = ((ne, h), hs)

strip_suffix_lem : (l : Bytes) → strip_suffix (13 ∷ []) (l ++ 13 ∷ []) ≡ some l
unfolding strip_suffix bytes_eq
strip_suffix_lem [] = refl
strip_suffix_lem (c ∷ []) = ground arith
strip_suffix_lem (c ∷ d ∷ l) = ground (arith, strip_suffix_lem (d ∷ l))

strip_cr_lem : (l : Bytes) → strip_cr (l ++ 13 ∷ []) ≡ l
unfolding strip_cr
strip_cr_lem l = rw (strip_suffix_lem l, strip_cr)

strip_cr-IsFree : (b : ℕ) (l : Bytes) → IsFree b l → IsFree b (strip_cr l)
unfolding strip_cr
strip_cr-IsFree b l h =
    from (strip_suffix (13 ∷ []) l) (strip_suffix-Holds (λ c. c ≢ b) (13 ∷ []) l h)
  where
    from :
        (o : Option Bytes)
        → Holds (λ c. c ≢ b) o
        → IsFree b (elim o as (λ _. Bytes) [ none ↦ l | some s ↦ s ])
    from none k = h
    from (some s) k = k

lines_of_parts :
    (parts : List Bytes)
    → All (IsFree 10) parts
    → All IsLine (filter (λ line. not (is_empty line)) (map strip_cr parts))
lines_of_parts [] h = tt
lines_of_parts (p ∷ ps) (h, hs) =
    whether (strip_cr p) (strip_cr-IsFree 10 p h) (lines_of_parts ps hs)
  where
    whether :
        (l : Bytes)
        → IsFree 10 l
        → All IsLine (filter (λ line. not (is_empty line)) (map strip_cr ps))
        → All IsLine (filter (λ line. not (is_empty line)) (l ∷ map strip_cr ps))
    whether [] k rest = rest
    whether (c ∷ l) k rest = ((k, λ e. cc), rest)

-- The lines of a block can each stand alone.
pub split_header_lines-IsLine : (block : Bytes) → All IsLine (split_header_lines block)
unfolding split_header_lines
split_header_lines-IsLine block = lines_of_parts (split 10 block) (split_parts-IsFree 10 block)

pub split_header_lines_nil : split_header_lines crlf ≡ []
unfolding split_header_lines split strip_cr
split_header_lines_nil = refl

-- A line with its end reads back as itself, before the lines that follow.
pub split_header_lines-cons :
    (l rest : Bytes)
    → IsLine l
    → split_header_lines (l ++ (crlf ++ rest)) ≡ l ∷ split_header_lines rest
unfolding split_header_lines
split_header_lines-cons [] rest (free, ne) = absurd (ne refl)
split_header_lines-cons (c ∷ l) rest (free, ne) =
    let parts : split 10 ((c ∷ l) ++ (crlf ++ rest)) ≡ ((c ∷ l) ++ 13 ∷ []) ∷ split 10 rest =
      ap (split 10) (sym (append_assoc (c ∷ l) (13 ∷ []) (10 ∷ rest)))
      ∙ split-append 10 ((c ∷ l) ++ 13 ∷ []) rest
      ∙ ap (λ q. q ++ split 10 rest)
          (split-IsFree 10 ((c ∷ l) ++ 13 ∷ [])
            (All-append (λ d. d ≢ 10) (c ∷ l) (13 ∷ []) free ((λ e. omega arith), tt))) in
    rw parts (rw (strip_cr_lem (c ∷ l)) refl)

-- What `split_header_lines` does with the parts of a block.
abbrev lines_in : List Bytes → List Bytes
lines_in parts = filter (λ line. not (is_empty line)) (map strip_cr parts)

lines_in-append : (ps qs : List Bytes) → lines_in (ps ++ qs) ≡ lines_in ps ++ lines_in qs
lines_in-append ps qs =
    ap (filter (λ line. not (is_empty line))) (map-append strip_cr ps qs)
    ∙ filter-append (λ line. not (is_empty line)) (map strip_cr ps) (map strip_cr qs)

break_lem :
    (t rest : Bytes)
    → split_header_lines (t ++ (crlf ++ rest))
      ≡ lines_in (split 10 (t ++ 13 ∷ [])) ++ split_header_lines rest
unfolding split_header_lines
break_lem t rest =
    ap (λ s. lines_in (split 10 s)) (sym (append_assoc t (13 ∷ []) (10 ∷ rest)))
    ∙ ap lines_in (split-append 10 (t ++ 13 ∷ []) rest)
    ∙ lines_in-append (split 10 (t ++ 13 ∷ [])) (split 10 rest)

pub no_lines : split_header_lines [] ≡ []
unfolding split_header_lines split strip_cr
no_lines = refl

-- A line end parts a block in two.
pub split_header_lines-append :
    (t rest : Bytes)
    → split_header_lines (t ++ (crlf ++ rest))
      ≡ split_header_lines (t ++ crlf) ++ split_header_lines rest
split_header_lines-append t rest =
    break_lem t rest
    ∙ ap (λ q. q ++ split_header_lines rest)
        (sym (append-nil (lines_in (split 10 (t ++ 13 ∷ []))))
          ∙ sym (break_lem t [] ∙ ap (λ q. lines_in (split 10 (t ++ 13 ∷ [])) ++ q) no_lines))
