-- ===== src/Http1/Withheld.antt =====
-- Which header lines of a request are forwarded, and which of a response returned.
use tuletorn.Common.{
  ℕ, ◌+◌, ◌≡◌, refl, ap, ◌∙◌, inl, inr, Bool, true, false, Option, none, some, List, [], ◌∷◌, ◌++◌,
  filter, Option-cases, Bool-cases, if◌then◌else◌, take, drop, ◌||◌, ◌&&◌, not, any, map, flat_map,
}
use tuletorn.Common.Bytes.{Bytes, codes, is_empty, split, to_ascii_lowercase}
use tuletorn.Common.Bytes.Text.{trim_ascii}
use tuletorn.Http1.{Platform}
use tuletorn.Http1.Write.{
  eq_ci, is_hop_by_hop, Fate, dropped, kept, forwarded_for, fate, nominated_token, nominated_line,
  connection_nominated, split_header_lines,
}
use tuletorn.Simd.{find_byte}

-- The headers that concern one connection alone.
abbrev pub connection_headers : List Bytes
connection_headers =
    codes "connection"
    ∷ codes "keep-alive"
    ∷ codes "proxy-authenticate"
    ∷ codes "proxy-authorization"
    ∷ codes "proxy-connection"
    ∷ codes "te"
    ∷ codes "trailer"
    ∷ codes "upgrade"
    ∷ []

or_assoc : (a b c : Bool) → (a || (b || c)) ≡ ((a || b) || c)
or_assoc true b c = refl
or_assoc false b c = refl

pub any-append : (q : Bytes → Bool) (ms ns : List Bytes) → any q (ms ++ ns) ≡ (any q ms || any q ns)
any-append q [] ns = refl
any-append q (m ∷ ms) ns =
    ap (λ b. q m || b) (any-append q ms ns) ∙ or_assoc (q m) (any q ms) (any q ns)

module _ (p : Platform) where
  -- The text in front of a line's first colon is one of the names, whatever its case and the white space
  -- around it.
  abbrev pub names_one : (names : List Bytes) → (line : Bytes) → (colon : ℕ) → Bool
  names_one names line colon = any (λ n. eq_ci p (take colon line) n) names

  -- A header that is none of these.
  abbrev pub is_other : (names : List Bytes) → (line : Bytes) → Bool
  is_other names line = elim (find_byte p.bytes b':' line) [
    | none ↦ false
    | some colon ↦ not (names_one names line colon)
  ]

not-true : {b : Bool} → not b ≡ true → b ≡ false
not-true {b = true} e = cc
not-true {b = false} e = refl

not-false : {b : Bool} → not b ≡ false → b ≡ true
not-false {b = true} e = refl
not-false {b = false} e = cc

-- The headers that `Connection` lines name.
module _ (p : Platform) where
  -- Neither nothing nor one of the two words that say what becomes of the connection.
  abbrev pub is_name : Bytes → Bool
  is_name token = not (
      is_empty (trim_ascii token)
      || eq_ci p (trim_ascii token) (codes "close")
      || eq_ci p (trim_ascii token) (codes "keep-alive"))

  abbrev pub names_in : (value : Bytes) → List Bytes
  names_in value = map (λ t. to_ascii_lowercase (trim_ascii t)) (filter is_name (split b',' value))

  abbrev pub named_in_line : Bytes → List Bytes
  named_in_line line = elim (find_byte p.bytes b':' line) [
    | none ↦ []
    | some colon ↦
        if names_one p (codes "connection" ∷ []) line colon
        then names_in (drop (colon + 1) line)
        else []
  ]

  abbrev pub named : (block : Bytes) → List Bytes
  named block = flat_map named_in_line (split_header_lines block)

  tokens_lem :
      (ts : List Bytes)
      → flat_map (nominated_token p) ts
        ≡ map (λ t. to_ascii_lowercase (trim_ascii t)) (filter is_name ts)
  tokens_lem [] = refl
  tokens_lem (t ∷ ts) = elim (Bool-cases (is_name t)) [
    | inl e ↦
        let f : (is_empty (trim_ascii t)
              || eq_ci p (trim_ascii t) (codes "close")
              || eq_ci p (trim_ascii t) (codes "keep-alive"))
            ≡ false =
          not-true e in
        rw (e, f, filter, nominated_token)
          (ap (◌∷◌ (to_ascii_lowercase (trim_ascii t))) (tokens_lem ts))
    | inr e ↦
        let f : (is_empty (trim_ascii t)
              || eq_ci p (trim_ascii t) (codes "close")
              || eq_ci p (trim_ascii t) (codes "keep-alive"))
            ≡ true =
          not-false e in
        rw (e, f, filter, nominated_token) (tokens_lem ts)
  ]

  line_lem : (line : Bytes) → nominated_line p line ≡ named_in_line line
  line_lem line = elim (Option-cases (find_byte p.bytes b':' line)) [
    | inl e ↦ rw (e, nominated_line, named_in_line) refl
    | inr (colon, e) ↦
        rw (e, nominated_line, named_in_line)
          (from (eq_ci p (take colon line) (codes "connection")) (drop (colon + 1) line))
  ]
    where
      from :
          (b : Bool) (value : Bytes)
          → (if b then flat_map (nominated_token p) (split b',' value) else [])
            ≡ (if b || false then names_in value else [])
      from true value = tokens_lem (split b',' value)
      from false value = refl

  lines_lem : (ls : List Bytes) → flat_map (nominated_line p) ls ≡ flat_map named_in_line ls
  lines_lem [] = refl
  lines_lem (l ∷ ls) =
      ap (λ ns. ns ++ flat_map (nominated_line p) ls) (line_lem l)
      ∙ ap (λ ns. named_in_line l ++ ns) (lines_lem ls)

  pub connection_nominated-named : (block : Bytes) → connection_nominated p block ≡ named block
  unfolding connection_nominated
  connection_nominated-named block = lines_lem (split_header_lines block)

module _ (p : Platform) (nominated : List Bytes) where
  abbrev pub is_kept : Fate → Bool
  is_kept dropped = false
  is_kept kept = true
  is_kept (forwarded_for v) = false

  abbrev pub value_of : Fate → Option Bytes
  value_of dropped = none
  value_of kept = none
  value_of (forwarded_for v) = some v

  -- Of these a header line is not forwarded.
  abbrev pub withheld : List Bytes
  withheld = connection_headers ++ (codes "host" ∷ nominated)

  -- The header lines that are forwarded as they are.
  abbrev pub kept_lines : List Bytes → List Bytes
  kept_lines lines = filter (is_other p (withheld ++ codes "x-forwarded-for" ∷ [])) lines

  -- The value of an `X-Forwarded-For` line, unless that header is withheld.
  abbrev pub forwarded_value : Bytes → Option Bytes
  forwarded_value line = elim (find_byte p.bytes b':' line) [
    | none ↦ none
    | some colon ↦
        if names_one p (codes "x-forwarded-for" ∷ []) line colon
          && not (names_one p withheld line colon)
        then some (trim_ascii (drop (colon + 1) line))
        else none
  ]

  hidden_lem :
      (l : Bytes) (colon : ℕ)
      → names_one p withheld l colon ≡ (
          is_hop_by_hop p (take colon l)
          || eq_ci p (take colon l) (codes "host")
          || any (λ n. eq_ci p (take colon l) n) nominated)
  unfolding is_hop_by_hop
  hidden_lem l colon =
      any-append (λ n. eq_ci p (take colon l) n) connection_headers (codes "host" ∷ nominated)
      ∙ or_assoc (is_hop_by_hop p (take colon l)) (eq_ci p (take colon l) (codes "host"))
          (any (λ n. eq_ci p (take colon l) n) nominated)

  others_lem :
      (l : Bytes) (colon : ℕ)
      → names_one p (withheld ++ codes "x-forwarded-for" ∷ []) l colon
        ≡ (names_one p withheld l colon || eq_ci p (take colon l) (codes "x-forwarded-for"))
  others_lem l colon =
      any-append (λ n. eq_ci p (take colon l) n) withheld (codes "x-forwarded-for" ∷ [])
      ∙ ap (λ b. names_one p withheld l colon || b)
          (or_false (eq_ci p (take colon l) (codes "x-forwarded-for")))
    where
      or_false : (b : Bool) → (b || false) ≡ b
      or_false true = refl
      or_false false = refl

  -- What the loop decides for a line is what the two say of it.
  abbrev pub Agrees : Bytes → Fate → Type 0
  Agrees l f =
      (is_other p (withheld ++ codes "x-forwarded-for" ∷ []) l ≡ is_kept f)
      × (forwarded_value l ≡ value_of f)

  pub fate_lem : (l : Bytes) → Agrees l (fate p nominated l)
  unfolding fate
  fate_lem l = elim (Option-cases (find_byte p.bytes b':' l)) [
    | inl e ↦ rw (e, fate, is_other, forwarded_value) (refl, refl)
    | inr (colon, e) ↦
        rw (e, fate, is_other, forwarded_value, others_lem l colon, hidden_lem l colon)
          (decided
            (is_hop_by_hop p (take colon l)
              || eq_ci p (take colon l) (codes "host")
              || any (λ n. eq_ci p (take colon l) n) nominated)
            (eq_ci p (take colon l) (codes "x-forwarded-for")) (trim_ascii (drop (colon + 1) l)))
  ]
    where
      decided :
          (hidden xff : Bool) (v : Bytes)
          → let f = if hidden then dropped else (if xff then forwarded_for v else kept) in
            (not (hidden || xff) ≡ is_kept f)
            × ((if (xff || false) && not hidden then some v else none) ≡ value_of f)
      decided true true v = (refl, refl)
      decided true false v = (refl, refl)
      decided false true v = (refl, refl)
      decided false false v = (refl, refl)

  -- The value of the last `X-Forwarded-For` line, or the one known before.
  unfoldable pub last_forwarded : Option Bytes → List Bytes → Option Bytes
  last_forwarded xff [] = xff
  last_forwarded xff (l ∷ ls) = elim (forwarded_value l) [
    | none ↦ last_forwarded xff ls
    | some v ↦ last_forwarded (some v) ls
  ]
