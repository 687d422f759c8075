-- ===== src/Http1/Model.antt =====
-- A plain reader of heads for the tests, in place of the crate `httparse`.
use tuletorn.Common.{
  ℕ, ◌+◌, ◌≤◌, ◌≡◌, refl, ap, ◌∙◌, inl, inr, true, none, some, List, [], ◌∷◌, ◌++◌, map,
  Option-cases, arith, take, drop, length, length-append,
}
use tuletorn.Common.Bytes.{Bytes, split}
use tuletorn.Common.Bytes.Search.{append_of_find_sub}
use tuletorn.Common.Bytes.Text.{find_sub, parse_digits, trim_ascii}
use tuletorn.Http1.{RawRequest, RawResponse, Status, done, more, failed, Platform}
use tuletorn.Http1.Write.{split_header_lines}
use tuletorn.RouteTable.Model.{scan}
use tuletorn.Simd.{position, x86_64}

abbrev head_end : Bytes
head_end = 13 ∷ 10 ∷ 13 ∷ 10 ∷ []

abbrev consumed : Bytes → ℕ → ℕ
consumed buf pos = length (take pos buf) + 4

consumed_le :
    (buf : Bytes) (pos : ℕ) → find_sub buf head_end ≡ some pos → consumed buf pos ≤ length buf
consumed_le buf pos e =
    let (rest, split_at) = append_of_find_sub buf head_end pos e in
    let total : length buf ≡ length (take pos buf) + (4 + length rest) =
      ap length split_at
      ∙ length-append (take pos buf) (head_end ++ rest)
      ∙ ap (λ n. length (take pos buf) + n) (length-append head_end rest) in
    omega (arith, total)

unfoldable pub header_of : Bytes → Bytes × Bytes
unfolding position trim_ascii
header_of line = elim (position b':' line) [
  | none ↦ (line, [])
  | some colon ↦ (take colon line, trim_ascii (drop (colon + 1) line))
]

-- The words of the first line, and the headers of the others.
unfoldable pub raw_request : List Bytes → RawRequest
unfolding split header_of
raw_request [] = record { method = none; path = none; version = none; headers = [] }
raw_request (line ∷ lines) = elim (split b' ' line) [
  | [] ↦ record { method = none; path = none; version = none; headers = [] }
  | method ∷ [] ↦ record { method = some method; path = none; version = none; headers = [] }
  | method ∷ path ∷ _ ↦ record {
    method = some method;
    path = some path;
    version = some 1;
    headers = map header_of lines;
  }
]

unfoldable pub raw_response : List Bytes → RawResponse
unfolding split header_of parse_digits
raw_response [] = record { code = none; version = none; headers = [] }
raw_response (line ∷ lines) = elim (split b' ' line) [
  | [] ↦ record { code = none; version = none; headers = [] }
  | version ∷ [] ↦ record { code = none; version = none; headers = [] }
  | version ∷ code ∷ _ ↦ record {
    code = parse_digits 0 code;
    version = some 1;
    headers = map header_of lines;
  }
]

unfoldable pub read_head : {A : Type 0} → (List Bytes → A) → Bytes → Status A
unfolding find_sub split_header_lines
read_head f buf = elim (find_sub buf head_end) [
  | none ↦ more
  | some pos ↦ done (consumed buf pos) (f (split_header_lines (take pos buf)))
]

abbrev IsWithin : {A : Type 0} → Bytes → Status A → Type 0
IsWithin buf (done n r) = n ≤ length buf
IsWithin buf more = Unit
IsWithin buf failed = Unit

read_head-IsWithin :
    {A : Type 0} (f : List Bytes → A) (buf : Bytes) → IsWithin buf (read_head f buf)
unfolding read_head
read_head-IsWithin f buf = elim (Option-cases (find_sub buf head_end)) [
  | inl e ↦ rw (e, IsWithin) tt
  | inr (pos, e) ↦ rw (e, IsWithin, read_head) (consumed_le buf pos e)
]

pub read_head_le :
    {A : Type 0} (f : List Bytes → A) (buf : Bytes) (n : ℕ) (r : A)
    → read_head f buf ≡ done n r
    → n ≤ length buf
read_head_le f buf n r h = rw (h, IsWithin) at (read_head-IsWithin f buf)

pub same_text : (s r : Bytes) → some s ≡ some r → r ≡ s
same_text s r e = cc

abbrev pub plain : Platform
plain = record {
  arch = x86_64;
  avx2 = true;
  bytes = scan;
  memmem = find_sub;
  memmem_lem = λ h n. refl;
  validate_utf8 = some;
  validate_utf8_lem = same_text;
  request_parser = λ room. read_head raw_request;
  response_parser = λ room. read_head raw_response;
  request_parser_lem = λ room. read_head_le raw_request;
  response_parser_lem = λ room. read_head_le raw_response;
}
