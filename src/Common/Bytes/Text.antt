-- ===== src/Common/Bytes/Text.antt =====
-- More of what the program calls on texts: trimming, whitespace as UTF-8, decimal numbers and search.
use Prim.Native.Nat.{ℕ, zero, suc, ◌+◌, ◌-◌, ◌*◌, ◌^◌}
use mathlib.Core.Bool.{Bool, ◌&&◌, ◌||◌}
use mathlib.Core.Option.{Option, none, some}
use mathlib.Core.List.{List, [], ◌∷◌}
use tuletorn.Common.Bytes.{Bytes, bytes_eq, is_empty, starts_with, strip_prefix, to_ascii_lowercase}
use tuletorn.Common.Lists.{length, drop}
use tuletorn.Common.Tests.{leb, ltb, ◌==◌, if◌then◌else◌}

-- `u8::is_ascii_whitespace`, which knows no vertical tab.
abbrev pub is_ascii_whitespace : ℕ → Bool
is_ascii_whitespace c = c == 9 || c == 10 || c == 12 || c == 13 || c == 32

unfoldable pub trim_ascii_start : Bytes → Bytes
trim_ascii_start [] = []
trim_ascii_start (c ∷ s) = if is_ascii_whitespace c then trim_ascii_start s else c ∷ s

unfoldable pub trim_ascii_end : Bytes → Bytes
trim_ascii_end [] = []
trim_ascii_end (c ∷ s) =
    let rest = trim_ascii_end s in if is_empty rest && is_ascii_whitespace c then [] else c ∷ rest

-- `slice::trim_ascii`.
unfoldable pub trim_ascii : Bytes → Bytes
unfolding trim_ascii_start trim_ascii_end
trim_ascii s = trim_ascii_end (trim_ascii_start s)

-- The characters of two bytes that are `White_Space`: U+0085 and U+00A0.
abbrev is_space_2 : ℕ → ℕ → Bool
is_space_2 a b = a == 0xc2 && (b == 0x85 || b == 0xa0)

-- Of three bytes: U+1680, U+2000 to U+200A, U+2028, U+2029, U+202F, U+205F and U+3000.
abbrev is_space_3 : ℕ → ℕ → ℕ → Bool
is_space_3 a b c =
    a == 0xe1 && b == 0x9a && c == 0x80
    || a == 0xe2 && b == 0x80 && (leb 0x80 c && leb c 0x8a || c == 0xa8 || c == 0xa9 || c == 0xaf)
    || a == 0xe2 && b == 0x81 && c == 0x9f
    || a == 0xe3 && b == 0x80 && c == 0x80

-- The length of the whitespace character at the start of a text, 0 if there is none.
space_length : Bytes → ℕ
space_length [] = 0
space_length (a ∷ []) = if leb 9 a && leb a 13 || a == 32 then 1 else 0
space_length (a ∷ b ∷ []) =
    if leb 9 a && leb a 13 || a == 32 then 1 else if is_space_2 a b then 2 else 0
space_length (a ∷ b ∷ c ∷ s) =
    if leb 9 a && leb a 13 || a == 32
    then 1
    else if is_space_2 a b
    then 2
    else if is_space_3 a b c
    then 3
    else 0

-- Every round drops a byte at least, so the length is fuel enough.
trim_start_from : ℕ → Bytes → Bytes
unfolding space_length
trim_start_from zero s = s
trim_start_from (suc fuel) s =
    let rest = trim_start_from fuel (drop (space_length s) s) in
    if space_length s == 0 then s else rest

trim_start : Bytes → Bytes
unfolding trim_start_from
trim_start s = trim_start_from (length s) s

-- A suffix that is whitespace alone goes.
trim_end : Bytes → Bytes
unfolding trim_start
trim_end [] = []
trim_end (c ∷ s) = let rest = trim_end s in if is_empty (trim_start (c ∷ s)) then [] else c ∷ rest

-- `str::trim`, on valid UTF-8.
unfoldable pub trim : Bytes → Bytes
unfolding trim_start trim_end
trim s = trim_end (trim_start s)

-- `str::eq_ignore_ascii_case`.
unfoldable pub eq_ignore_case : Bytes → Bytes → Bool
unfolding bytes_eq to_ascii_lowercase
eq_ignore_case a b = bytes_eq (to_ascii_lowercase a) (to_ascii_lowercase b)

-- The digits of `str::parse::<u64>`, which refuses what does not fit.
unfoldable pub parse_digits : ℕ → Bytes → Option ℕ
parse_digits n [] = some n
parse_digits n (c ∷ s) =
    if leb b'0' c && leb c b'9' && ltb (n * 10 + (c - b'0')) (2 ^ 64)
    then parse_digits (n * 10 + (c - b'0')) s
    else none

-- `str::parse::<u64>`: a sign may stand before the digits, of which there is one at least.
unfoldable pub parse_u64 : Bytes → Option ℕ
unfolding parse_digits
parse_u64 [] = none
parse_u64 (c ∷ s) =
    if c == b'+' then (if is_empty s then none else parse_digits 0 s) else parse_digits 0 (c ∷ s)

-- The first place where `needle` stands.
unfoldable pub find_sub : (haystack needle : Bytes) → Option ℕ
unfolding strip_prefix
find_sub [] needle = if is_empty needle then some 0 else none
find_sub (c ∷ s) needle =
    let later = find_sub s needle in
    if starts_with needle (c ∷ s)
    then some 0
    else (elim later [ none ↦ none | some i ↦ some (i + 1) ])

-- The last of the parts that `split` gives, which is what `rsplit(..).next()` returns.
abbrev pub last_or : Bytes → List Bytes → Bytes
last_or d [] = d
last_or d (p ∷ ps) = last_or p ps
