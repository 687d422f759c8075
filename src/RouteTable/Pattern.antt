-- ===== src/RouteTable/Pattern.antt =====
-- crates/core/src/route_table.rs, `expand_pattern`: the matchit patterns of a path of the control plane.
use tuletorn.Common.{
  Bool, true, false, ◌&&◌, not, none, some, List, [], ◌∷◌, ◌++◌, if◌then◌else◌, ◌<|>◌,
}
use tuletorn.Common.Bytes.{Bytes, codes, is_empty, bytes_eq, strip_suffix, trim_end_matches}

pub data PathMatch : Type 0 where
  prefix exact : PathMatch

abbrev pub is_exact : PathMatch → Bool
is_exact prefix = false
is_exact exact = true

abbrev pub catchall : Bytes
catchall = codes "/{*catchall}"

abbrev pub slash : Bytes
slash = b'/' ∷ []

-- The shorthands `/*`, `/*path` and `/*catchall` at the end of a path, taken off.
unfoldable pub shorthand : Bytes → Bytes × Bool
unfolding bytes_eq strip_suffix
shorthand path =
    if bytes_eq path (codes "/*")
    then (slash, true)
    else (elim (strip_suffix (codes "/*catchall") path
        <|> strip_suffix (codes "/*path") path
        <|> strip_suffix (codes "/*") path) [
          | some stripped ↦ (if is_empty stripped then slash else stripped, true)
          | none ↦ (path, false)
        ])

-- `let base = if base.is_empty() { "/" } else { base }`
unfoldable pub pattern_base : Bytes → Bytes
unfolding shorthand
pattern_base path = if is_empty (shorthand path).0 then slash else (shorthand path).0

unfoldable pub expand_pattern : Bytes → PathMatch → List Bytes
unfolding shorthand pattern_base trim_end_matches
expand_pattern path kind =
    let base = pattern_base path in
    let trimmed = trim_end_matches b'/' base in
    if is_exact kind && not (shorthand path).1
    then base ∷ []
    else (if is_empty trimmed
        then slash ∷ catchall ∷ []
        else trimmed ∷ (trimmed ++ slash) ∷ (trimmed ++ catchall) ∷ [])
