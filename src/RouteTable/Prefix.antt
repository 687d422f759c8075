-- ===== src/RouteTable/Prefix.antt =====
-- The patterns of a route serve the paths that the control plane means.
use tuletorn.Common.{
  ℕ, ◌≡◌, ◌≢◌, ◌↔◌, ◌⊎◌, inl, inr, refl, Bool, true, false, ◌&&◌, not, Option, none, some, List, [],
  ◌∷◌, ◌++◌, if◌then◌else◌, ◌<|>◌, arith, All, All-append, Bool-cases,
}
use tuletorn.Common.Bytes.{Bytes, codes, is_empty, bytes_eq, strip_suffix, trim_end_matches}
use tuletorn.Common.Bytes.Every.{Holds, strip_suffix-Holds, or_Holds, trim_end_matches-All}
use tuletorn.RouteTable.Pattern.{
  PathMatch, is_exact, catchall, slash, shorthand, pattern_base, expand_pattern,
}

-- Without the braces of matchit's parameters.
abbrev pub IsStatic : Bytes → Type 0
IsStatic s = All (λ c. (c ≢ b'{') × (c ≢ b'}')) s

-- Which paths a pattern matches: a pattern without parameters itself, a catch-all whatever is below
-- its slash, but not nothing.
pub record Patterns : Type 1 where
  pub Matches : Bytes → Bytes → Type 0
  pub matches_static : (p path : Bytes) → IsStatic p → Matches p path ↔ (path ≡ p)
  pub matches_below :
      (p path : Bytes)
      → IsStatic p
      → Matches (p ++ catchall) path ↔ ((c : ℕ) × (rest : Bytes) × (path ≡ p ++ b'/' ∷ c ∷ rest))

-- The path is the prefix itself, which has no slash at its end, or below it.
abbrev pub IsUnder : Bytes → Bytes → Type 0
IsUnder p path = ((p ≢ []) × (path ≡ p)) ⊎ ((rest : Bytes) × (path ≡ p ++ b'/' ∷ rest))

module _ (P : ℕ → Type 0) where
  shorthand-All : (path : Bytes) → P b'/' → All P path → All P (shorthand path).0
  unfolding shorthand
  shorthand-All path root h = elim (Bool-cases (bytes_eq path (codes "/*"))) [
    | inl e ↦ rw e (root, tt)
    | inr e ↦ rw e (
        from
          (strip_suffix (codes "/*catchall") path
            <|> strip_suffix (codes "/*path") path
            <|> strip_suffix (codes "/*") path)
          stripped)
  ]
    where
      stripped : Holds P (
          strip_suffix (codes "/*catchall") path
          <|> strip_suffix (codes "/*path") path
          <|> strip_suffix (codes "/*") path)
      stripped =
          or_Holds P _ _
            (or_Holds P _ _ (strip_suffix-Holds P (codes "/*catchall") path h)
              (strip_suffix-Holds P (codes "/*path") path h))
            (strip_suffix-Holds P (codes "/*") path h)

      from :
          (o : Option Bytes)
          → Holds P o
          → All P
              (elim o as (λ _. Bytes × Bool) [
                | some r ↦ (if is_empty r then slash else r, true)
                | none ↦ (path, false)
              ]).0
      from none k = h
      from (some []) k = (root, tt)
      from (some (c ∷ r)) k = k

  pattern_base-All : (path : Bytes) → P b'/' → All P path → All P (pattern_base path)
  unfolding pattern_base
  pattern_base-All path root h = elim (Bool-cases (is_empty (shorthand path).0)) [
    | inl e ↦ rw e (root, tt)
    | inr e ↦ rw e (shorthand-All path root h)
  ]

module _ (m : Patterns) where
  -- Some pattern of the list matches.
  abbrev pub IsServed : List Bytes → Bytes → Type 0
  IsServed [] path = ⊥
  IsServed (p ∷ ps) path = m.Matches p path ⊎ IsServed ps path

  slash-IsStatic : IsStatic slash
  slash-IsStatic = ((λ e. omega arith, λ e. omega arith), tt)

  root-IsServed : (path : Bytes) → IsServed (slash ∷ catchall ∷ []) path ↔ IsUnder [] path
  root-IsServed path = (to, from)
    where
      to : IsServed (slash ∷ catchall ∷ []) path → IsUnder [] path
      to (inl h) = inr ([], (m.matches_static slash path slash-IsStatic).0 h)
      to (inr (inl h)) = let (c, rest, e) = (m.matches_below [] path tt).0 h in inr (c ∷ rest, e)
      to (inr (inr h)) = elim h [ ]

      from : IsUnder [] path → IsServed (slash ∷ catchall ∷ []) path
      from (inl (h, e)) = absurd (h refl)
      from (inr ([], e)) = inl ((m.matches_static slash path slash-IsStatic).1 e)
      from (inr (c ∷ rest, e)) = inr (inl ((m.matches_below [] path tt).1 (c, rest, e)))

  prefix-IsServed :
      (p path : Bytes)
      → IsStatic p
      → p ≢ []
      → IsServed (p ∷ (p ++ slash) ∷ (p ++ catchall) ∷ []) path ↔ IsUnder p path
  prefix-IsServed p path h ne = (to, from)
    where
      closed : IsStatic (p ++ slash)
      closed = All-append (λ c. (c ≢ b'{') × (c ≢ b'}')) p slash h slash-IsStatic

      to : IsServed (p ∷ (p ++ slash) ∷ (p ++ catchall) ∷ []) path → IsUnder p path
      to (inl k) = inl (ne, (m.matches_static p path h).0 k)
      to (inr (inl k)) = inr ([], (m.matches_static (p ++ slash) path closed).0 k)
      to (inr (inr (inl k))) =
          let (c, rest, e) = (m.matches_below p path h).0 k in inr (c ∷ rest, e)
      to (inr (inr (inr k))) = elim k [ ]

      from : IsUnder p path → IsServed (p ∷ (p ++ slash) ∷ (p ++ catchall) ∷ []) path
      from (inl (_, e)) = inl ((m.matches_static p path h).1 e)
      from (inr ([], e)) = inr (inl ((m.matches_static (p ++ slash) path closed).1 e))
      from (inr (c ∷ rest, e)) = inr (inr (inl ((m.matches_below p path h).1 (c, rest, e))))

  below-IsServed :
      (p path : Bytes)
      → IsStatic p
      → IsServed
          (if is_empty p then slash ∷ catchall ∷ [] else p ∷ (p ++ slash) ∷ (p ++ catchall) ∷ [])
          path
        ↔ IsUnder p path
  below-IsServed [] path h = root-IsServed path
  below-IsServed (c ∷ p) path h = prefix-IsServed (c ∷ p) path h (λ e. cc)

  exact-IsServed : (p path : Bytes) → IsStatic p → IsServed (p ∷ []) path ↔ (path ≡ p)
  exact-IsServed p path h = (to, λ e. inl ((m.matches_static p path h).1 e))
    where
      to : IsServed (p ∷ []) path → path ≡ p
      to (inl k) = (m.matches_static p path h).0 k
      to (inr k) = elim k [ ]

-- What a route for `path` serves. A prefix is meant by its kind, or by `/*`, `/*path` or
-- `/*catchall` at its end.
abbrev pub IsMeant : Bytes → PathMatch → Bytes → Type 0
IsMeant path kind url =
    if is_exact kind && not (shorthand path).1
    then url ≡ pattern_base path
    else IsUnder (trim_end_matches b'/' (pattern_base path)) url

-- The patterns of a route whose path has no braces serve exactly what is meant: an exact path only
-- itself; a prefix itself, without the slashes at its end, and every path below it, the root alone
-- every path that starts with a slash.
pub expand_pattern_iff :
    (m : Patterns) (path url : Bytes) (kind : PathMatch)
    → IsStatic path
    → IsServed m (expand_pattern path kind) url ↔ IsMeant path kind url
unfolding expand_pattern
expand_pattern_iff m path url kind h =
    let base =
      pattern_base-All (λ c. (c ≢ b'{') × (c ≢ b'}')) path (λ e. omega arith, λ e. omega arith) h in
    elim (Bool-cases (is_exact kind && not (shorthand path).1)) [
      | inl e ↦ rw e (exact-IsServed m (pattern_base path) url base)
      | inr e ↦ rw e (
          below-IsServed m (trim_end_matches b'/' (pattern_base path)) url
            (trim_end_matches-All (λ c. (c ≢ b'{') × (c ≢ b'}')) b'/' (pattern_base path) base))
    ]
