-- ===== src/RouteTable/Model.antt =====
-- A concrete router over patterns that are static or end in a catch-all.
use tuletorn.Common.{
  ℕ, ◌≡◌, ◌↔◌, refl, ap, sym, subst, inl, inr, Bool, true, false, Option, none, some, List, [], ◌∷◌,
  ◌++◌, if◌then◌else◌, arith, Bool-cases, length, length-append,
}
use tuletorn.Common.Bytes.{Bytes, bytes_eq, bytes_eq_iff, bytes_keys, strip_prefix, strip_suffix}
use tuletorn.Common.Map.{get}
use tuletorn.RouteTable.Pattern.{catchall}
use tuletorn.RouteTable.Prefix.{IsStatic, Patterns}
use tuletorn.RouteTable.Trie.{Matchit}
use tuletorn.Simd.{Memchr, position}

-- A search that reads byte after byte.
abbrev pub scan : Memchr
scan = record { memchr = position; memchr_lem = λ b s. refl }

strip_suffix_static : (s : Bytes) → IsStatic s → strip_suffix catchall s ≡ none
unfolding strip_suffix bytes_eq
strip_suffix_static [] h = refl
strip_suffix_static (c ∷ s) (p, h) = elim (Bool-cases (bytes_eq catchall (c ∷ s))) [
  | inl e ↦ absurd (unlike (c ∷ s) (p, h) ((bytes_eq_iff catchall (c ∷ s)).0 e))
  | inr e ↦ rw e (rw (strip_suffix_static s h))
]
  where
    unlike : (t : Bytes) → IsStatic t → catchall ≡ t → ⊥
    unlike t k e = (subst IsStatic (sym e) k).1.0.0 refl

strip_suffix-append : (p : Bytes) → strip_suffix catchall (p ++ catchall) ≡ some p
unfolding strip_suffix bytes_eq
strip_suffix-append [] = refl
strip_suffix-append (c ∷ p) = elim (Bool-cases (bytes_eq catchall (c ∷ (p ++ catchall)))) [
  | inl e ↦ absurd (longer ((bytes_eq_iff catchall (c ∷ (p ++ catchall))).0 e))
  | inr e ↦ rw e (rw (strip_suffix-append p))
]
  where
    longer : catchall ≡ c ∷ (p ++ catchall) → ⊥
    longer e =
        let same : length catchall ≡ length (c ∷ (p ++ catchall)) = ap length e in
        omega (arith, length-append p catchall)

-- What a pattern matches: with the catch-all at its end a non-empty text behind the slash, else itself.
pub Matched : Option Bytes → Bytes → Bytes → Type 0
Matched none p path = path ≡ p
Matched (some q) p path = (c : ℕ) × (rest : Bytes) × (path ≡ q ++ b'/' ∷ c ∷ rest)

pub Matched-static :
    (p path : Bytes) → IsStatic p → Matched (strip_suffix catchall p) p path ↔ (path ≡ p)
unfolding Matched
Matched-static p path h = rw (strip_suffix_static p h) (λ e. e, λ e. e)

pub Matched-below :
    (p path : Bytes)
    → Matched (strip_suffix catchall (p ++ catchall)) (p ++ catchall) path
      ↔ ((c : ℕ) × (rest : Bytes) × (path ≡ p ++ b'/' ∷ c ∷ rest))
unfolding Matched
Matched-below p path = rw (strip_suffix-append p) (λ e. e, λ e. e)

abbrev pub patterns : Patterns
patterns = record {
  Matches = λ p path. Matched (strip_suffix catchall p) p path;
  matches_static = Matched-static;
  matches_below = λ p path h. Matched-below p path;
}

-- A router as a list of patterns, of which the first that matches counts.
abbrev pub pattern_serves : Bytes → Bytes → Bool
pattern_serves p path = elim (strip_suffix catchall p) [
  | none ↦ bytes_eq p path
  | some q ↦ elim (strip_prefix (q ++ b'/' ∷ []) path) [
    | none ↦ false
    | some [] ↦ false
    | some (c ∷ rest) ↦ true
  ]
]

abbrev pub find_pattern {ℓ} : {A : Type ℓ} → List (Bytes × A) → Bytes → Option A
find_pattern [] path = none
find_pattern ((p, a) ∷ rs) path = if pattern_serves p path then some a else find_pattern rs path

abbrev pub trie : (A : Type 0) → Matchit A
trie A = record {
  Router = List (Bytes × A);
  new = [];
  insert = λ rs p a. elim (get p rs) [ some _ ↦ none | none ↦ some (rs ++ (p, a) ∷ []) ];
  at = find_pattern;
}
