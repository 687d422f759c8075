-- ===== src/Common/Map.antt =====
-- `HashMap` as an association list with a Boolean equality of keys: the entry that stands first counts.
use mathlib.Core.Path.{◌≡◌, refl, subst}
use mathlib.Core.Logic.{◌↔◌, inl, inr}
use mathlib.Core.Bool.{Bool, true, false}
use mathlib.Core.Option.{Option, none, some}
use mathlib.Core.List.{List, [], ◌∷◌, ◌++◌}
use native.Mathlib.Omega.{arith}
use tuletorn.Common.Tests.{if◌then◌else◌, Bool-cases}

-- Keys with a test of equality that decides it.
pub record Keys {ℓ} (K : Type ℓ) : Type ℓ where
  pub eq : K → K → Bool
  pub eq_iff : (j k : K) → (eq j k ≡ true) ↔ (j ≡ k)

module _ {ℓ κ} {K : Type ℓ} {V : Type κ} ⦃e : Keys K⦄ where
  unfoldable pub get : K → List (K × V) → Option V
  get k [] = none
  get k ((j, v) ∷ m) = if e.eq j k then some v else get k m

  unfoldable pub insert : K → V → List (K × V) → List (K × V)
  insert k v [] = (k, v) ∷ []
  insert k v ((j, w) ∷ m) = if e.eq j k then (k, v) ∷ m else (j, w) ∷ insert k v m

  unfoldable pub remove : K → List (K × V) → List (K × V)
  remove k [] = []
  remove k ((j, w) ∷ m) = let rest = remove k m in if e.eq j k then rest else (j, w) ∷ rest

  pub get-insert :
      (k j : K) (v : V) (m : List (K × V))
      → get j (insert k v m) ≡ (if e.eq k j then some v else get j m)
  unfolding get insert
  get-insert k j v [] = refl
  get-insert k j v ((i, w) ∷ m) =
      ground (arith, e.eq_iff k j, e.eq_iff i k, e.eq_iff i j, get-insert k j v m)

  pub get-remove :
      (k j : K) (m : List (K × V)) → get j (remove k m) ≡ (if e.eq k j then none else get j m)
  unfolding get remove
  get-remove k j [] = ground arith
  get-remove k j ((i, w) ∷ m) =
      ground (arith, e.eq_iff k j, e.eq_iff i k, e.eq_iff i j, get-remove k j m)

-- The values of an entry, if there is one, with more behind them.
abbrev pub extend {κ} : {V : Type κ} → Option (List V) → List V → Option (List V)
extend (some vs) ws = some (vs ++ ws)
extend none [] = none
extend none (w ∷ ws) = some (w ∷ ws)

module _ {ℓ κ} {K : Type ℓ} {V : Type κ} ⦃e : Keys K⦄ where
  -- Every key stands once.
  abbrev pub IsDistinct : List (K × V) → Type κ
  IsDistinct [] = Unit
  IsDistinct ((k, v) ∷ m) = (get k m ≡ none) × IsDistinct m

  pub insert-IsDistinct :
      (k : K) (v : V) (m : List (K × V)) → IsDistinct m → IsDistinct (insert k v m)
  unfolding insert get
  insert-IsDistinct k v [] h = (refl, tt)
  insert-IsDistinct k v ((i, w) ∷ m) (once, h) = elim (Bool-cases (e.eq i k)) [
    | inl same ↦
        let key : i ≡ k = (e.eq_iff i k).0 same in rw same (subst (λ j. get j m ≡ none) key once, h)
    | inr other ↦
        let apart : e.eq k i ≡ false = ground (arith, e.eq_iff k i, e.eq_iff i k) in
        rw other (rw (get-insert k i v m, apart) once, insert-IsDistinct k v m h)
  ]

-- `entry(key).or_default().push(value)` on a map of vectors.
module _ {ℓ κ} {K : Type ℓ} {V : Type κ} ⦃e : Keys K⦄ where
  unfoldable pub push_entry : K → V → List (K × List V) → List (K × List V)
  push_entry k v [] = (k, v ∷ []) ∷ []
  push_entry k v ((j, vs) ∷ m) =
      if e.eq j k then (j, vs ++ v ∷ []) ∷ m else (j, vs) ∷ push_entry k v m

  abbrev pub get_list : K → List (K × List V) → List V
  get_list k m = elim (get k m) [ none ↦ [] | some vs ↦ vs ]

  pub get_list-push_entry :
      (k j : K) (v : V) (m : List (K × List V))
      → get_list j (push_entry k v m) ≡ (if e.eq k j then get_list j m ++ v ∷ [] else get_list j m)
  unfolding get push_entry
  get_list-push_entry k j v [] = ground arith
  get_list-push_entry k j v ((i, w) ∷ m) =
      ground (arith, e.eq_iff k j, e.eq_iff i k, e.eq_iff i j, get_list-push_entry k j v m)

  pub get-push_entry :
      (k j : K) (v : V) (m : List (K × List V))
      → get j (push_entry k v m) ≡ (if e.eq k j then extend (get j m) (v ∷ []) else get j m)
  unfolding get push_entry
  get-push_entry k j v [] = ground arith
  get-push_entry k j v ((i, w) ∷ m) =
      ground (arith, e.eq_iff k j, e.eq_iff i k, e.eq_iff i j, get-push_entry k j v m)

  pub push_entry-IsDistinct :
      (k : K) (v : V) (m : List (K × List V)) → IsDistinct m → IsDistinct (push_entry k v m)
  unfolding push_entry get
  push_entry-IsDistinct k v [] h = (refl, tt)
  push_entry-IsDistinct k v ((i, w) ∷ m) (new, h) = elim (Bool-cases (e.eq i k)) [
    | inl same ↦ rw same (new, h)
    | inr other ↦
        let apart : e.eq k i ≡ false = ground (arith, e.eq_iff i k, e.eq_iff k i) in
        rw other (rw (get-push_entry k i v m, apart) new, push_entry-IsDistinct k v m h)
  ]
