-- ===== src/Common/Bytes/Every.antt =====
-- What holds of every byte of a text holds of the bytes of its parts.
use Prim.Native.Nat.{ℕ, zero, suc}
use mathlib.Core.Logic.{inl, inr}
use mathlib.Core.Bool.{◌&&◌}
use mathlib.Core.Option
use mathlib.Core.Option.{Option, none, some}
use mathlib.Core.List.{[], ◌∷◌}
use tuletorn.Common.Bytes.{Bytes, is_empty, bytes_eq, strip_suffix, trim_end_matches}
use tuletorn.Common.Bytes.Text.{trim_ascii, trim_ascii_start, trim_ascii_end, is_ascii_whitespace}
use tuletorn.Common.Lists.{All, take, drop}
use tuletorn.Common.Tests.{◌==◌, Bool-cases, ◌<|>◌}

module _ (P : ℕ → Type 0) where
  abbrev pub Holds : Option Bytes → Type 0
  Holds none = Unit
  Holds (some r) = All P r

  pub strip_suffix-Holds : (suf s : Bytes) → All P s → Holds (strip_suffix suf s)
  unfolding strip_suffix
  strip_suffix-Holds suf [] h = elim (Bool-cases (bytes_eq suf [])) [
    | inl e ↦ rw e tt
    | inr e ↦ rw e tt
  ]
  strip_suffix-Holds suf (c ∷ s) (p, h) = elim (Bool-cases (bytes_eq suf (c ∷ s))) [
    | inl e ↦ rw e tt
    | inr e ↦ rw e (behind (strip_suffix suf s) (strip_suffix-Holds suf s h))
  ]
    where
      behind : (o : Option Bytes) → Holds o → Holds (Option.map (◌∷◌ c) o)
      behind none k = k
      behind (some r) k = (p, k)

  pub or_Holds : (a b : Option Bytes) → Holds a → Holds b → Holds (a <|> b)
  or_Holds none b h k = k
  or_Holds (some r) b h k = h

  pub trim_end_matches-All : (b : ℕ) (s : Bytes) → All P s → All P (trim_end_matches b s)
  unfolding trim_end_matches
  trim_end_matches-All b [] h = h
  trim_end_matches-All b (c ∷ s) (p, h) =
      elim (Bool-cases (is_empty (trim_end_matches b s) && c == b)) [
        | inl e ↦ rw e tt
        | inr e ↦ rw e (p, trim_end_matches-All b s h)
      ]

  pub take-All : (n : ℕ) (s : Bytes) → All P s → All P (take n s)
  take-All zero s h = tt
  take-All (suc n) [] h = h
  take-All (suc n) (c ∷ s) (p, h) = (p, take-All n s h)

  pub drop-All : (n : ℕ) (s : Bytes) → All P s → All P (drop n s)
  drop-All zero s h = h
  drop-All (suc n) [] h = h
  drop-All (suc n) (c ∷ s) (p, h) = drop-All n s h

  trim_ascii_start-All : (s : Bytes) → All P s → All P (trim_ascii_start s)
  unfolding trim_ascii_start
  trim_ascii_start-All [] h = h
  trim_ascii_start-All (c ∷ s) (p, h) = elim (Bool-cases (is_ascii_whitespace c)) [
    | inl e ↦ rw e (trim_ascii_start-All s h)
    | inr e ↦ rw e (p, h)
  ]

  trim_ascii_end-All : (s : Bytes) → All P s → All P (trim_ascii_end s)
  unfolding trim_ascii_end
  trim_ascii_end-All [] h = h
  trim_ascii_end-All (c ∷ s) (p, h) =
      elim (Bool-cases (is_empty (trim_ascii_end s) && is_ascii_whitespace c)) [
        | inl e ↦ rw e tt
        | inr e ↦ rw e (p, trim_ascii_end-All s h)
      ]

  pub trim_ascii-All : (s : Bytes) → All P s → All P (trim_ascii s)
  unfolding trim_ascii
  trim_ascii-All s h = trim_ascii_end-All (trim_ascii_start s) (trim_ascii_start-All s h)
