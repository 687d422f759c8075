-- ===== src/Http.antt =====
-- The part of the third-party crate `http` that the program relies on: header names, header values
-- and the multimap between them, as a parameter with its documented behaviour. A `HeaderMap` keeps
-- the values of each name in order.
pub mod Model
pub mod Messages
pub mod Listed
use tuletorn.Common.{
  ℕ, ◌≡◌, ◌↔◌, Bool, true, Option, List, [], ◌∷◌, ◌++◌, if◌then◌else◌, none, some, All, ◌≤◌, ◌<◌,
}
use tuletorn.Common.Bytes.{Bytes}

abbrev pub IsVisible : ℕ → Type 0
IsVisible c = (32 ≤ c) × (c < 127)

pub record Http : Type 1 where
  pub HeaderName : Type 0
  pub HeaderValue : Type 0
  pub HeaderMap : Type 0
  pub name_eq : HeaderName → HeaderName → Bool
  pub name_eq_iff : (m n : HeaderName) → (name_eq m n ≡ true) ↔ (m ≡ n)
  -- `HeaderName::from_bytes(..).ok()`, `HeaderValue::from_str(..).ok()`, `HeaderValue::to_str(..).ok()`
  pub name_from_bytes : Bytes → Option HeaderName
  pub value_from_str : Bytes → Option HeaderValue
  pub to_str : HeaderValue → Option Bytes
  -- `HeaderName::from_static(..)`, `HeaderValue::from_static(..)`
  pub name_from_static : Bytes → HeaderName
  pub value_from_static : Bytes → HeaderValue
  pub get_all : HeaderMap → HeaderName → List HeaderValue
  pub insert : HeaderMap → HeaderName → HeaderValue → HeaderMap
  pub append : HeaderMap → HeaderName → HeaderValue → HeaderMap
  pub remove : HeaderMap → HeaderName → HeaderMap
  -- A text of visible ASCII characters is a value, and reads back as it was.
  pub to_str-value_from_str :
      (s : Bytes)
      → All IsVisible s
      → (v : HeaderValue) × (value_from_str s ≡ some v) × (to_str v ≡ some s)
  -- `insert` replaces the values of a name, `append` adds one behind them, `remove` drops them.
  pub get_all-insert :
      (h : HeaderMap) (n : HeaderName) (v : HeaderValue) (m : HeaderName)
      → get_all (insert h n v) m ≡ (if name_eq n m then v ∷ [] else get_all h m)
  pub get_all-append :
      (h : HeaderMap) (n : HeaderName) (v : HeaderValue) (m : HeaderName)
      → get_all (append h n v) m ≡ (if name_eq n m then get_all h m ++ v ∷ [] else get_all h m)
  pub get_all-remove :
      (h : HeaderMap) (n m : HeaderName)
      → get_all (remove h n) m ≡ (if name_eq n m then [] else get_all h m)

-- `HeaderMap::get`: the first value of a name.
abbrev pub first_value {ℓ} : {V : Type ℓ} → List V → Option V
first_value [] = none
first_value (v ∷ vs) = some v
