-- ===== src/Http/Model.antt =====
-- A concrete `Http`: names are lower-case byte strings without spaces, and a map is a function from
-- names to their values.
use tuletorn.Common.{
  refl, Option, some, none, List, [], ◌∷◌, ◌++◌, ◌||◌, if◌then◌else◌, any, ◌==◌, ltb, All, ◌≡◌,
  false, arith,
}
use tuletorn.Common.Bytes.{Bytes, bytes_eq, bytes_eq_iff, is_empty, to_ascii_lowercase}
use tuletorn.Http.{Http, IsVisible}

abbrev pub model_name : Bytes → Option Bytes
model_name s = if is_empty s || any (λ c. c == b' ') s then none else some (to_ascii_lowercase s)

abbrev pub model_value : Bytes → Option Bytes
model_value s = if any (λ c. ltb c b' ') s then none else some s

visible_not_any : (s : Bytes) → All IsVisible s → any (λ c. ltb c b' ') s ≡ false
visible_not_any [] h = refl
visible_not_any (c ∷ s) ((low, high), h) =
    let bound : ltb c b' ' ≡ false = ground arith in rw bound (visible_not_any s h)

pub model_value_visible : (s : Bytes) → All IsVisible s → model_value s ≡ some s
model_value_visible s h = rw (visible_not_any s h)

abbrev pub model : Http
model = record {
  HeaderName = Bytes;
  HeaderValue = Bytes;
  HeaderMap = Bytes → List Bytes;
  name_eq = bytes_eq;
  name_eq_iff = bytes_eq_iff;
  name_from_bytes = model_name;
  value_from_str = model_value;
  to_str = λ v. some v;
  name_from_static = λ s. s;
  value_from_static = λ s. s;
  to_str-value_from_str = λ s h. (s, model_value_visible s h, refl);
  get_all = λ h n. h n;
  insert = λ h n v m. if bytes_eq n m then v ∷ [] else h m;
  append = λ h n v m. if bytes_eq n m then h m ++ v ∷ [] else h m;
  remove = λ h n m. if bytes_eq n m then [] else h m;
  get_all-insert = λ h n v m. refl;
  get_all-append = λ h n v m. refl;
  get_all-remove = λ h n m. refl;
}
