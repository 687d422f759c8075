-- ===== src/Http/Listed.antt =====
-- A concrete `Messages`: a header map is an association list, and a URI is its parts.
use tuletorn.Common.{
  ◌≡◌, refl, Bool, true, false, not, ◌&&◌, Option, some, none, List, [], ◌∷◌, map, filter,
  if◌then◌else◌, any, arith, ◌==◌, ◌∙◌, ◌>>=◌,
}
use tuletorn.Common.Bytes.{Bytes, bytes_eq, bytes_eq_iff, bytes_keys, is_empty}
use tuletorn.Common.Map.{
  get, insert, remove, push_entry, get-insert, get-remove, get_list, get_list-push_entry,
}
use tuletorn.Http.{Http}
use tuletorn.Http.Messages.{Messages}
use tuletorn.Http.Model.{model_name, model_value, model_value_visible}

abbrev pub Entries : Type 0
Entries = List (Bytes × List Bytes)

pub values-insert :
    (h : Entries) (n v m : Bytes)
    → get_list m (insert n (v ∷ []) h) ≡ (if bytes_eq n m then v ∷ [] else get_list m h)
values-insert h n v m = rw (get_list, get-insert n m (v ∷ []) h) ground arith

pub values-remove :
    (h : Entries) (n m : Bytes)
    → get_list m (remove n h) ≡ (if bytes_eq n m then [] else get_list m h)
values-remove h n m = rw (get_list, get-remove n m h) ground arith

abbrev pub listed : Http
listed = record {
  HeaderName = Bytes;
  HeaderValue = Bytes;
  HeaderMap = Entries;
  name_eq = bytes_eq;
  name_eq_iff = bytes_eq_iff;
  name_from_bytes = model_name;
  value_from_str = model_value;
  to_str = λ v. some v;
  name_from_static = λ s. s;
  value_from_static = λ s. s;
  to_str-value_from_str = λ s h. (s, model_value_visible s h, refl);
  get_all = λ h n. get_list n h;
  insert = λ h n v. insert n (v ∷ []) h;
  append = λ h n v. push_entry n v h;
  remove = λ h n. remove n h;
  get_all-insert = values-insert;
  get_all-append = λ h n v m. get_list-push_entry n m v h;
  get_all-remove = values-remove;
}

abbrev pub has_value : Entries → Bytes → Bool
has_value h k = not (is_empty (get_list k h))

abbrev pub names : Entries → List Bytes
names h = map (λ e. e.0) h

any-filter :
    (p : Bytes → Bool) (n : Bytes) (ks : List Bytes)
    → any (λ k. bytes_eq k n) (filter p ks) ≡ (p n && any (λ k. bytes_eq k n) ks)
any-filter p n [] = ground arith
any-filter p n (k ∷ ks) = ground (arith, bytes_eq_iff k n, any-filter p n ks)

any-names :
    (h : Entries) (n : Bytes) → (has_value h n && any (λ k. bytes_eq k n) (names h)) ≡ has_value h n
unfolding get
any-names [] n = refl
any-names ((k, vs) ∷ h) n = ground (arith, any-names h n)

pub listed_keys :
    (h : Entries) (n : Bytes)
    → any (λ k. bytes_eq k n) (filter (has_value h) (names h)) ≡ not (is_empty (get_list n h))
listed_keys h n = any-filter (has_value h) n (names h) ∙ any-names h n

pub no_values : (n : Bytes) → get_list {V = Bytes} n [] ≡ []
unfolding get
no_values n = refl

-- The authority, and the path with the query.
abbrev pub Address : Type 0
Address = Option Bytes × Option Bytes

abbrev pub before_query : Bytes → Bytes
before_query [] = []
before_query (c ∷ s) = if c == b'?' then [] else c ∷ before_query s

abbrev pub behind_query : Bytes → Option Bytes
behind_query [] = none
behind_query (c ∷ s) = if c == b'?' then some s else behind_query s

abbrev pub rooted : Bytes → Option Bytes
rooted [] = none
rooted (c ∷ s) = if c == b'/' then some (c ∷ s) else none

abbrev pub messages : Messages listed
messages = record {
  Uri = Address;
  Authority = Bytes;
  PathAndQuery = Bytes;
  Version = Bool;
  host = λ u. u.0;
  path = λ u. elim u.1 [ none ↦ b'/' ∷ [] | some p ↦ before_query p ];
  query = λ u. u.1 >>= behind_query;
  path_and_query = λ u. u.1;
  authority = λ u. u.0;
  from_parts = λ a p. some (some a, some p);
  parse_uri = λ s. rooted s >>= λ p. some (none, some p);
  parse_authority = λ s. if any (λ c. c == b' ') s then none else some s;
  parse_path = rooted;
  authority_text = λ a. a;
  static_path = λ s. s;
  http_11 = false;
  http_2 = true;
  new_map = [];
  keys = λ h. filter (has_value h) (names h);
  from_parts_lem = λ a p. ((some a, some p), refl, refl, refl);
  from_static_lem = model_value_visible;
  get_all-new_map = no_values;
  keys_lem = listed_keys;
}
