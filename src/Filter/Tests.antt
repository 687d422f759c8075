-- ===== src/Filter/Tests.antt =====
-- Tests of the filters, and the theorems about them at concrete inputs.
use tuletorn.Common.{◌≡◌, refl, some, none, List, [], ◌∷◌}
use tuletorn.Common.Bytes.{
  Bytes, codes, bytes_eq, to_ascii_lowercase, strip_prefix, trim_end_matches,
}
use tuletorn.Http.Model.{model}
use tuletorn.Filter.{
  HeaderModifier, prefix, exact, new, apply_request_headers, apply_response_headers,
  apply_url_rewrite, rewrite,
}
use tuletorn.Filter.Headers.{effects, get_all-apply_headers}

abbrev modifiers : List HeaderModifier
modifiers =
    HeaderModifier.set (codes "X-Set") (codes "new")
    ∷ HeaderModifier.set (codes "bad name") (codes "v")
    ∷ HeaderModifier.add (codes "x-set") (codes "more")
    ∷ HeaderModifier.remove (codes "x-drop")
    ∷ []

-- One old value under every name.
abbrev headers : Bytes → List Bytes
headers n = codes "old" ∷ []

applied :
    (apply_request_headers model (new model modifiers [] none) headers (codes "x-set")
      ≡ codes "new" ∷ codes "more" ∷ [])
    × (apply_request_headers model (new model modifiers [] none) headers (codes "x-drop") ≡ [])
    × (apply_response_headers model (new model modifiers [] none) headers (codes "x-drop")
        ≡ codes "old" ∷ [])
unfolding apply_request_headers apply_response_headers new bytes_eq to_ascii_lowercase
applied = (refl, refl, refl)

rewritten :
    (apply_url_rewrite model
        (new model [] [] (some (prefix (codes "/api") (codes "/v2/"))))
        (codes "/api/users")
      ≡ codes "/v2/users")
    × (apply_url_rewrite model
          (new model [] [] (some (prefix (codes "/api") (codes "/"))))
          (codes "/api")
        ≡ codes "/")
    × (apply_url_rewrite model (new model [] [] (some (exact (codes "/fixed")))) (codes "/any")
        ≡ codes "/fixed")
unfolding apply_url_rewrite new trim_end_matches rewrite strip_prefix
rewritten = (refl, refl, refl)

get_all-apply_headers_example :
    (apply_request_headers model (new model modifiers [] none) headers (codes "x-set")
      ≡ effects model (codes "x-set") modifiers (codes "old" ∷ []))
    × (apply_response_headers model (new model modifiers [] none) headers (codes "x-set")
        ≡ effects model (codes "x-set") [] (codes "old" ∷ []))
get_all-apply_headers_example =
    get_all-apply_headers model modifiers [] none headers (codes "x-set")
