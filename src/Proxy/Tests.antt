-- ===== src/Proxy/Tests.antt =====
-- Tests of the forwarding headers, and the theorems about them at concrete inputs.
use tuletorn.Common.{◌≡◌, refl, List, [], ◌∷◌, ◌++◌, if◌then◌else◌, arith}
use tuletorn.Common.Bytes.{Bytes, codes, bytes_eq, split, to_ascii_lowercase}
use tuletorn.Common.Bytes.Text.{trim}
use tuletorn.Http.Model.{model}
use tuletorn.Proxy.{
  connection_nominated, nominated_from_value, strip_hop_by_hop, append_forwarded_for,
  set_forwarded_proto,
}
use tuletorn.Proxy.Forwarded.{IsChain, further, append_all, append_all-IsChain}
use tuletorn.Proxy.Hop.{is_hop_by_hop, get_all-strip_hop_by_hop}

-- A request with a `Connection` header, and one value under every other name but the forwarding one.
abbrev request : Bytes → List Bytes
request n =
    if bytes_eq n (codes "connection")
    then codes "close, X-Trace ,, bad name" ∷ []
    else if bytes_eq n (codes "x-forwarded-for")
    then []
    else codes "v" ∷ []

stripped :
    (connection_nominated model request ≡ codes "x-trace" ∷ [])
    × (strip_hop_by_hop model request (codes "x-trace") ≡ [])
    × (strip_hop_by_hop model request (codes "te") ≡ [])
    × (strip_hop_by_hop model request (codes "close") ≡ codes "v" ∷ [])
unfolding strip_hop_by_hop connection_nominated nominated_from_value bytes_eq split trim
    to_ascii_lowercase
stripped = (refl, refl, refl, refl)

forwarded :
    (append_forwarded_for model
        (append_forwarded_for model request (codes "10.0.0.1"))
        (codes "10.0.0.2")
        (codes "x-forwarded-for")
      ≡ codes "10.0.0.1, 10.0.0.2" ∷ [])
    × (set_forwarded_proto model request (codes "http") (codes "x-forwarded-proto")
        ≡ codes "http" ∷ [])
unfolding append_forwarded_for set_forwarded_proto bytes_eq
forwarded = (refl, refl)

get_all-strip_hop_by_hop_example :
    (strip_hop_by_hop model request (codes "te")
      ≡ (if is_hop_by_hop model request (codes "te") then [] else codes "v" ∷ []))
    × (strip_hop_by_hop model (strip_hop_by_hop model request) (codes "te")
        ≡ strip_hop_by_hop model request (codes "te"))
unfolding bytes_eq
get_all-strip_hop_by_hop_example = get_all-strip_hop_by_hop model request (codes "te")

append_all-IsChain_example :
    IsChain model
      (codes "::1" ++ further model (codes "::2" ∷ []))
      request
      (append_all model (codes "::1" ∷ codes "::2" ∷ []) request)
unfolding bytes_eq
append_all-IsChain_example =
    append_all-IsChain model request (codes "::1") (codes "::2" ∷ []) refl (
      ((omega arith, omega arith), ((omega arith, omega arith), ((omega arith, omega arith), tt))),
      (
        (
          (omega arith, omega arith),
          ((omega arith, omega arith), ((omega arith, omega arith), tt)),
        ),
        tt,
      ),
    )
