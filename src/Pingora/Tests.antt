-- ===== src/Pingora/Tests.antt =====
-- Tests of the Pingora plane, and the theorems about it at concrete inputs.
use tuletorn.Common.{◌≡◌, refl, true, false, none, some, [], ◌∷◌}
use tuletorn.Common.Bytes.{Bytes, codes, bytes_eq}
use tuletorn.Filter.{RouteFilters, apply_request_headers, apply_response_headers}
use tuletorn.Http.Listed.{listed, messages, Address, Entries}
use tuletorn.Hyper.Tests.{sent}
use tuletorn.Pingora.{Headed, Requests, new_ctx}
use tuletorn.Pingora.Alike.{get_all-apply_filters, upstream_request_filter-prepare}
use tuletorn.Pingora.Phases.{
  to_backend, apply_request_filters, apply_response_filters, upstream_peer, upstream_request_filter,
}
use tuletorn.Plane.Model.{action_to, router, table_to, request, sent_request}
use tuletorn.RouteTable.Model.{scan}
use tuletorn.Simd.{other}

-- A header is the URI of a request and its header map.
abbrev headed : Headed listed
headed = record {
  Header = Address × Entries;
  headers = λ h. h.1;
  insert_header = λ h n v. (h.0, listed.insert h.1 n v);
  append_header = λ h n v. (h.0, listed.append h.1 n v);
  remove_header = λ h n. (h.0, listed.remove h.1 n);
  headers-insert = λ h n v. refl;
  headers-append = λ h n v. refl;
  headers-remove = λ h n. refl;
}

abbrev requests : Requests listed messages headed
requests = record { uri = λ h. h.0; set_uri = λ h v. (v, h.1); headers-set_uri = λ h v. refl }

abbrev header : Address × Entries
header = (request.uri, request.headers)

abbrev upstream_response : Address × Entries
upstream_response =
    ((none, none), (codes "server", codes "s" ∷ []) ∷ (codes "te", codes "t" ∷ []) ∷ [])

abbrev filters : RouteFilters listed
filters = (action_to (codes "/n")).filters

get_all-apply_filters_example :
    (listed.get_all
        (headed.headers (apply_request_filters listed messages headed filters header))
        (codes "x-gateway")
      ≡ listed.get_all (apply_request_headers listed filters header.1) (codes "x-gateway"))
    × (listed.get_all
          (headed.headers (apply_response_filters listed messages headed filters header))
          (codes "x-gateway")
        ≡ listed.get_all (apply_response_headers listed filters header.1) (codes "x-gateway"))
get_all-apply_filters_example =
    get_all-apply_filters listed messages headed filters header (codes "x-gateway")

upstream_request_filter-prepare_example :
    ((upstream_peer listed messages headed requests router scan other
        (table_to (codes "/n"))
        header
        new_ctx).0
      ≡ to_backend (codes "up:80"))
    × ((n : Bytes)
        → bytes_eq (codes "host") n ≡ false
        → listed.get_all
            (headed.headers (
              upstream_request_filter listed messages headed requests router scan other true
                (some (codes "1.1.1.1"))
                (table_to (codes "/n"))
                header))
            n
          ≡ listed.get_all sent_request.headers n)
upstream_request_filter-prepare_example =
    upstream_request_filter-prepare listed messages headed requests router scan other false true
      (codes "1.1.1.1") (codes "GET") true (table_to (codes "/n")) header new_ctx sent_request
      filters (codes "up:80") sent
