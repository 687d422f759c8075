-- ===== src/Hyper/Tests.antt =====
-- Tests of the Hyper plane, and the theorems about it at concrete inputs.
use tuletorn.Common.{◌≡◌, refl, true, false}
use tuletorn.Common.Bytes.{Bytes, codes, bytes_eq, split, strip_suffix, to_ascii_lowercase}
use tuletorn.Common.Bytes.Text.{trim}
use tuletorn.Common.Map.{get, insert, remove}
use tuletorn.Filter.{rewrites_path, apply_url_rewrite, apply_request_headers}
use tuletorn.Http.Listed.{listed, messages}
use tuletorn.Hyper.{upstream_path, prepare}
use tuletorn.Hyper.Prepare.{IsPrepared, prepare-IsPrepared}
use tuletorn.Plane.{Prepared, bad_path, sends, request_headers, set_host}
use tuletorn.Plane.Model.{action_to, router, table_to, request, sent_request}
use tuletorn.Proxy.{
  strip_hop_by_hop, append_forwarded_for, set_forwarded_proto, connection_nominated,
  nominated_from_value,
}
use tuletorn.RouteTable.{lookup}
use tuletorn.RouteTable.Model.{scan}
use tuletorn.Simd.{other, position}
use tuletorn.Target.{select}

abbrev pub prepared : (path : Bytes) → Prepared listed messages
prepared path =
    prepare listed messages router scan other false true (codes "1.1.1.1") (table_to path) request

refused : prepared (codes "n") ≡ bad_path
unfolding prepare lookup select upstream_path rewrites_path apply_url_rewrite bytes_eq get position
    strip_suffix
refused = refl

pub sent :
    prepared (codes "/n") ≡ sends sent_request (action_to (codes "/n")).filters (codes "up:80")
unfolding prepare lookup select upstream_path rewrites_path apply_url_rewrite bytes_eq get
    request_headers strip_hop_by_hop append_forwarded_for set_forwarded_proto apply_request_headers
    set_host insert remove connection_nominated nominated_from_value split trim to_ascii_lowercase
    position strip_suffix
sent = refl

prepare-IsPrepared_example :
    IsPrepared listed messages router scan other
      (table_to (codes "/n"))
      request
      false
      true
      (codes "1.1.1.1")
      (prepared (codes "/n"))
prepare-IsPrepared_example =
    prepare-IsPrepared listed messages router scan other false true (codes "1.1.1.1")
      (table_to (codes "/n")) request
