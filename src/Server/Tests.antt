-- ===== src/Server/Tests.antt =====
-- Tests of the server, and the theorems about it at concrete inputs.
use tuletorn.Common.{◌≡◌, refl, true, false, none, some, [], ◌∷◌, ◌++◌, arith}
use tuletorn.Common.Bytes.{Bytes, codes, bytes_eq}
use tuletorn.Http.Listed.{listed, messages}
use tuletorn.Http1.{fixed, empty, RequestHead}
use tuletorn.Http1.Model.{plain}
use tuletorn.Hyper.{prepare}
use tuletorn.Plane.Model.{router, table_to, request}
use tuletorn.RouteTable.Model.{scan}
use tuletorn.Server.{path_of, split_target, grow_for_read, body_prefix_len}
use tuletorn.Server.Answered.{IsAnswer, relay_response-IsAnswer}
use tuletorn.Server.Connection.{read_request_head, forward_body, pipelined}
use tuletorn.Server.Connection.Heads.{IsHeadRead, read_request_head-IsHeadRead}
use tuletorn.Server.Connection.Pipelined.{IsForwarded, forward_body-IsForwarded}
use tuletorn.Server.Exact.{IsReliable}
use tuletorn.Server.Http2.{h2_prepare, IsAlike, h2_prepare-IsAlike}
use tuletorn.Server.Model.{Pipe, pipe}
use tuletorn.Server.Preface.{detect_h2, h2_preface, prefixed, poll_read}
use tuletorn.Server.Response.{relay_response}
use tuletorn.Simd.{other, position}

abbrev sends : Bytes → Pipe
sends b = record { incoming = b; outgoing = [] }

grown :
    (grow_for_read 0 0 ≡ 4096)
    × (grow_for_read 4096 4096 ≡ 8192)
    × (grow_for_read 65536 65536 ≡ 98304)
    × (grow_for_read 65536 0 ≡ 65536)
unfolding grow_for_read
grown = (refl, refl, refl, refl)

targets :
    (path_of scan (codes "/api/v1?x=1&y=2") ≡ codes "/api/v1")
    × (split_target scan (codes "/a/b?c=d") ≡ (codes "/a/b", some (codes "c=d")))
    × (split_target scan (codes "/a?") ≡ (codes "/a", some []))
    × (split_target scan (codes "/a/b") ≡ (codes "/a/b", none))
unfolding path_of split_target position
targets = (refl, refl, refl, refl)

detected :
    (detect_h2 h2_preface ≡ some true)
    × (detect_h2 (codes "GET / HTTP/1.1") ≡ some false)
    × (detect_h2 (codes "PRI * HT") ≡ none)
    × (detect_h2 (codes "PRI * HTTX") ≡ some false)
unfolding detect_h2 bytes_eq
detected = (refl, refl, refl, refl)

abbrev post : RequestHead
post = record {
  head_len = 2;
  method = codes "POST";
  target = codes "/";
  host = none;
  body = fixed 3;
  close_requested = false;
  target_span = (0, 1);
}

moved :
    (pipelined post (codes "hhabcGET") ≡ codes "GET")
    × (pipelined post (codes "hhab") ≡ [])
    × (pipelined (record post { body = empty }) (codes "hhGET") ≡ codes "GET")
unfolding pipelined body_prefix_len
moved = (refl, refl, refl)

abbrev reliable : IsReliable Pipe pipe
reliable = (λ want s. refl, λ b s. refl)

forward_body-IsForwarded_example :
    IsForwarded plain pipe post
      (codes "hhab")
      (sends (codes "cGET"))
      (sends [])
      (forward_body plain pipe 5 (fixed 3) (codes "ab") 4096 (sends (codes "cGET")) (sends []))
forward_body-IsForwarded_example =
    forward_body-IsForwarded plain pipe 5 post (codes "hhab") 4096 (sends (codes "cGET")) (sends [])
      (omega arith) (λ e. cc) (omega arith)

abbrev answer : Bytes
answer =
    codes "HTTP/1.1 200 OK"
    ++ (13 ∷ 10 ∷ (codes "Content-Length: 3" ++ (13 ∷ 10 ∷ 13 ∷ 10 ∷ codes "abc")))

relay_response-IsAnswer_example :
    IsAnswer plain pipe
      (codes "GET")
      (λ n. [])
      true
      (sends answer)
      (sends [])
      (relay_response pipe plain (λ n. []) 60 (codes "GET") true (sends answer) (sends []))
relay_response-IsAnswer_example =
    relay_response-IsAnswer plain pipe (codes "GET") (λ n. []) 60 true (sends answer) (sends [])
      (omega arith)

abbrev asks : Bytes
asks = codes "GET / HTTP/1.1" ++ (13 ∷ 10 ∷ 13 ∷ 10 ∷ [])

read_request_head-IsHeadRead_example :
    IsHeadRead plain pipe
      (λ n. [])
      []
      (sends asks)
      (read_request_head plain pipe (λ n. []) 65537 0 [] 0 (sends asks))
read_request_head-IsHeadRead_example =
    read_request_head-IsHeadRead plain pipe (λ n. []) 65537 0 [] 0 (sends asks) (omega arith)
      (omega arith) (omega arith)

replayed : poll_read pipe 3 (prefixed (codes "PRI *") (sends (codes "x"))) ≡ (
  some (codes "PRI"),
  record { prefix = codes "PRI *"; position = 3; inner = sends (codes "x") },
)
unfolding poll_read
replayed = refl

h2_prepare-IsAlike_example :
    IsAlike listed messages
      (prepare listed messages router scan other false true
        (codes "1.1.1.1")
        (table_to (codes "n"))
        request)
      (h2_prepare listed messages router scan other true
        (codes "1.1.1.1")
        (table_to (codes "n"))
        request)
h2_prepare-IsAlike_example =
    h2_prepare-IsAlike listed messages router scan other true (codes "1.1.1.1")
      (table_to (codes "n")) request
