-- ===== src/Http1/Tests.antt =====
-- Tests of the heads, and the theorems about them at concrete inputs.
use tuletorn.Common.{◌≡◌, refl, true, false, some, [], ◌∷◌, ◌++◌, arith, take, any}
use tuletorn.Common.Bytes.{
  Bytes, codes, split, bytes_eq, strip_prefix, strip_suffix, to_ascii_lowercase,
}
use tuletorn.Common.Bytes.Text.{
  find_sub, parse_digits, parse_u64, trim_ascii, trim_ascii_start, trim_ascii_end, trim,
  eq_ignore_case,
}
use tuletorn.Http1.{
  fixed, empty, RequestHead, ResponseHead, complete, partial, invalid, RawRequest, done,
  max_headers,
}
use tuletorn.Http1.Forward.{forwarded_head}
use tuletorn.Http1.Withheld.{last_forwarded}
use tuletorn.Http1.Framed.{
  IsRequest, IsResponse, parse_request-IsRequest, parse_response-IsResponse,
}
use tuletorn.Http1.Heads.{split_header_lines-write_forward_head}
use tuletorn.Http1.Model.{plain, read_head, raw_request, raw_response, header_of}
use tuletorn.Http1.Parse.{
  ends_chunked, disposition, is_bodyless, response_body, scan_shared, scan_request_header,
  scan_request, scan_response, finish_request, read_request, parse_request, read_response,
  parse_response,
}
use tuletorn.Http1.Refused.{is_bad_length, parse_request-bad}
use tuletorn.Http1.Returned.{split_header_lines-write_return_head, returned_lines, disposition_line}
use tuletorn.Http1.Write.{
  crlf, strip_cr, split_header_lines, eq_ci, is_hop_by_hop, connection_nominated, headers_start,
  fate, write_forward_head, write_return_head,
}
use tuletorn.Simd.{position, find_byte, eq_ignore_ascii_case}

abbrev line : Bytes → Bytes
line s = s ++ crlf

abbrev request : Bytes
request =
    line (codes "POST /a?b=c HTTP/1.1")
    ++ (line (codes "Host: x.y")
        ++ (line (codes "Content-Length: 5")
            ++ (line (codes "X-Forwarded-For: 1.1.1.1")
                ++ (line (codes "Connection: x-t, close")
                    ++ (line (codes "X-T: 1")
                        ++ (line (codes "A: b") ++ (crlf ++ codes "12345")))))))

abbrev request_head : RequestHead
request_head = record {
  head_len = 118;
  method = codes "POST";
  target = codes "/a?b=c";
  host = some (codes "x.y");
  body = fixed 5;
  close_requested = true;
  target_span = (5, 11);
}

request_parsed : parse_request plain request ≡ complete request_head
unfolding parse_request read_request finish_request scan_request scan_request_header scan_shared
    ends_chunked disposition trim eq_ignore_case bytes_eq to_ascii_lowercase split strip_suffix
    strip_prefix strip_cr split_header_lines find_sub parse_digits parse_u64 read_head raw_request
    header_of position trim_ascii trim_ascii_start trim_ascii_end
request_parsed = refl

abbrev response : Bytes
response =
    line (codes "HTTP/1.1 200 OK")
    ++ (line (codes "Content-Length: 3") ++ (line (codes "Keep-Alive: 5") ++ (crlf ++ codes "abc")))

abbrev response_head : ResponseHead
response_head = record { head_len = 53; status = 200; body = fixed 3; close_requested = false }

response_parsed :
    (parse_response plain response (codes "GET") ≡ complete response_head)
    × (parse_response plain response (codes "head")
        ≡ complete (record response_head { body = empty }))
    × (parse_response plain (take 20 response) (codes "GET") ≡ partial)
unfolding parse_response read_response scan_response response_body is_bodyless scan_shared
    ends_chunked disposition trim eq_ignore_case bytes_eq to_ascii_lowercase split strip_suffix
    strip_prefix strip_cr split_header_lines find_sub parse_digits parse_u64 read_head raw_response
    header_of position trim_ascii trim_ascii_start trim_ascii_end
response_parsed = (refl, refl, refl)

forwarded :
    forwarded_head plain request request_head (codes "/z") (codes "up:80") (some (codes "2.2.2.2"))
    ≡ codes "POST /z HTTP/1.1"
      ∷ codes "Content-Length: 5"
      ∷ codes "A: b"
      ∷ codes "Host: up:80"
      ∷ codes "X-Forwarded-For: 1.1.1.1, 2.2.2.2"
      ∷ codes "X-Forwarded-Proto: http"
      ∷ []
unfolding split_header_lines strip_cr split strip_suffix bytes_eq headers_start connection_nominated
    fate is_hop_by_hop eq_ci eq_ignore_ascii_case find_byte position find_sub strip_prefix
    trim_ascii trim_ascii_start trim_ascii_end to_ascii_lowercase last_forwarded
forwarded = refl

split_header_lines-write_forward_head_example :
    split_header_lines (
      write_forward_head plain request request_head
        (codes "/z")
        (codes "up:80")
        (some (codes "2.2.2.2")))
    ≡ forwarded_head plain request request_head
        (codes "/z")
        (codes "up:80")
        (some (codes "2.2.2.2"))
split_header_lines-write_forward_head_example =
    split_header_lines-write_forward_head plain request request_head (codes "/z") (codes "up:80")
      (some (codes "2.2.2.2")) (omega arith) (omega arith) (omega arith) (omega arith)

first_end : find_sub (take 53 response) crlf ≡ some 15
unfolding find_sub strip_prefix
first_end = refl

split_header_lines-write_return_head_example :
    split_header_lines (write_return_head plain response response_head true)
    ≡ split_header_lines (take 17 response)
      ++ (returned_lines plain response response_head ++ disposition_line true ∷ [])
split_header_lines-write_return_head_example =
    split_header_lines-write_return_head plain response response_head true 15 first_end

parse_request-IsRequest_example : IsRequest plain request request_head
parse_request-IsRequest_example = parse_request-IsRequest plain request request_head request_parsed

parse_response-IsResponse_example : IsResponse plain response (codes "GET") response_head
parse_response-IsResponse_example =
    parse_response-IsResponse plain response (codes "GET") response_head response_parsed.0

abbrev bad_request : Bytes
bad_request =
    line (codes "GET / HTTP/1.1") ++ (line (codes "Content-Length: 18446744073709551616") ++ crlf)

abbrev bad_raw : RawRequest
bad_raw = record {
  method = some (codes "GET");
  path = some (codes "/");
  version = some 1;
  headers = (codes "Content-Length", codes "18446744073709551616") ∷ [];
}

bad_read : plain.request_parser max_headers bad_request ≡ done 56 bad_raw
unfolding read_head raw_request header_of split split_header_lines strip_cr strip_suffix bytes_eq
    position find_sub strip_prefix trim_ascii trim_ascii_start trim_ascii_end
bad_read = refl

bad_length : any (is_bad_length plain) bad_raw.headers ≡ true
unfolding eq_ignore_case to_ascii_lowercase bytes_eq parse_u64 parse_digits trim
bad_length = refl

parse_request-bad_example : parse_request plain bad_request ≡ invalid
parse_request-bad_example = parse_request-bad plain bad_request 56 bad_raw bad_read bad_length
