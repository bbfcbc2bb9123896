-- ===== src/Tests/Answers.antt =====
-- A run of the client, with dates that are whole numbers.
use nanonet.Common.{◌≡◌, refl, some, List, ◌∷◌, [], ◌++◌, Bytes, codes, throws, pos}
use nanonet.Lexer.{is_space}
use nanonet.Http.Responses.{
  date_of, write_http_header_200, write_http_header_404, default_server_identification,
}
use nanonet.Http.Requests.{parse_get_request, no_colon}
use nanonet.Http.Client.{answer_body, request_text, lines_of, default_user_agent}
use nanonet.Http.Client.Exchange.{answer_body-write_http_header}
use nanonet.Http.Client.Refused.{IsRequest, parse_get_request-request_text}
use nanonet.Tests.Integers.{integers}
use nanonet.Tests.Requests.{split, split-Splits}

abbrev dates : integers.Double → Bytes
dates t = codes "2026-11-25T00:00:00Z"

answer_body-write_http_header_example :
    (answer_body (
        write_http_header_200 integers (pos 5) dates (codes "text/html") (pos 1) (codes "KISS")
        ++ codes "hello\n\nworld")
      ≡ some (codes "hello\n\nworld"))
    × (answer_body (
          write_http_header_404 integers (pos 5) dates (codes "gone") (pos 1) (codes "KISS")
          ++ codes "hello\n\nworld")
        ≡ some (codes "hello\n\nworld"))
answer_body-write_http_header_example =
    answer_body-write_http_header integers (pos 5) dates (codes "text/html") (codes "gone")
      (codes "KISS") (codes "hello\n\nworld") (pos 1) refl refl refl (unfold date_of in refl)

written :
    write_http_header_404 integers
      (pos 5)
      dates
      (codes "gone")
      (pos 1)
      default_server_identification
    ≡ codes
        "HTTP/1.1 404 Not Found (gone)\r\nDate: 2026-11-25T00:00:00Z\r\nServer: KISS/CPL httpd/0.9.1 (Linux)\r\nConnection: close\r\n\r\n"
unfolding write_http_header_404 default_server_identification
written = refl

first-IsRequest : IsRequest (codes "/a") (codes "h") (codes "80") (codes "me") default_user_agent
unfolding default_user_agent
first-IsRequest = record {
  path_is_word = unfold is_space in (refl, (refl, tt));
  plain_host = refl;
  plain_port = refl;
  plain_from = refl;
  plain_user_agent = refl;
  from_starts = refl;
  host_starts = refl;
  user_agent_starts = refl;
}

parse_get_request-request_text_example :
    (first : Bytes) × (others : List Bytes) × (lines_of
        (request_text (codes "/a") (codes "h") (codes "80") (codes "me") default_user_agent)
      ≡ first ∷ others)
    × (parse_get_request split first others ≡ throws (no_colon (b'\r' ∷ [])))
parse_get_request-request_text_example =
    parse_get_request-request_text first-IsRequest split split-Splits
