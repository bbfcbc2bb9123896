-- ===== src/Http/Responses.antt =====
-- The headers of answers in src/http.cpp. Each function gives the text that it writes. The time of the
-- system and the format of dates, of the C library, are parameters.
use nanonet.Common.{Bytes, [], ◌∷◌, ◌++◌, codes, if◌then◌else◌}
use nanonet.Double.{Floats}

-- `endl`, also the `newline` of the client.
abbrev pub endl : Bytes
endl = b'\r' ∷ b'\n' ∷ []

unfoldable pub default_server_identification : Bytes
default_server_identification = codes "KISS/CPL httpd/0.9.1 (Linux)"

unfoldable pub write_content_type : Bytes → Bytes → Bytes
write_content_type ct cs = (codes "Content-Type: " ++ ct ++ codes "; charset=" ++ cs) ++ endl

pub write_content_type_json : Bytes → Bytes
unfolding write_content_type
write_content_type_json cs = write_content_type (codes "application/json") cs

pub write_content_type_text : Bytes → Bytes
unfolding write_content_type
write_content_type_text cs = write_content_type (codes "text/plain") cs

pub write_content_type_csv : Bytes → Bytes
unfolding write_content_type
write_content_type_csv cs = write_content_type (codes "text/csv") cs

unfoldable pub write_connection : Bytes → Bytes
write_connection what = (codes "Connection: " ++ what) ++ endl

unfoldable pub write_server : Bytes → Bytes
write_server server = (codes "Server: " ++ server) ++ endl

module _ (fl : Floats) (utc : fl.Double) (format_datetime : fl.Double → Bytes) where
  -- The date of `write_date`.
  unfoldable pub date_of : fl.Double → Bytes
  date_of now = format_datetime (if fl.lt now fl.origin then utc else now)

  unfoldable pub write_date : fl.Double → Bytes
  unfolding date_of
  write_date now = (codes "Date: " ++ date_of now) ++ endl

  unfoldable pub write_http_header_200 : Bytes → fl.Double → Bytes → Bytes
  unfolding write_date write_server write_connection write_content_type
  write_http_header_200 ct now server_id =
      codes "HTTP/1.1 200 OK"
      ++ endl
      ++ write_date now
      ++ write_server server_id
      ++ write_connection (codes "close")
      ++ write_content_type ct (codes "utf-8")
      ++ endl

  unfoldable pub write_http_header_404 : Bytes → fl.Double → Bytes → Bytes
  unfolding write_date write_server write_connection
  write_http_header_404 reason now server_id =
      (codes "HTTP/1.1 404 Not Found (" ++ reason ++ codes ")")
      ++ endl
      ++ write_date now
      ++ write_server server_id
      ++ write_connection (codes "close")
      ++ endl
