-- ===== src/Examples/Upgrades.antt =====
-- Requests for the script, and a web socket that is closed as soon as it is connected.
use gotalk.WebSocket.Connecting.{on_accept-reads_closed}
use gotalk.Protocol.Reader.Exact.{stream}
use gotalk.WebSocket.{content_encoding_key}
use gotalk.WebSocket.Setup.{etag_key}
use gotalk.WebSocket.Setup.Caching.{header_value}
use gotalk.WebSocket.Script.{Sends, IsAmong, tokens, serve_http-script}
use gotalk.Sock.Setup.{adopt, is_closed, new_sock}
use gotalk.Sock.{Sock}
use gotalk.Sock.Close.{
  close, close_once, close_all, closed_response, error_on_close, has_error, int32,
}
use gotalk.Protocol.Reader.{Reader}
use gotalk.WebSocket.CommaSet.Tokens.{IsToken, IsTokenByte, further}
use gotalk.Common.{
  List, ℕ, Bytes, ◌<◌, ◌∷◌, ◌≡◌, [], arith, none, false, some, ◌++◌, true, bytes_eq, ok, refl,
  Option, if◌then◌else◌, take, ◌+◌, Error, ◌⊎◌,
}
use gotalk.WebSocket.{
  HttpRequest, JsLib, serve_http, gzip_text, on_accept, gotalk_js_suffix, web_sock, has_key,
  has_suffix, is_not_modified,
}
use gotalk.WebSocket.{not_modified}
use gotalk.WebSocket.CommaSet.{parse_comma_str_set}
use gotalk.WebSocket.Setup.{init_js_lib, js_lib_unless, gzip_error, quoted, js_header}
use gotalk.WebSocket.Setup.Caching.{Gives, serve_http-revalidates}
use gotalk.Sock.Loop.{read}
use gotalk.Examples.Sockets.{connection, echo}
use gotalk.Examples.Loop.{outside, greeting, version, version_made}

abbrev script : JsLib
script = record {
  etag = b'e' ∷ [];
  header = [];
  body = b'b' ∷ [];
  body_length = b'1' ∷ [];
  gzip_body = b'g' ∷ [];
  gzip_length = b'1' ∷ [];
}

-- "br,  gzip"
abbrev asking_script : HttpRequest
asking_script = record {
  path = b'/' ∷ gotalk_js_suffix;
  if_none_match = [];
  accept_encoding = (b'b' ∷ b'r' ∷ []) ++ further ((2, gzip_text) ∷ []);
}

abbrev accepting : List (ℕ × Bytes)
accepting = (2, gzip_text) ∷ []

byte-IsToken : (b : ℕ) → 44 < b → IsTokenByte b
byte-IsToken b h = (λ e. omega (arith, e), λ e. omega (arith, e))

gzip-IsToken : IsToken gzip_text
gzip-IsToken = (
  byte-IsToken b'g' (omega arith),
  (
    byte-IsToken b'z' (omega arith),
    (byte-IsToken b'i' (omega arith), (byte-IsToken b'p' (omega arith), tt)),
  ),
)

br-IsToken : IsToken (b'b' ∷ b'r' ∷ [])
br-IsToken = (byte-IsToken b'b' (omega arith), (byte-IsToken b'r' (omega arith), tt))

serve_http-script_example :
    (IsAmong gzip_text (tokens (b'b' ∷ b'r' ∷ []) accepting)
      × Sends script etag_key
          (serve_http script asking_script)
          script.gzip_body
          script.gzip_length
          (some (gzip_text ∷ [])))
    ⊎ ((¬ IsAmong gzip_text (tokens (b'b' ∷ b'r' ∷ []) accepting))
        × Sends script etag_key
            (serve_http script asking_script)
            script.body
            script.body_length
            (header_value content_encoding_key script.header))
serve_http-script_example =
    serve_http-script script asking_script (b'b' ∷ b'r' ∷ []) accepting etag_key
      (unfold has_suffix bytes_eq in refl) (unfold is_not_modified in refl) refl (omega arith)
      br-IsToken (omega arith, (gzip-IsToken, tt)) (unfold bytes_eq in refl)
      (unfold bytes_eq in refl)

-- A hash and a script, the script's length in decimal, and a compression that drops the second byte
abbrev the_hash : Bytes
the_hash = b'h' ∷ []

abbrev the_script : Bytes
the_script = b'j' ∷ b's' ∷ []

abbrev decimal : ℕ → Bytes
decimal n = (48 + n) ∷ []

abbrev compress : Bytes → Bytes × Option Error × Option Error
compress b = (take 1 b, none, none)

abbrev embedded : JsLib
embedded = record {
  etag = quoted the_hash;
  header = js_header (quoted the_hash);
  body = the_script;
  body_length = decimal 2;
  gzip_body = take 1 the_script;
  gzip_length = decimal 1;
}

serve_http-revalidates_example :
    Gives
      (serve_http embedded asking_script)
      (quoted the_hash)
      (if has_key gzip_text (parse_comma_str_set asking_script.accept_encoding)
        then (compress the_script).0
        else the_script)
      decimal
    × (serve_http embedded (record asking_script { if_none_match = quoted the_hash ∷ [] })
        ≡ not_modified)
serve_http-revalidates_example =
    serve_http-revalidates the_hash the_script decimal compress embedded asking_script
      (unfold init_js_lib js_lib_unless gzip_error in refl) (unfold has_suffix bytes_eq in refl)
      (unfold is_not_modified in refl)

-- The socket of the connection behind its handshake, and as `Close` leaves it.
abbrev shaken : Sock
shaken = record (adopt (web_sock false)) { writes = version ∷ [] }

abbrev shut : Sock
shut = record shaken { closex = 1; close_codes = 0 ∷ [] }

shut_closed : close connection (λ e. []) (λ ch. true) shaken ≡ ok (none, shut)
unfolding close close_once close_all closed_response error_on_close has_error int32 web_sock adopt
    new_sock
shut_closed = refl

on_accept-reads_closed_example :
    (r' : Reader) × (on_accept outside none (some (λ s. shut)) none false greeting
      ≡ read outside none r' shut)
    × (stream r' ≡ echo)
    × (is_closed shut ≡ true)
on_accept-reads_closed_example =
    on_accept-reads_closed outside none (λ s. shut) none false greeting version echo none
      (λ done b. refl) version_made (refl, (refl, tt)) refl shut_closed
