-- ===== src/WebSocket/Setup.antt =====
-- websocket.go: what is made once: the script with its headers, and a server of web sockets.
pub mod Caching
use gotalk.Common.{
  Bytes, Option, ℕ, Bool, Error, List, none, ◌∷◌, Result, [], false, some, ◌++◌, length, ok, panic,
}
use gotalk.Limits.{Limits}
use gotalk.Sock.{Sock}
use gotalk.WebSocket.{JsLib}

abbrev pub content_type_key : Bytes
content_type_key =
    b'C' ∷ b'o' ∷ b'n' ∷ b't' ∷ b'e' ∷ b'n' ∷ b't' ∷ b'-' ∷ b'T' ∷ b'y' ∷ b'p' ∷ b'e' ∷ []

abbrev pub script_type_text : Bytes
script_type_text =
    b'a' ∷ b'p' ∷ b'p' ∷ b'l' ∷ b'i' ∷ b'c' ∷ b'a' ∷ b't' ∷ b'i' ∷ b'o' ∷ b'n' ∷ b'/' ∷ b'j' ∷ b'a'
    ∷ b'v' ∷ b'a' ∷ b's' ∷ b'c' ∷ b'r' ∷ b'i' ∷ b'p' ∷ b't' ∷ b';' ∷ b' ' ∷ b'c' ∷ b'h' ∷ b'a'
    ∷ b'r' ∷ b's' ∷ b'e' ∷ b't' ∷ b'=' ∷ b'u' ∷ b't' ∷ b'f' ∷ b'-' ∷ b'8' ∷ []

abbrev pub cache_control_key : Bytes
cache_control_key =
    b'C' ∷ b'a' ∷ b'c' ∷ b'h' ∷ b'e' ∷ b'-' ∷ b'C' ∷ b'o' ∷ b'n' ∷ b't' ∷ b'r' ∷ b'o' ∷ b'l' ∷ []

abbrev pub five_minutes_text : Bytes
five_minutes_text =
    b'p' ∷ b'u' ∷ b'b' ∷ b'l' ∷ b'i' ∷ b'c' ∷ b',' ∷ b'm' ∷ b'a' ∷ b'x' ∷ b'-' ∷ b'a' ∷ b'g' ∷ b'e'
    ∷ b'=' ∷ b'3' ∷ b'0' ∷ b'0' ∷ []

abbrev pub etag_key : Bytes
etag_key = b'E' ∷ b'T' ∷ b'a' ∷ b'g' ∷ []

-- The ETag: the hash in quotes, 34 being the quote
unfoldable pub quoted : Bytes → Bytes
quoted hash = 34 ∷ (hash ++ (34 ∷ []))

unfoldable pub js_header : Bytes → List (Bytes × List Bytes)
js_header etag =
    (content_type_key, script_type_text ∷ [])
    ∷ (cache_control_key, five_minutes_text ∷ [])
    ∷ (etag_key, etag ∷ [])
    ∷ []

-- The error of `Write`, or else that of `Close`
unfoldable pub gzip_error : Option Error → Option Error → Option Error
gzip_error (some e) e2 = some e
gzip_error none e2 = e2

unfoldable pub js_lib_unless : Option Error → JsLib → Result JsLib
js_lib_unless none js = ok js
js_lib_unless (some e) js = panic

-- `init`: `hash` and `lib` are `JSLibSHA1Base64` and `JSLibString`, `decimal` is `strconv.FormatInt` to the
-- base 10, and `gzip` what the writer leaves in its buffer, with the errors of `Write` and `Close`.
unfoldable pub init_js_lib :
    Bytes → Bytes → (ℕ → Bytes) → (Bytes → Bytes × Option Error × Option Error) → Result JsLib
init_js_lib hash lib decimal gzip =
    let (zipped, e, e2) = gzip lib in
    js_lib_unless (gzip_error e e2) (record {
      etag = quoted hash;
      header = js_header (quoted hash);
      body = lib;
      body_length = decimal (length lib);
      gzip_body = zipped;
      gzip_length = decimal (length zipped);
    })

-- The handlers are known by a number. The server checks origins, and accepts with `onAccept`.
pub record WebSocketServer : Type 0 where
  pub handlers : ℕ
  pub limits : Option Limits
  pub on_connect : Option (Sock → Sock)
  pub on_accept_legacy : Option (Sock → Sock)
  pub heartbeat_interval : ℕ
  pub has_on_heartbeat : Bool

-- `NewWebSocketServer`, with `DefaultHandlers` and `DefaultLimits`
unfoldable pub new_web_socket_server : ℕ → Option Limits → WebSocketServer
new_web_socket_server default_handlers default_limits = record {
  handlers = default_handlers;
  limits = default_limits;
  on_connect = none;
  on_accept_legacy = none;
  heartbeat_interval = 0;
  has_on_heartbeat = false;
}
