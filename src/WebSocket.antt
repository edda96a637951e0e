-- ===== src/WebSocket.antt =====
-- websocket.go: the server of web sockets, over the `golang.org/x/net/websocket` library.
pub mod CommaSet
pub mod Script
pub mod Connecting
pub mod Setup
use gotalk.Protocol.Reader.{Reader}
use gotalk.Sock.Setup.{new_sock, handshake, adopt}
use gotalk.Limits.{Limits, make_limits_impl}
use gotalk.Sock.{Sock}
use gotalk.WebSocket.CommaSet.{parse_comma_str_set}
use gotalk.Common.{
  Bool, Bytes, List, Option, if◌then◌else◌, false, leb, some, ◌∷◌, Error, [], bytes_eq, length,
  Result, true, ◌&&◌, ◌||◌, drop, ◌>>=◌, ok, ◌-◌, not, sock_closed, none,
}
use gotalk.Sock.Loop.{Outside, Ended, read}
use gotalk.Sock.Close.{close}

abbrev pub gotalk_js_suffix : Bytes
gotalk_js_suffix = b'/' ∷ b'g' ∷ b'o' ∷ b't' ∷ b'a' ∷ b'l' ∷ b'k' ∷ b'.' ∷ b'j' ∷ b's' ∷ []

abbrev pub gzip_text : Bytes
gzip_text = b'g' ∷ b'z' ∷ b'i' ∷ b'p' ∷ []

abbrev pub content_encoding_key : Bytes
content_encoding_key =
    b'C' ∷ b'o' ∷ b'n' ∷ b't' ∷ b'e' ∷ b'n' ∷ b't' ∷ b'-' ∷ b'E' ∷ b'n' ∷ b'c' ∷ b'o' ∷ b'd' ∷ b'i'
    ∷ b'n' ∷ b'g' ∷ []

abbrev pub content_length_key : Bytes
content_length_key =
    b'C' ∷ b'o' ∷ b'n' ∷ b't' ∷ b'e' ∷ b'n' ∷ b't' ∷ b'-' ∷ b'L' ∷ b'e' ∷ b'n' ∷ b'g' ∷ b't' ∷ b'h'
    ∷ []

-- `strings.HasSuffix`
unfoldable pub has_suffix : Bytes → Bytes → Bool
has_suffix s suffix =
    leb (length suffix) (length s) && bytes_eq (drop (length s - length suffix) s) suffix

-- The script that is embedded in the program: its ETag, its header, and its two bodies with the
-- decimal texts of their lengths.
pub record JsLib : Type 0 where
  pub etag : Bytes
  pub header : List (Bytes × List Bytes)
  pub body : Bytes
  pub body_length : Bytes
  pub gzip_body : Bytes
  pub gzip_length : Bytes

-- What the program reads of an `http.Request`.
pub record HttpRequest : Type 0 where
  pub path : Bytes
  pub if_none_match : List Bytes
  pub accept_encoding : Bytes

-- A response: 304 without a body, 200 with the assignments to the header and a body, or what the
-- WebSocket library does with the request.
pub data HttpReply : Type 0 where
  not_modified : HttpReply
  found_script : List (Bytes × List Bytes) → Bytes → HttpReply
  upgraded : HttpReply

-- `maybeReplyNotModified`, by its result
unfoldable pub is_not_modified : JsLib → List Bytes → Bool
is_not_modified js [] = false
is_not_modified js (etag ∷ more) = bytes_eq etag js.etag

-- `_, ok := m[key]`
unfoldable pub has_key : Bytes → List Bytes → Bool
has_key key [] = false
has_key key (k ∷ ks) = bytes_eq k key || has_key key ks

unfoldable pub script_reply : JsLib → Bool → HttpReply
script_reply js true =
    found_script
      ((content_encoding_key, gzip_text ∷ [])
        ∷ (content_length_key, js.gzip_length ∷ [])
        ∷ js.header)
      js.gzip_body
script_reply js false = found_script ((content_length_key, js.body_length ∷ []) ∷ js.header) js.body

unfoldable pub serve_script : JsLib → HttpRequest → HttpReply
serve_script js r =
    if is_not_modified js r.if_none_match
    then not_modified
    else script_reply js (has_key gzip_text (parse_comma_str_set r.accept_encoding))

-- `ServeHTTP`
unfoldable pub serve_http : JsLib → HttpRequest → HttpReply
serve_http js r = if has_suffix r.path gotalk_js_suffix then serve_script js r else upgraded

-- `checkOrigin`, by what `websocket.Origin` gives: an origin, which may be nil, or an error. The
-- error that it makes itself is `null_origin`.
pub data OriginError {ℓ} (E : Type ℓ) : Type ℓ where
  null_origin : OriginError E
  of_origin : E → OriginError E

unfoldable pub check_origin {ℓ κ} :
    {O : Type ℓ} {E : Type κ} → Option O × Option E → Option (OriginError E)
check_origin (origin, some e) = some (of_origin e)
check_origin (none, none) = some null_origin
check_origin (some origin, none) = none

-- The socket that `onAccept` makes, with a `CloseHandler` of its own
unfoldable pub web_sock : Bool → Sock
web_sock has_on_heartbeat = record new_sock {
  has_close_handler = true;
  has_on_heartbeat = has_on_heartbeat;
}

-- `OnConnect`, or else `OnAccept`, by what it does to the socket
unfoldable pub connected : Option (Sock → Sock) → Option (Sock → Sock) → Sock → Sock
connected (some f) legacy s = f s
connected none (some g) s = g s
connected none none s = s

-- `onAccept` behind its handshake. The socket is read only if its connection is not nil.
unfoldable pub after_upgrade :
    Outside
    → Option Limits
    → Option (Sock → Sock)
    → Option (Sock → Sock)
    → Option Error × Reader × Sock
    → Result Ended
after_upgrade o limits on_connect legacy (some e, r, s) = do
  (e', s') ← close o.conn o.text o.has_room s
  ok (some ([], e, make_limits_impl limits, s'))
after_upgrade o limits on_connect legacy (none, r, s) =
    let s' = connected on_connect legacy s in
    if not s'.is_open
    then ok (some ([], sock_closed, make_limits_impl limits, s'))
    else read o limits r s'

unfoldable pub on_accept :
    Outside
    → Option Limits
    → Option (Sock → Sock)
    → Option (Sock → Sock)
    → Bool
    → Reader
    → Result Ended
on_accept o limits on_connect legacy has_on_heartbeat r =
    handshake o.conn o.text o.has_room r (adopt (web_sock has_on_heartbeat))
    >>= after_upgrade o limits on_connect legacy
