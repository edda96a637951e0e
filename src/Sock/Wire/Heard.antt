-- ===== src/Sock/Wire/Heard.antt =====
-- A sequence of messages with their payloads, as a peer reads them.
use gotalk.Protocol.Make.Fields.{wire}
use gotalk.Protocol.Read.RoundTrip.{IsSendable, read_msg-make_msg, made}
use gotalk.Protocol.Read.{read_msg}
use gotalk.Protocol.Reader.Exact.{IsQuiet, stream, readn-exact}
use gotalk.Protocol.{Msg}
use gotalk.Protocol.Reader.{Reader, readn}
use gotalk.Common.{
  List, Bytes, ◌≡◌, ◌++◌, ◌≤◌, length, ◌∷◌, [], ok, ◌<◌, ◌^◌, none, ◌∙◌, append_assoc, arith,
}

-- The bytes of the messages, each with its payload behind it.
unfoldable pub on_wire : List (Msg × Bytes) → Bytes
on_wire [] = []
on_wire ((m, buf) ∷ ms) = (wire m.t m.id m.name m.wait m.size ++ buf) ++ on_wire ms

abbrev pub AreSendable : List (Msg × Bytes) → Type 0
AreSendable [] = Unit {0}
AreSendable ((m, buf) ∷ ms) =
    IsSendable m × (m.size < 2 ^ 32) × (m.size ≡ length buf) × AreSendable ms

-- `ReadMsg` into the buffer, and then `readn` for the payload, give the messages one after another,
-- and `rest` is left.
abbrev pub Heard : Reader → Bytes → List (Msg × Bytes) → Bytes → Type 0
Heard r b [] rest = stream r ≡ rest
Heard r b ((m, buf) ∷ ms) rest =
    (r1 : Reader) × (r2 : Reader) × (b' : Bytes) × (read_msg r b ≡ ok (m, r1, b'))
    × (readn r1 m.size ≡ (buf, none, r2))
    × Heard r2 b' ms rest

pub on_wire-Heard :
    (ms : List (Msg × Bytes)) (r : Reader) (b rest : Bytes)
    → AreSendable ms
    → IsQuiet r
    → stream r ≡ on_wire ms ++ rest
    → 21 ≤ length b
    → Heard r b ms rest
unfolding on_wire
on_wire-Heard [] r b rest all q e room = e
on_wire-Heard ((m, buf) ∷ ms) r b rest (h, small, size, all) q e room =
    let w : Bytes = wire m.t m.id m.name m.wait m.size in
    let (r1, b', got, left, q1, same) =
      read_msg-make_msg m r b w (buf ++ (on_wire ms ++ rest)) h small (made m h small) q
        (e ∙ simp append_assoc) room in
    let (r2, got2, left2, q2) = readn-exact r1 m.size buf (on_wire ms ++ rest) q1 left size in
    (r1, r2, b', got, got2, on_wire-Heard ms r2 b' rest all q2 left2 (omega (arith, same)))
