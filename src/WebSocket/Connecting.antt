-- ===== src/WebSocket/Connecting.antt =====
-- A web socket that `OnConnect` closes.
use gotalk.Sock.Setup.Handshaking.{handshake-agrees}
use gotalk.Sock.Closing.{close_first}
use gotalk.Protocol.Reader.Exact.{IsQuiet, stream}
use gotalk.Protocol.Version.{protocol_version_buf}
use gotalk.Sock.Wire.{IsWritable}
use gotalk.Protocol.Reader.{Reader}
use gotalk.Limits.{Limits, make_limits_impl}
use gotalk.Sock.Loop.{Outside, read}
use gotalk.Sock.Setup.{adopt, is_closed}
use gotalk.Common.{
  Error, Bytes, ℕ, Bool, Option, ◌≡◌, true, ok, ◌++◌, ◌∷◌, [], some, ap, ok-injective, ◌>>=◌, sym,
  ◌∙◌, if◌then◌else◌, refl, not, sock_closed,
}
use gotalk.Sock.{Conn, Sock}
use gotalk.WebSocket.{on_accept, after_upgrade, connected, web_sock}
use gotalk.Sock.Close.{close}

close-is_open :
    (c : Conn) (text : Error → Bytes) (has_room : ℕ → Bool) (s s' : Sock) (e : Option Error)
    → s.is_open ≡ true
    → s.closex ≡ 0
    → close c text has_room s ≡ ok (e, s')
    → (s'.is_open ≡ true) × (is_closed s' ≡ true)
unfolding close
close-is_open c text has_room s s' e open_ first closed =
    let (e1, s1, got, one, _, still) = close_first c text has_room s open_ first in
    let same : s1 ≡ s' = ap (λ x. x.1) (ok-injective (sym got ∙ closed)) in
    (
      ap (λ x. x.is_open) (sym same) ∙ still,
      ap is_closed (sym same) ∙ (unfold is_closed in rw one refl),
    )

-- On a connection that takes every write, with a peer that sends this version first on a stream
-- with no read failure, where `OnConnect` does to the socket what `Close` does, `onAccept` reads
-- from the socket, which is closed by then, since its connection is not nil.
pub on_accept-reads_closed :
    (o : Outside) (limits : Option Limits) (f : Sock → Sock) (legacy : Option (Sock → Sock))
    (b : Bool) (r : Reader) (v rest : Bytes) (e : Option Error)
    → IsWritable o.conn
    → protocol_version_buf ≡ ok v
    → IsQuiet r
    → stream r ≡ v ++ rest
    → close o.conn o.text o.has_room (record (adopt (web_sock b)) { writes = v ∷ [] })
      ≡ ok (e, f (record (adopt (web_sock b)) { writes = v ∷ [] }))
    → (r' : Reader) × (on_accept o limits (some f) legacy b r
        ≡ read o limits r' (f (record (adopt (web_sock b)) { writes = v ∷ [] })))
      × (stream r' ≡ rest)
      × (is_closed (f (record (adopt (web_sock b)) { writes = v ∷ [] })) ≡ true)
unfolding on_accept after_upgrade connected web_sock adopt
on_accept-reads_closed o limits f legacy b r v rest e writable version q es closes =
    let s0 : Sock = adopt (web_sock b) in
    let s1 : Sock = record s0 { writes = v ∷ [] } in
    let (r', got, back) =
      handshake-agrees o.conn o.text o.has_room writable r s0 v rest version refl q es in
    let (open_, shut) = close-is_open o.conn o.text o.has_room s1 (f s1) e refl refl closes in
    (
      r',
      ap (λ m. m >>= after_upgrade o limits (some f) legacy) got
          ∙ ap
              (λ x.
                if not x
                then ok (some ([], sock_closed, make_limits_impl limits, f s1))
                else read o limits r' (f s1))
              open_,
      back,
      shut,
    )
