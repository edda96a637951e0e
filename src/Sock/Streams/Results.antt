-- ===== src/Sock/Streams/Results.antt =====
-- What a streaming request's handler sends: its results, the error it ends with, and their end.
use gotalk.Sock.Sending.Parts.{AreSmall}
use gotalk.Protocol.Make.Fields.{wire}
use gotalk.Protocol.Read.RoundTrip.{plain}
use gotalk.Sock.Wire.Heard.{on_wire, AreSendable}
use gotalk.Limits.{LimitsImpl}
use gotalk.Sock.Streams.{StreamJob}
use gotalk.Sock.Wire.{msg_of, written}
use gotalk.Sock.Streams.Writer.{StreamWriter, write_stream, finish_stream}
use gotalk.Protocol.{Msg, msg_type_error_res, msg_type_stream_res}
use gotalk.Sock.{Conn, Sock, delete}
use gotalk.Common.{
  Bytes, List, Option, Bool, Error, some, Result, [], length, ℕ, ◌++◌, ok, ◌<◌, ◌∷◌, none, ◌>>=◌,
  ◌^◌, ◌≡◌, false, if◌then◌else◌, true, ◌==◌, inr, ◌∙◌, ap, sym, append-nil, append_assoc, refl,
  inl, arith,
}

-- The handler's writes, whose errors it does not look at.
unfoldable pub write_results :
    Conn → List Bytes → StreamWriter × Sock → Result (StreamWriter × Sock)
write_results c [] (w, s) = ok (w, s)
write_results c (b ∷ bs) (w, s) = do
  (e, w', s') ← write_stream c b (w, s)
  write_results c bs (w', s')

-- The goroutine of a streaming request, for a handler that writes `bs` and then ends, with the text of
-- an error or with none.
unfoldable pub serve_stream :
    Conn
    → (Error → Bytes)
    → (ℕ → Bool)
    → StreamJob
    → List Bytes
    → Option Bytes
    → LimitsImpl
    → Sock
    → Result (LimitsImpl × Sock)
serve_stream c text has_room job bs failure lim s = do
  (w, s') ← write_results c bs (record { id = job.id; wrote_eos = false }, s)
  finish_stream c text has_room job failure w lim s'

-- The messages to the requestor: the results, the error if there is one, and an empty result unless
-- one was written before.
abbrev pub end_msgs : Bytes → Bool → List (Msg × Bytes)
end_msgs id true = []
end_msgs id false = (msg_of msg_type_stream_res id [] 0 [], []) ∷ []

abbrev pub error_msgs : Bytes → Option Bytes → List (Msg × Bytes)
error_msgs id none = []
error_msgs id (some m) = (msg_of msg_type_error_res id [] 0 m, m) ∷ []

abbrev pub result_msgs : Bytes → Bool → Option Bytes → List Bytes → List (Msg × Bytes)
result_msgs id over failure [] = error_msgs id failure ++ end_msgs id over
result_msgs id over failure (b ∷ bs) =
    (msg_of msg_type_stream_res id [] 0 b, b)
    ∷ result_msgs id (if length b == 0 then true else over) failure bs

-- The request's channel is forgotten only where the handler failed.
abbrev pub forgotten : Bytes → Option Bytes → List (Bytes × Option ℕ) → List (Bytes × Option ℕ)
forgotten id none chans = chans
forgotten id (some m) chans = delete id chans

abbrev pub IsShortText : Option Bytes → Type 0
IsShortText none = Unit {0}
IsShortText (some m) = length m < 2 ^ 32

-- The socket behind messages that were written.
abbrev pub Follows : List (Msg × Bytes) → List (Bytes × Option ℕ) → Sock → Sock → Type 0
Follows ms chans s s' =
    (written s'.writes ≡ written s.writes ++ on_wire ms)
    × (s'.pending_req ≡ chans)
    × (s'.is_open ≡ true)

pub on_wire-append : (ms ns : List (Msg × Bytes)) → on_wire (ms ++ ns) ≡ on_wire ms ++ on_wire ns
unfolding on_wire
on_wire-append [] ns = refl
on_wire-append ((m, buf) ∷ ms) ns =
    ap (λ (v : Bytes). (wire m.t m.id m.name m.wait m.size ++ buf) ++ v) (on_wire-append ms ns)
    ∙ sym (append_assoc (wire m.t m.id m.name m.wait m.size ++ buf) (on_wire ms) (on_wire ns))

pub Follows-append :
    (ms ns : List (Msg × Bytes)) (chans chans' : List (Bytes × Option ℕ)) (s s1 s2 : Sock)
    → Follows ms chans s s1
    → Follows ns chans' s1 s2
    → Follows (ms ++ ns) chans' s s2
Follows-append ms ns chans chans' s s1 s2 (w, p, o) (w', p', o') = (
  w'
      ∙ ap (λ (v : Bytes). v ++ on_wire ns) w
      ∙ append_assoc (written s.writes) (on_wire ms) (on_wire ns)
      ∙ ap (λ (v : Bytes). written s.writes ++ v) (sym (on_wire-append ms ns)),
  p',
  o',
)

pub Follows-nil : (s : Sock) → s.is_open ≡ true → Follows [] s.pending_req s s
unfolding on_wire
Follows-nil s o = (sym (append-nil (written s.writes)), refl, o)

end_msgs-AreSendable : (id : Bytes) (over : Bool) → length id ≡ 4 → AreSendable (end_msgs id over)
end_msgs-AreSendable id true hid = tt
end_msgs-AreSendable id false hid =
    (plain (inr (inr (inl refl))) hid refl refl, omega arith, refl, tt)

pub result_msgs-AreSendable :
    (id : Bytes) (bs : List Bytes) (over : Bool) (failure : Option Bytes)
    → length id ≡ 4
    → AreSmall bs
    → IsShortText failure
    → AreSendable (result_msgs id over failure bs)
result_msgs-AreSendable id [] over none hid smalls short = end_msgs-AreSendable id over hid
result_msgs-AreSendable id [] over (some m) hid smalls short =
    (plain (inr (inr (inr refl))) hid refl refl, short, refl, end_msgs-AreSendable id over hid)
result_msgs-AreSendable id (b ∷ bs) over failure hid (small, smalls) short = (
  plain (inr (inr (inl refl))) hid refl refl,
  small,
  refl,
  result_msgs-AreSendable id bs (if length b == 0 then true else over) failure hid smalls short,
)
