-- ===== src/Chat/History.antt =====
-- What the server goes through, whatever is asked of it and in whatever order: no room and no message is
-- lost, and no socket is listed twice.
use mathlib.Core.Path.{subst}
use gotalk.Chat.Extending.{
  Extends, Extends-refl, Extends-trans, Extends-append_message, Extends-snoc,
}
use gotalk.Chat.Rooms.{notify_all-keeps, IsDistinct}
use gotalk.Common.{
  Bytes, List, Option, [], ℕ, ◌++◌, ◌≡◌, some, ◌∷◌, Ensures, ok, sym, if◌then◌else◌, none,
  Ensures-if, length, ◌==◌, Bool, Ensures->>=, Ensures-ok, false, refl, true, Ensures-any, arith,
}
use gotalk.Chat.{
  Room, Server, broadcast, create_room, send_message, Message, Value, NewMessage, append_message,
  create_found, on_connect, rooms_text, Answer, on_close, rooms_value, create_room_handler,
  names_of, send_to, find_room, sample_room, user_of, newmsg_text, on_shutdown, message_value,
  add_sock, close_socks, empty_server, has_sock, notify_sock, remove_sock, fails, random_name,
  empty_name_text, gives,
}

-- One thing that happens: a socket connects or closes, a handler is called, or the server is shut down.
-- `first` are the names that a user can get.
pub data Step (first : List Bytes) (sv u : Server) : Type 0 where
  connects : (draw s : ℕ) → on_connect first draw s sv ≡ ok u → Step first sv u
  closes : (s : ℕ) → u ≡ on_close s sv → Step first sv u
  sends :
      (s : ℕ) (r : NewMessage) (a : Answer (Unit {0}))
      → send_message s r sv ≡ ok (a, u)
      → Step first sv u
  creates : (name : Bytes) → u ≡ (create_room_handler name sv).1 → Step first sv u
  samples :
      (draw : ℕ) (name body : Bytes) → sample_room first draw name body sv ≡ ok u → Step first sv u
  shuts_down : u ≡ on_shutdown sv → Step first sv u

pub data Reach (first : List Bytes) (sv : Server) : Server → Type 0 where
  here : Reach first sv sv
  next : {t u : Server} → Reach first sv t → Step first t u → Reach first sv u

-- What a step keeps
record Keeps (sv u : Server) : Type 0 where
  extends : Extends sv.rooms u.rooms
  distinct : IsDistinct sv.socks → IsDistinct u.socks

Keeps-same : (sv u : Server) → u.rooms ≡ sv.rooms → u.socks ≡ sv.socks → Keeps sv u
Keeps-same sv u e f = record {
  extends = subst (Extends sv.rooms) (sym e) (Extends-refl sv.rooms);
  distinct = λ h. subst IsDistinct (sym f) h;
}

Keeps-trans : {a b c : Server} → Keeps a b → Keeps b c → Keeps a c
Keeps-trans {a} {b} {c} h k = record {
  extends = Extends-trans a.rooms b.rooms c.rooms h.extends k.extends;
  distinct = λ d. k.distinct (h.distinct d);
}

Keeps-rooms :
    (sv : Server) (rs : List Room) → Extends sv.rooms rs → Keeps sv (record sv { rooms = rs })
Keeps-rooms sv rs h = record { extends = h; distinct = λ d. d }

Keeps-broadcast : (name : Bytes) (v : Value) (sv : Server) → Keeps sv (broadcast name v sv)
unfolding broadcast
Keeps-broadcast name v sv =
    let (e, f, _, _) = notify_all-keeps (record { notice_name = name; value = v }) sv.socks sv in
    Keeps-same sv _ e f

Keeps-create_room : (name : Bytes) (sv : Server) → Keeps sv (create_room name sv).1
unfolding create_room
Keeps-create_room name sv = found (find_room name sv)
  where
    found : (o : Option Room) → Keeps sv (create_found o name sv).1
    found (some r) = unfold create_found in Keeps-same sv sv refl refl
    found none =
        unfold create_found in
        let r : Room = record { room_name = name; messages = [] } in
        Keeps-trans (Keeps-rooms sv (sv.rooms ++ (r ∷ [])) (Extends-snoc r sv.rooms)) (
          Keeps-broadcast rooms_text (rooms_value (names_of (sv.rooms ++ (r ∷ []))))
            (record sv { rooms = sv.rooms ++ (r ∷ []) }))

Keeps-send_message :
    (s : ℕ) (r : NewMessage) (sv : Server)
    → Ensures (λ (x : Answer (Unit {0}) × Server). Keeps sv x.1) (send_message s r sv)
unfolding send_message
Keeps-send_message s r sv =
    Ensures-if (λ (x : Answer (Unit {0}) × Server). Keeps sv x.1) (length r.message.body == 0) _ _
      (Keeps-same sv sv refl refl) (found (find_room r.room sv))
  where
    found :
        (o : Option Room)
        → Ensures (λ (x : Answer (Unit {0}) × Server). Keeps sv x.1) (send_to o s r sv)
    found none = unfold send_to in tt
    found (some x) =
        unfold send_to in
        let m : Message = record { author = user_of s sv.users; body = r.message.body } in
        Keeps-trans
          (Keeps-rooms sv (append_message r.room m sv.rooms)
            (Extends-append_message r.room m sv.rooms))
          (Keeps-broadcast newmsg_text (message_value (record r { message = m }))
            (record sv { rooms = append_message r.room m sv.rooms }))

has_sock-remove_sock :
    (k s : ℕ) (ss : List ℕ) → has_sock k ss ≡ false → has_sock k (remove_sock s ss) ≡ false
unfolding has_sock remove_sock
has_sock-remove_sock k s [] h = refl
has_sock-remove_sock k s (x ∷ ss) h = ground (arith, has_sock-remove_sock k s ss)

remove_sock-IsDistinct : (s : ℕ) (ss : List ℕ) → IsDistinct ss → IsDistinct (remove_sock s ss)
unfolding remove_sock
remove_sock-IsDistinct s [] h = tt
remove_sock-IsDistinct s (x ∷ ss) (out, h) = kept (x == s) (remove_sock-IsDistinct s ss h)
  where
    kept :
        (b : Bool)
        → IsDistinct (remove_sock s ss)
        → IsDistinct (if b then remove_sock s ss else x ∷ remove_sock s ss)
    kept true ih = ih
    kept false ih = (has_sock-remove_sock x s ss out, ih)

add_sock-IsDistinct : (s : ℕ) (ss : List ℕ) → IsDistinct ss → IsDistinct (add_sock s ss)
unfolding add_sock
add_sock-IsDistinct s ss h = fresh (has_sock s ss) refl
  where
    fresh : (b : Bool) → has_sock s ss ≡ b → IsDistinct (if b then ss else s ∷ ss)
    fresh true e = h
    fresh false e = (e, h)

Keeps-on_connect :
    (first : List Bytes) (draw s : ℕ) (sv : Server)
    → Ensures (Keeps sv) (on_connect first draw s sv)
unfolding on_connect notify_sock
Keeps-on_connect first draw s sv =
    Ensures->>= _ (Keeps sv) (random_name first draw) _ (Ensures-any _) λ username _. record {
      extends = Extends-refl sv.rooms;
      distinct = add_sock-IsDistinct s sv.socks;
    }

Keeps-sample_room :
    (first : List Bytes) (draw : ℕ) (name body : Bytes) (sv : Server)
    → Ensures (Keeps sv) (sample_room first draw name body sv)
unfolding sample_room
Keeps-sample_room first draw name body sv =
    let r : Room = (create_room name sv).0 in
    let sv1 : Server = (create_room name sv).1 in
    Ensures->>= _ (Keeps sv) (random_name first draw) _ (Ensures-any _) λ author _.
      let m : Message = record { author = author; body = body } in
      Keeps-trans (Keeps-create_room name sv) (
        Keeps-rooms sv1 (append_message r.room_name m sv1.rooms)
          (Extends-append_message r.room_name m sv1.rooms))

Keeps-create_room_handler : (name : Bytes) (sv : Server) → Keeps sv (create_room_handler name sv).1
unfolding create_room_handler
Keeps-create_room_handler name sv = tested (length name == 0)
  where
    handled : Bool → Answer Room × Server
    handled b =
        if b
        then (fails empty_name_text, sv)
        else (gives (create_room name sv).0, (create_room name sv).1)

    tested : (b : Bool) → Keeps sv (handled b).1
    tested true = Keeps-same sv sv refl refl
    tested false = Keeps-create_room name sv

Keeps-close_socks : (ss : List ℕ) (sv : Server) → Keeps sv (close_socks ss sv)
unfolding close_socks
Keeps-close_socks [] sv = Keeps-same sv sv refl refl
Keeps-close_socks (s ∷ ss) sv =
    Keeps-trans (Keeps-same sv (record sv { closed = s ∷ sv.closed }) refl refl)
      (Keeps-close_socks ss (record sv { closed = s ∷ sv.closed }))

Step-Keeps : (first : List Bytes) (sv u : Server) → Step first sv u → Keeps sv u
unfolding on_close on_shutdown
Step-Keeps first sv u (connects draw s e) =
    Ensures-ok (Keeps sv) _ u (Keeps-on_connect first draw s sv) e
Step-Keeps first sv u (closes s e) =
    subst (Keeps sv) (sym e)
      (record { extends = Extends-refl sv.rooms; distinct = remove_sock-IsDistinct s sv.socks })
Step-Keeps first sv u (sends s r a e) =
    Ensures-ok (λ (x : Answer (Unit {0}) × Server). Keeps sv x.1) _ (a, u)
      (Keeps-send_message s r sv) e
Step-Keeps first sv u (creates name e) =
    subst (Keeps sv) (sym e) (Keeps-create_room_handler name sv)
Step-Keeps first sv u (samples draw name body e) =
    Ensures-ok (Keeps sv) _ u (Keeps-sample_room first draw name body sv) e
Step-Keeps first sv u (shuts_down e) = subst (Keeps sv) (sym e) (Keeps-close_socks sv.socks sv)

Reach-Keeps : (first : List Bytes) (sv u : Server) → Reach first sv u → Keeps sv u
Reach-Keeps first sv u here = Keeps-same sv sv refl refl
Reach-Keeps first sv u (next {t = t} r st) =
    Keeps-trans (Reach-Keeps first sv t r) (Step-Keeps first t u st)

-- From the start of the chat server on, whichever sockets connect and close, whichever handlers are
-- called, and whenever sample rooms are made or the server is shut down, in any order of whole
-- calls: no socket is listed twice, and a room that is found under a name is found under it ever
-- after, with the messages that it had in front of any that have come since.
pub Reach-Extends :
    (first : List Bytes) (sv u : Server) (name : Bytes) (r : Room)
    → Reach first empty_server sv
    → Reach first sv u
    → find_room name sv ≡ some r
    → IsDistinct sv.socks
      × ((more : List Message) × (find_room name u
            ≡ some (record r { messages = r.messages ++ more })))
unfolding find_room
Reach-Extends first sv u name r before after found = (
  (Reach-Keeps first empty_server sv before).distinct tt,
  (Reach-Keeps first sv u after).extends name r found,
)
