-- ===== src/Chat.antt =====
-- examples/websocket-chat/server.go: a chat server with rooms, on web sockets.
pub mod Rooms
pub mod Extending
pub mod History
pub mod Locks
use gotalk.Common.{
  Bytes, List, Option, [], ℕ, Bool, Result, if◌then◌else◌, none, some, ◌∷◌, bytes_eq, false, length,
  or_panic, panic, ◌++◌, ◌==◌, ◌>>=◌, get_elem?, ok, ◌||◌,
}

pub record Message : Type 0 where
  pub author : Bytes
  pub body : Bytes

-- The messages, the oldest first
pub record Room : Type 0 where
  pub room_name : Bytes
  pub messages : List Message

pub record NewMessage : Type 0 where
  pub room : Bytes
  pub message : Message

-- What a notification carries: the rooms, which show by their names only, a text, or a message.
pub data Value : Type 0 where
  rooms_value : List Bytes → Value
  text_value : Bytes → Value
  message_value : NewMessage → Value

pub record Notice : Type 0 where
  pub notice_name : Bytes
  pub value : Value

abbrev pub rooms_text : Bytes
rooms_text = b'r' ∷ b'o' ∷ b'o' ∷ b'm' ∷ b's' ∷ []

abbrev pub username_text : Bytes
username_text = b'u' ∷ b's' ∷ b'e' ∷ b'r' ∷ b'n' ∷ b'a' ∷ b'm' ∷ b'e' ∷ []

abbrev pub newmsg_text : Bytes
newmsg_text = b'n' ∷ b'e' ∷ b'w' ∷ b'm' ∷ b's' ∷ b'g' ∷ []

abbrev pub no_room_text : Bytes
no_room_text =
    b'n' ∷ b'o' ∷ b' ' ∷ b's' ∷ b'u' ∷ b'c' ∷ b'h' ∷ b' ' ∷ b'r' ∷ b'o' ∷ b'o' ∷ b'm' ∷ []

abbrev pub empty_message_text : Bytes
empty_message_text =
    b'e' ∷ b'm' ∷ b'p' ∷ b't' ∷ b'y' ∷ b' ' ∷ b'm' ∷ b'e' ∷ b's' ∷ b's' ∷ b'a' ∷ b'g' ∷ b'e' ∷ []

abbrev pub empty_name_text : Bytes
empty_name_text = b'e' ∷ b'm' ∷ b'p' ∷ b't' ∷ b'y' ∷ b' ' ∷ b'n' ∷ b'a' ∷ b'm' ∷ b'e' ∷ []

-- A socket is known by a number. `rooms` is the map by name: a room is never taken out of it, so that
-- a room is reached by its name only. `users` is the sockets' `UserData`, the latest first, and `sent`
-- what was notified to which socket, the latest first.
pub record Server : Type 0 where
  pub rooms : List Room
  pub socks : List ℕ
  pub users : List (ℕ × Bytes)
  pub sent : List (ℕ × Notice)
  pub closed : List ℕ

abbrev pub empty_server : Server
empty_server = record { rooms = []; socks = []; users = []; sent = []; closed = [] }

-- `rooms[name]`
unfoldable pub find_in : Bytes → List Room → Option Room
find_in name [] = none
find_in name (r ∷ rs) = if bytes_eq r.room_name name then some r else find_in name rs

unfoldable pub find_room : Bytes → Server → Option Room
find_room name sv = find_in name sv.rooms

-- `appendMessage` on the room of that name
unfoldable pub append_message : Bytes → Message → List Room → List Room
append_message name m [] = []
append_message name m (r ∷ rs) =
    if bytes_eq r.room_name name
    then record r { messages = r.messages ++ (m ∷ []) } ∷ rs
    else r ∷ append_message name m rs

abbrev pub names_of : List Room → List Bytes
names_of [] = []
names_of (r ∷ rs) = r.room_name ∷ names_of rs

-- `s.Notify(name, v)`, whose error is ignored
unfoldable pub notify_sock : Notice → ℕ → Server → Server
notify_sock n s sv = record sv { sent = (s, n) ∷ sv.sent }

unfoldable pub notify_all : Notice → List ℕ → Server → Server
notify_all n [] sv = sv
notify_all n (s ∷ ss) sv = notify_all n ss (notify_sock n s sv)

unfoldable pub broadcast : Bytes → Value → Server → Server
broadcast name v sv = notify_all (record { notice_name = name; value = v }) sv.socks sv

unfoldable pub create_found : Option Room → Bytes → Server → Room × Server
create_found (some r) name sv = (r, sv)
create_found none name sv =
    let r : Room = record { room_name = name; messages = [] } in
    let sv1 : Server = record sv { rooms = sv.rooms ++ (r ∷ []) } in
    (r, broadcast rooms_text (rooms_value (names_of sv1.rooms)) sv1)

unfoldable pub create_room : Bytes → Server → Room × Server
create_room name sv = create_found (find_room name sv) name sv

-- `names.First[rand.Intn(len(names.First))]`, which panics on no names
unfoldable pub random_name : List Bytes → ℕ → Result Bytes
random_name first draw = or_panic (get_elem? first draw)

-- `socks[s] = 1`
unfoldable pub has_sock : ℕ → List ℕ → Bool
has_sock s [] = false
has_sock s (k ∷ ks) = k == s || has_sock s ks

unfoldable pub add_sock : ℕ → List ℕ → List ℕ
add_sock s ks = if has_sock s ks then ks else s ∷ ks

-- `delete(socks, s)`
unfoldable pub remove_sock : ℕ → List ℕ → List ℕ
remove_sock s [] = []
remove_sock s (k ∷ ks) = if k == s then remove_sock s ks else k ∷ remove_sock s ks

-- `onConnect`; `first` are the names and `draw` is the random index.
unfoldable pub on_connect : List Bytes → ℕ → ℕ → Server → Result Server
on_connect first draw s sv = do
  let sv1 = record sv { socks = add_sock s sv.socks }
  let sv2 =
      notify_sock (record { notice_name = rooms_text; value = rooms_value (names_of sv1.rooms) }) s
        sv1
  username ← random_name first draw
  let sv3 = record sv2 { users = (s, username) ∷ sv2.users }
  ok (notify_sock (record { notice_name = username_text; value = text_value username }) s sv3)

-- The `CloseHandler` that `onConnect` sets
unfoldable pub on_close : ℕ → Server → Server
on_close s sv = record sv { socks = remove_sock s sv.socks }

-- `username, _ := s.UserData.(string)`
unfoldable pub user_of : ℕ → List (ℕ × Bytes) → Bytes
user_of s [] = []
user_of s ((k, name) ∷ users) = if k == s then name else user_of s users

-- How a handler ends: with a value or with the text of an error.
pub data Answer {ℓ} (A : Type ℓ) : Type ℓ where
  gives : A → Answer A
  fails : Bytes → Answer A

unfoldable pub messages_or_error : Option Room → Answer (List Message)
messages_or_error none = fails no_room_text
messages_or_error (some r) = gives r.messages

-- "list-messages"
unfoldable pub list_messages : Bytes → Server → Answer (List Message)
list_messages name sv = messages_or_error (find_room name sv)

-- "send-message" behind its guard, for the room that was found. On a nil room it panics.
unfoldable pub send_to : Option Room → ℕ → NewMessage → Server → Result (Answer (Unit {0}) × Server)
send_to none s r sv = panic
send_to (some found) s r sv =
    let m : Message = record { author = user_of s sv.users; body = r.message.body } in
    let sv1 : Server = record sv { rooms = append_message r.room m sv.rooms } in
    ok (gives tt, broadcast newmsg_text (message_value (record r { message = m })) sv1)

unfoldable pub send_message : ℕ → NewMessage → Server → Result (Answer (Unit {0}) × Server)
send_message s r sv =
    if length r.message.body == 0
    then ok (fails empty_message_text, sv)
    else send_to (find_room r.room sv) s r sv

-- "create-room"
unfoldable pub create_room_handler : Bytes → Server → Answer Room × Server
create_room_handler name sv =
    if length name == 0
    then (fails empty_name_text, sv)
    else let (r, sv') = create_room name sv in (gives r, sv')

-- `createRoom(name).appendMessage(...)`, with a random author
unfoldable pub sample_room : List Bytes → ℕ → Bytes → Bytes → Server → Result Server
sample_room first draw name body sv = do
  let (r, sv1) = create_room name sv
  author ← random_name first draw
  ok (record sv1 {
    rooms = append_message r.room_name (record { author = author; body = body }) sv1.rooms;
  })

-- What the server does when it is shut down: each socket loses its `CloseHandler` and is closed.
unfoldable pub close_socks : List ℕ → Server → Server
close_socks [] sv = sv
close_socks (s ∷ ss) sv = close_socks ss (record sv { closed = s ∷ sv.closed })

unfoldable pub on_shutdown : Server → Server
on_shutdown sv = close_socks sv.socks sv
