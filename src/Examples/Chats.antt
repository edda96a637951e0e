-- ===== src/Examples/Chats.antt =====
-- A chat with one room and two sockets, and the locks that it takes.
use gotalk.Chat.Rooms.{received, send_message-listed, IsDistinct}
use gotalk.Common.{
  Bytes, [], ◌∷◌, ◌≡◌, ok, arith, refl, bytes_eq, true, List, some, ◌++◌, false, ◌⊎◌, ◌+◌,
}
use gotalk.Chat.{
  Message, NewMessage, Room, Server, send_message, gives, list_messages, newmsg_text, message_value,
  find_room, find_in, has_sock, create_room_handler, send_to, broadcast, create_room, user_of,
  create_found, notify_all, append_message, empty_server,
}
use gotalk.Chat.Locks
use gotalk.Chat.History.{Reach, here, next, creates, sends, Reach-Extends}
use gotalk.Chat.Locks.Served
use gotalk.Chat.Locks.Served.{Reach-Moves, left, steps}
use gotalk.Chat.Locks.Progress.{AllDone, Moves}
use gotalk.Chat.Locks.{
  rooms_mu, socks_mu, step_at, step_found, act, acted, is_blocked, in_the_way, acquire, release,
}
use gotalk.Chat.Locks.Deadlock.{Waits, on_connect-create_room}
use gotalk.Chat.Locks.{
  on_connect_actions, on_close_actions, create_room_actions, send_message_actions, begins,
  all_begin, System,
}

abbrev animals : Bytes
animals = b'a' ∷ b'n' ∷ b'i' ∷ []

abbrev cats : Bytes
cats = b'c' ∷ b'a' ∷ b't' ∷ []

abbrev ann : Bytes
ann = b'a' ∷ b'n' ∷ b'n' ∷ []

abbrev room : Room
room = record { room_name = animals; messages = [] }

abbrev told : NewMessage
told = record { room = animals; message = record { author = []; body = cats } }

abbrev chat : Server
chat = record {
  rooms = room ∷ [];
  socks = 4 ∷ 3 ∷ [];
  users = (3, ann) ∷ [];
  sent = [];
  closed = [];
}

abbrev said : Message
said = record { author = ann; body = cats }

send_message-listed_example :
    (sv' : Server) × (send_message 3 told chat ≡ ok (gives tt, sv'))
    × (list_messages animals sv' ≡ gives (said ∷ []))
    × (received 4 sv'.sent
        ≡ record {
          notice_name = newmsg_text;
          value = message_value (record { room = animals; message = said });
        }
          ∷ [])
unfolding bytes_eq user_of has_sock received
send_message-listed_example =
    send_message-listed 3 told room chat animals 4 (unfold find_room find_in in refl) (omega arith)
      (unfold has_sock in (refl, (refl, tt)))

-- A room, then a message from a socket that has no name
abbrev quiet : Server
quiet = record { rooms = room ∷ []; socks = []; users = []; sent = []; closed = [] }

abbrev after : Server
after = record quiet {
  rooms = record room { messages = record { author = []; body = cats } ∷ [] } ∷ [];
}

quiet-Reach : Reach (ann ∷ []) empty_server quiet
unfolding create_room_handler create_room create_found find_room find_in broadcast notify_all
quiet-Reach = next here (creates animals refl)

after-Reach : Reach (ann ∷ []) quiet after
unfolding send_message send_to find_room find_in broadcast notify_all append_message user_of
    bytes_eq
after-Reach = next here (sends 3 told (gives tt) refl)

Reach-Extends_example :
    IsDistinct quiet.socks
    × ((more : List Message) × (find_room animals after
          ≡ some (record room { messages = room.messages ++ more })))
Reach-Extends_example =
    Reach-Extends (ann ∷ []) quiet after animals room quiet-Reach after-Reach
      (unfold find_room find_in bytes_eq in refl)

on_connect-create_room_example :
    (sys : System) × (Locks.Reach
      (begins on_connect_actions
        ∷ begins (create_room_actions true)
        ∷ all_begin (on_close_actions ∷ send_message_actions 0 ∷ []))
      sys)
    × ((u : System) → Locks.Reach sys u → Waits u)
on_connect-create_room_example =
    on_connect-create_room (on_close_actions ∷ send_message_actions 0 ∷ [])

-- A room is created and a socket closes; the first has its lock.
abbrev busy : System
busy =
    record {
      held = (rooms_mu, true) ∷ [];
      rest = acquire socks_mu false ∷ release socks_mu ∷ release rooms_mu ∷ [];
    }
    ∷ begins on_close_actions
    ∷ []

busy-Reach : Locks.Reach (all_begin (create_room_actions true ∷ on_close_actions ∷ [])) busy
unfolding step_at step_found act acted is_blocked in_the_way
busy-Reach = Locks.Reach.next Locks.Reach.here 0 refl

Reach-Moves_example :
    (AllDone busy ⊎ Moves busy)
    × (steps busy-Reach + left busy
        ≡ left (all_begin (create_room_actions true ∷ on_close_actions ∷ [])))
Reach-Moves_example =
    Reach-Moves (create_room_actions true ∷ on_close_actions ∷ []) busy
      (Served.creates true, (Served.closes, tt)) busy-Reach
