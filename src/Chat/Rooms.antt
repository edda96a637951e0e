-- ===== src/Chat/Rooms.antt =====
-- A message that is sent is listed, and is heard once by everyone who is connected.
use gotalk.Common.{
  bytes_eq, Bytes, Option, ◌++◌, List, some, ◌∷◌, ◌≡◌, [], if◌then◌else◌, none, arith, refl, true,
  ap, bytes_eq-eq, ◌∙◌, false, sym, ℕ, ◌==◌, Bool, ◌||◌, clash, ◌<◌, length, ok, eqb-eq_false,
  eqb-true_eq,
}
use gotalk.Chat.{
  Message, Room, find_in, append_message, notify_all, send_message, Notice, has_sock, notify_sock,
  send_to, Server, list_messages, find_room, broadcast, messages_or_error, NewMessage, gives,
  user_of, newmsg_text, message_value, fails, empty_message_text,
}

bytes_eq-right : (a b c : Bytes) → bytes_eq b c ≡ true → bytes_eq a c ≡ bytes_eq a b
bytes_eq-right a b c e = ap (bytes_eq a) (sym (bytes_eq-eq b c e))

bytes_eq-left : (a b c : Bytes) → bytes_eq a b ≡ true → bytes_eq a c ≡ bytes_eq b c
bytes_eq-left a b c e = ap (λ v. bytes_eq v c) (bytes_eq-eq a b e)

-- A room with a message more
abbrev pub with_message : Message → Room → Room
with_message m r = record r { messages = r.messages ++ (m ∷ []) }

abbrev pub map_room : (Room → Room) → Option Room → Option Room
map_room f none = none
map_room f (some r) = some (f r)

pub find_in-append_message :
    (name j : Bytes) (m : Message) (rs : List Room)
    → find_in j (append_message name m rs)
      ≡ (if bytes_eq name j then map_room (with_message m) (find_in j rs) else find_in j rs)
unfolding find_in append_message
find_in-append_message name j m [] = ground arith
find_in-append_message name j m (r ∷ rs) = ground (
  arith,
  find_in-append_message name j m rs,
  bytes_eq-right r.room_name name j,
  bytes_eq-left r.room_name name j,
)

pub find_in-snoc :
    (j : Bytes) (r : Room) (rs : List Room)
    → find_in j (rs ++ (r ∷ [])) ≡ elim (find_in j rs) [
      | some found ↦ some found
      | none ↦ if bytes_eq r.room_name j then some r else none
    ]
unfolding find_in
find_in-snoc j r [] = refl
find_in-snoc j r (x ∷ rs) = ground (arith, find_in-snoc j r rs)

-- What a socket was notified of, the latest first
unfoldable pub received : ℕ → List (ℕ × Notice) → List Notice
received k [] = []
received k ((s, n) ∷ sent) = if s == k then n ∷ received k sent else received k sent

-- No socket is in the list twice.
abbrev pub IsDistinct : List ℕ → Type 0
IsDistinct [] = Unit {0}
IsDistinct (s ∷ ss) = (has_sock s ss ≡ false) × IsDistinct ss

pub notify_all-keeps :
    (n : Notice) (ss : List ℕ) (sv : Server)
    → ((notify_all n ss sv).rooms ≡ sv.rooms)
      × ((notify_all n ss sv).socks ≡ sv.socks)
      × ((notify_all n ss sv).users ≡ sv.users)
      × ((notify_all n ss sv).closed ≡ sv.closed)
unfolding notify_all notify_sock
notify_all-keeps n [] sv = (refl, refl, refl, refl)
notify_all-keeps n (s ∷ ss) sv = notify_all-keeps n ss (notify_sock n s sv)

pub received-notify_all :
    (k : ℕ) (n : Notice) (ss : List ℕ) (sv : Server)
    → IsDistinct ss
    → received k (notify_all n ss sv).sent
      ≡ (if has_sock k ss then n ∷ received k sv.sent else received k sv.sent)
unfolding notify_all notify_sock has_sock received
received-notify_all k n [] sv h = refl
received-notify_all k n (s ∷ ss) sv (out, h) =
    let ih = received-notify_all k n ss (notify_sock n s sv) h in
    ih
    ∙ tests (s == k) (has_sock k ss) (λ e. ap (λ x. has_sock x ss) (sym (eqb-true_eq s k e)) ∙ out)
  where
    tests :
        (b d : Bool)
        → (b ≡ true → d ≡ false)
        → (if d
            then n ∷ (if b then n ∷ received k sv.sent else received k sv.sent)
            else (if b then n ∷ received k sv.sent else received k sv.sent))
          ≡ (if b || d then n ∷ received k sv.sent else received k sv.sent)
    tests true true f = absurd (clash refl (f refl))
    tests true false f = refl
    tests false true f = refl
    tests false false f = refl

-- For a room that exists, a body that is not empty and sockets that are listed once each, the chat
-- server's "send-message" ends without an error. Then "list-messages" gives for that room its
-- messages from before with this one behind them, whose author is the sender's user name, and for
-- any other name what it gave before; and each listed socket has been notified of the message once,
-- and no other has been notified.
pub send_message-listed :
    (s : ℕ) (r : NewMessage) (found : Room) (sv : Server) (j : Bytes) (k : ℕ)
    → find_room r.room sv ≡ some found
    → 0 < length r.message.body
    → IsDistinct sv.socks
    → (sv' : Server) × (send_message s r sv ≡ ok (gives tt, sv'))
      × (list_messages j sv' ≡ (
          if bytes_eq r.room j
          then gives (
              found.messages
              ++ (record { author = user_of s sv.users; body = r.message.body } ∷ []))
          else list_messages j sv))
      × (received k sv'.sent ≡ (
          if has_sock k sv.socks
          then record {
            notice_name = newmsg_text;
            value = message_value (record r {
              message = record { author = user_of s sv.users; body = r.message.body };
            });
          }
            ∷ received k sv.sent
          else received k sv.sent))
unfolding send_message send_to list_messages find_room broadcast messages_or_error
send_message-listed s r found sv j k here some_body set =
    let m : Message = record { author = user_of s sv.users; body = r.message.body } in
    let sv1 : Server = record sv { rooms = append_message r.room m sv.rooms } in
    let note : Notice = record {
      notice_name = newmsg_text;
      value = message_value (record r { message = m });
    } in
    (
      notify_all note sv.socks sv1,
      ap
            (λ (b : Bool).
              if b then ok (fails empty_message_text, sv) else send_to (find_room r.room sv) s r sv)
            (eqb-eq_false (length r.message.body) 0 (λ e. omega (arith, e)))
          ∙ ap (λ f. send_to f s r sv) here,
      ap (λ rs. messages_or_error (find_in j rs)) (notify_all-keeps note sv.socks sv1).0
          ∙ ap messages_or_error (find_in-append_message r.room j m sv.rooms)
          ∙ room_test (bytes_eq r.room j)
              (λ e. ap (λ v. find_in v sv.rooms) (sym (bytes_eq-eq r.room j e)) ∙ here),
      received-notify_all k note sv.socks sv1 set,
    )
  where
    room_test :
        (b : Bool)
        → (b ≡ true → find_in j sv.rooms ≡ some found)
        → messages_or_error (
            if b
            then map_room
                (with_message (record { author = user_of s sv.users; body = r.message.body }))
                (find_in j sv.rooms)
            else find_in j sv.rooms)
          ≡ (if b
              then gives (
                  found.messages
                  ++ (record { author = user_of s sv.users; body = r.message.body } ∷ []))
              else messages_or_error (find_in j sv.rooms))
    room_test true f =
        ap
          (λ x. messages_or_error (
            map_room (with_message (record { author = user_of s sv.users; body = r.message.body }))
              x))
          (f refl)
    room_test false f = refl
