-- ===== src/Protocol/Read/RoundTrip.antt =====
-- `ReadMsg` reads back what `MakeMsg` and `MakeHeartbeatMsg` wrote.
use gotalk.Common.{
  ℕ, suc, ◌^◌, ◌≤◌, ◌<◌, ◌≡◌, ◌⊎◌, refl, sym, ap, ap₂, ◌∙◌, arith, true, false, inl, inr, [], ◌∷◌,
  ◌++◌, Bytes, length, ◌==◌, ok, append_assoc, ok-injective, take_all,
}
use mathlib.Core.Path.{subst, subst₂}
use gotalk.Protocol.{
  Msg, msg_type_heartbeat, msg_type_single_req, msg_type_stream_req, msg_type_stream_req_part,
  msg_type_single_res, msg_type_stream_res, msg_type_error_res, msg_type_retry_res,
  msg_type_notification,
}
use gotalk.Protocol.Fixnum.{hex_digits}
use gotalk.Protocol.Make.{make_msg, name_size}
use gotalk.Protocol.Make.Fields.{wire, name_field, wait_field, name_field-some, IsId}
use gotalk.Protocol.Make.Wire.{make_msg-wire}
use gotalk.Protocol.Reader.{Reader}
use gotalk.Protocol.Reader.Exact.{stream, IsQuiet}
use gotalk.Protocol.Read.{has_id, has_name}
use gotalk.Protocol.Read.Kinds.{
  ReadsBack, read_head-id, read_head-no_id, read_msg-named, read_msg_short, read_msg_retry,
}

-- The messages that the program sends through `MakeMsg` and that have an answer or a payload.
pub data IsSendable (m : Msg) : Type 0 where
  request :
      (m.t ≡ msg_type_single_req) ⊎ (m.t ≡ msg_type_stream_req)
      → length m.id ≡ 4
      → 0 < length m.name
      → length m.name < 4096
      → m.wait ≡ 0
      → IsSendable m
  notification :
      m.t ≡ msg_type_notification
      → m.id ≡ []
      → 0 < length m.name
      → length m.name < 4096
      → m.wait ≡ 0
      → IsSendable m
  plain :
      (m.t ≡ msg_type_stream_req_part)
        ⊎ (m.t ≡ msg_type_single_res)
        ⊎ (m.t ≡ msg_type_stream_res)
        ⊎ (m.t ≡ msg_type_error_res)
      → length m.id ≡ 4
      → m.name ≡ []
      → m.wait ≡ 0
      → IsSendable m
  retry : m.t ≡ msg_type_retry_res → length m.id ≡ 4 → m.name ≡ [] → m.wait < 2 ^ 32 → IsSendable m

ne_retry :
    {t : ℕ} (k : ℕ) → t ≡ k → (k == msg_type_retry_res) ≡ false → (t == msg_type_retry_res) ≡ false
ne_retry k e h = rw e h

wire-named :
    (t : ℕ) (id name : Bytes) (wait size : ℕ)
    → (t == msg_type_retry_res) ≡ false
    → length id ≤ 4
    → 0 < length name
    → wire t id name wait size
      ≡ (t ∷ id) ++ (hex_digits 3 (length name) ++ (name ++ hex_digits 8 size))
unfolding wire wait_field name_size
wire-named t id name wait size other hid some_name =
    rw (other, take_all 4 id hid, name_field-some (length name) name (λ e. omega arith))
      (ap (λ r. t ∷ (id ++ r)) (append_assoc (hex_digits 3 (length name)) name (hex_digits 8 size)))

wire-plain :
    (t : ℕ) (id : Bytes) (wait size : ℕ)
    → (t == msg_type_retry_res) ≡ false
    → length id ≤ 4
    → wire t id [] wait size ≡ (t ∷ id) ++ hex_digits 8 size
unfolding wire wait_field name_size name_field
wire-plain t id wait size other hid = rw (other, take_all 4 id hid)

wire-retry :
    (id : Bytes) (wait size : ℕ)
    → length id ≤ 4
    → wire msg_type_retry_res id [] wait size
      ≡ ((msg_type_retry_res ∷ id) ++ hex_digits 8 wait) ++ hex_digits 8 size
unfolding wire wait_field name_size name_field
wire-retry id wait size hid =
    rw (take_all 4 id hid)
      (sym (append_assoc (msg_type_retry_res ∷ id) (hex_digits 8 wait) (hex_digits 8 size)))

request_tests :
    (t : ℕ)
    → (t ≡ msg_type_single_req) ⊎ (t ≡ msg_type_stream_req)
    → (has_name t ≡ true)
      × ((t == msg_type_retry_res) ≡ false)
      × ((t == msg_type_heartbeat) ≡ false)
      × (has_id t ≡ true)
unfolding has_name has_id
request_tests t (inl e) = rw e (refl, refl, refl, refl)
request_tests t (inr e) = rw e (refl, refl, refl, refl)

plain_tests :
    (t : ℕ)
    → (t ≡ msg_type_stream_req_part)
      ⊎ (t ≡ msg_type_single_res)
      ⊎ (t ≡ msg_type_stream_res)
      ⊎ (t ≡ msg_type_error_res)
    → (has_name t ≡ false)
      × ((t == msg_type_retry_res) ≡ false)
      × ((t == msg_type_heartbeat) ≡ false)
      × (has_id t ≡ true)
unfolding has_name has_id
plain_tests t h = ground arith

notification_tests :
    (has_name msg_type_notification ≡ true) × (has_id msg_type_notification ≡ false)
unfolding has_name has_id
notification_tests = (refl, refl)

abbrev WireOf : Msg → Bytes
WireOf m = wire m.t m.id m.name m.wait m.size

read_wire :
    (m : Msg) (s : Reader) (b rest : Bytes)
    → IsSendable m
    → m.size < 2 ^ 32
    → IsQuiet s
    → stream s ≡ WireOf m ++ rest
    → 21 ≤ length b
    → ReadsBack m s b rest
read_wire m s b rest (request ht hid some_name short hw) hs q e room =
    let (named, other, heart, with_id) = request_tests m.t ht in
    subst (λ w. ReadsBack (record m { wait = w }) s b rest) (sym hw)
      (read_msg-named s b m.t m.id m.name rest m.size q
        (e
          ∙ ap (λ w. w ++ rest)
              (wire-named m.t m.id m.name m.wait m.size other (omega arith) some_name))
        (omega arith) (omega arith) some_name short hs named
        (λ tail.
          read_head-id m.t m.id tail heart with_id hid ∙ ap (λ n. ok (m.id, 0, n)) (omega arith)))
read_wire m s b rest (notification ht hid some_name short hw) hs q e room =
    let (named, no_id) = notification_tests in
    let none_long : length m.id ≤ 4 = omega (arith, ap length hid) in
    subst (λ w. ReadsBack (record m { wait = w }) s b rest) (sym hw)
      (read_msg-named s b m.t m.id m.name rest m.size q
        (e
          ∙ ap (λ w. w ++ rest)
              (wire-named m.t m.id m.name m.wait m.size (ne_retry _ ht refl) none_long some_name))
        (omega arith) none_long some_name short hs (rw ht named)
        (λ tail.
          read_head-no_id m.t _ (rw ht refl) (rw ht no_id)
          ∙ ap (λ (i : Bytes). ok (i, 0, suc (length i))) (sym hid)))
read_wire m s b rest (plain ht hid hn hw) hs q e room =
    let (unnamed, other, heart, with_id) = plain_tests m.t ht in
    subst₂ (λ n w. ReadsBack (record m { name = n; wait = w }) s b rest) (sym hn) (sym hw)
      (read_msg_short s b m.t m.id m.id rest 0 m.size q
        (e
          ∙ ap (λ n. wire m.t m.id n m.wait m.size ++ rest) hn
          ∙ ap (λ w. w ++ rest) (wire-plain m.t m.id m.wait m.size other (omega arith)))
        (omega arith) hid hs unnamed other (λ tail. read_head-id m.t m.id tail heart with_id hid))
read_wire m s b rest (retry ht hid hn hw) hs q e room =
    subst₂ (λ t n. ReadsBack (record m { t = t; name = n }) s b rest) (sym ht) (sym hn)
      (read_msg_retry s b m.id rest m.wait m.size q
        (e
          ∙ ap₂ (λ t n. wire t m.id n m.wait m.size ++ rest) ht hn
          ∙ ap (λ w. w ++ rest) (wire-retry m.id m.wait m.size (omega arith)))
        room hid hw hs)

IsSendable-IsId : {m : Msg} → IsSendable m → IsId m.id
IsSendable-IsId (request ht hid some_name short hw) = inr (omega arith)
IsSendable-IsId (notification ht hid some_name short hw) = inl hid
IsSendable-IsId (plain ht hid hn hw) = inr (omega arith)
IsSendable-IsId (retry ht hid hn hw) = inr (omega arith)

IsSendable-fits : {m : Msg} → IsSendable m → (name_size m.t m.name < 4096) × (m.wait < 2 ^ 32)
unfolding name_size
IsSendable-fits (request ht hid some_name short hw) = (ground arith, omega arith)
IsSendable-fits (notification ht hid some_name short hw) = (ground arith, omega arith)
IsSendable-fits (plain ht hid hn hw) = (ground (arith, ap length hn), omega arith)
IsSendable-fits (retry ht hid hn hw) = (ground (arith, ap length hn), hw)

-- `MakeMsg` gives the bytes of every message that the program sends with it,
pub made :
    (m : Msg)
    → IsSendable m
    → m.size < 2 ^ 32
    → make_msg m.t m.id m.name m.wait m.size ≡ ok (WireOf m)
made m h hs =
    let (short, hw) = IsSendable-fits h in
    make_msg-wire m.t m.id m.name m.wait m.size (IsSendable-IsId h) short hw hs

-- From a stream with no read failure that starts with what `MakeMsg` made of a sendable message (a
-- request or notification with a name of 1 to 4095 bytes, a stream part, a single, stream or error
-- result, or a retry result; a 4-byte id where the type has one; size and wait of 32 bits),
-- `ReadMsg` gives back that message and leaves the stream exactly behind it, whatever follows,
-- however it is cut into reads, and whatever is in the buffer of at least 21 bytes, which keeps its
-- size.
pub read_msg-make_msg :
    (m : Msg) (s : Reader) (b w rest : Bytes)
    → IsSendable m
    → m.size < 2 ^ 32
    → make_msg m.t m.id m.name m.wait m.size ≡ ok w
    → IsQuiet s
    → stream s ≡ w ++ rest
    → 21 ≤ length b
    → ReadsBack m s b rest
read_msg-make_msg m s b w rest h hs e q es room =
    read_wire m s b rest h hs q (es ∙ ap (λ v. v ++ rest) (ok-injective (sym e ∙ made m h hs))) room
