-- ===== src/Protocol/Make/Heartbeat.antt =====
-- What `MakeHeartbeatMsg` puts on the wire.
use gotalk.Common.{
  length-drop, ℕ, suc, ◌^◌, ◌≤◌, ◌<◌, ◌≡◌, sym, ap, ◌∙◌, arith, [], ◌∷◌, ◌++◌, Bytes, length, take,
  drop, ok, panic, length-append, take-append, append_assoc, leb-eq_true,
}
use gotalk.Protocol.{msg_type_heartbeat}
use gotalk.Protocol.Fixnum.{hex_digits}
use gotalk.Protocol.Fixnum.Copy.{length-hex_digits}
use gotalk.Protocol.Make.{make_heartbeat_msg}
use gotalk.Protocol.Make.Fields.{put_fixnum-append, put_fixnum-panic}

-- For a buffer of at least 13 bytes, a load of 16 bits and a time of 32 bits, `MakeHeartbeatMsg`
-- succeeds and gives the type, 4 digits of load and 8 digits of time.
pub make_heartbeat_msg-wire :
    (load now : ℕ) (b : Bytes)
    → 13 ≤ length b
    → load < 2 ^ 16
    → now < 2 ^ 32
    → make_heartbeat_msg load now b
      ≡ ok (msg_type_heartbeat ∷ (hex_digits 4 load ++ hex_digits 8 now))
unfolding make_heartbeat_msg
make_heartbeat_msg-wire load now [] room hl hn = absurd (omega arith)
make_heartbeat_msg-wire load now (c ∷ b) room hl hn =
    let pre : Bytes = msg_type_heartbeat ∷ [] in
    let pre2 : Bytes = pre ++ hex_digits 4 load in
    let len : length pre2 ≡ 5 = omega (arith, length-hex_digits 4 load) in
    let rest : Bytes = drop 4 b in
    let whole : Bytes = pre2 ++ hex_digits 8 now in
    let first =
      put_fixnum-append pre b 4 load (omega arith) (omega arith) (omega arith) (omega arith) in
    let second =
      put_fixnum-append pre2 rest 8 now (omega arith) (omega (arith, length-drop 4 b)) (omega arith)
        (omega arith) in
    rw
      (
        leb-eq_true 1 (suc (length b)) (omega arith),
        first,
        ← append_assoc pre (hex_digits 4 load) rest,
        ← len,
        second,
      )
      (ap ok (
        ap (take 13) (sym (append_assoc pre2 (hex_digits 8 now) (drop 8 rest)))
        ∙ take-append 13 whole (drop 8 rest)
            (omega (arith, length-append pre2 (hex_digits 8 now), length-hex_digits 8 now, len))))

-- For a buffer of at least 13 bytes and a load of 16 bits, `MakeHeartbeatMsg` panics at every time
-- of 64 bits from `2 ^ 32` seconds on, in the year 2106.
pub make_heartbeat_msg-panic :
    (load now : ℕ) (b : Bytes)
    → 13 ≤ length b
    → load < 2 ^ 16
    → 2 ^ 32 ≤ now
    → now < 2 ^ 64
    → make_heartbeat_msg load now b ≡ panic
unfolding make_heartbeat_msg
make_heartbeat_msg-panic load now [] room hl big h = absurd (omega arith)
make_heartbeat_msg-panic load now (c ∷ b) room hl big h = rw (
  leb-eq_true 1 (suc (length b)) (omega arith),
  put_fixnum-append (msg_type_heartbeat ∷ []) b 4 load (omega arith) (omega arith) (omega arith)
      (omega arith),
  put_fixnum-panic ((msg_type_heartbeat ∷ []) ++ (hex_digits 4 load ++ drop 4 b)) 5 8 now
      (omega arith) (omega arith) h,
)
