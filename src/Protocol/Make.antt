-- ===== src/Protocol/Make.antt =====
-- `MakeMsg` and `MakeHeartbeatMsg` write into a buffer of fixed size.
pub mod Fields
pub mod Wire
pub mod Heartbeat
use gotalk.Common.{
  ℕ, zero, suc, ◌+◌, ◌-◌, min, Bool, true, false, List, [], ◌∷◌, ◌++◌, Bytes, length, set,
  get_elem?, take, drop, replicate, leb, ◌==◌, if◌then◌else◌, Result, ok, panic, ◌>>=◌, or_panic,
  check, Option, none, some,
}
use gotalk.Protocol.{msg_type_retry_res, msg_type_heartbeat}
use gotalk.Protocol.Fixnum.{copy_fixnum}

-- `copyFixnum(b[z:z+k], k, n, 16)`
unfoldable pub put_fixnum : Bytes → ℕ → ℕ → ℕ → Result Bytes
put_fixnum b z k n =
    check (leb (z + k) (length b)) (do out ← copy_fixnum (drop z b) k n; ok (take z b ++ out))

-- `copy(b[z:], s)`, for `z` within the buffer
unfoldable pub copy_at : Bytes → ℕ → Bytes → Bytes
copy_at b z s = take z b ++ (take (length b - z) s ++ drop (z + length s) b)

-- `b[i] = s[j]`
unfoldable pub put_index : Bytes → ℕ → Bytes → ℕ → Result Bytes
put_index b i s j = do c ← or_panic (get_elem? s j); check (leb (suc i) (length b)) (ok (set b i c))

-- The length that counts of `name3`: a retry result has none.
unfoldable pub name_size : ℕ → Bytes → ℕ
name_size t name3 = if t == msg_type_retry_res then 0 else length name3

-- `bz`
unfoldable pub buf_size : ℕ → Bytes → Bytes → ℕ
unfolding name_size
buf_size t id name3 =
    if t == msg_type_retry_res
    then 21
    else 9
      + (if length id == 0 then 0 else 4)
      + (if name_size t name3 == 0 then 0 else 3 + name_size t name3)

-- The four fields of `MakeMsg`; each returns the buffer and the next offset `z`.
unfoldable pub write_id : Bytes → Bytes → Result (Bytes × ℕ)
unfolding put_index
write_id b [] = ok (b, 1)
write_id b (c ∷ cs) = do
  b1 ← put_index b 1 (c ∷ cs) 0
  b2 ← put_index b1 2 (c ∷ cs) 1
  b3 ← put_index b2 3 (c ∷ cs) 2
  b4 ← put_index b3 4 (c ∷ cs) 3
  ok (b4, 5)

unfoldable pub write_name : Bytes → ℕ → ℕ → Bytes → Result (Bytes × ℕ)
write_name b z name3z name3 =
    if name3z == 0
    then ok (b, z)
    else (do b1 ← put_fixnum b z 3 name3z; ok (copy_at b1 (z + 3) name3, z + 3 + name3z))

unfoldable pub write_wait : Bytes → ℕ → ℕ → ℕ → Result (Bytes × ℕ)
write_wait b z t wait =
    if t == msg_type_retry_res then (do b1 ← put_fixnum b z 8 wait; ok (b1, z + 8)) else ok (b, z)

unfoldable pub write_size : Bytes → ℕ → ℕ → Result Bytes
write_size b z size = if size == 0 then ok (copy_at b z (replicate 8 48)) else put_fixnum b z 8 size

unfoldable pub make_msg : ℕ → Bytes → Bytes → ℕ → ℕ → Result Bytes
make_msg t id name3 wait size = do
  (b1, z1) ← write_id (set (replicate (buf_size t id name3) 0) 0 t) id
  (b2, z2) ← write_name b1 z1 (name_size t name3) name3
  (b3, z3) ← write_wait b2 z2 t wait
  b4 ← write_size b3 z3 size
  ok (take (z3 + 8) b4)

-- `now` is `uint64(time.Now().UTC().Unix())`, and `b` the caller's buffer.
unfoldable pub make_heartbeat_msg : ℕ → ℕ → Bytes → Result Bytes
make_heartbeat_msg load now b = do
  b1 ← check (leb 1 (length b)) (ok (set b 0 msg_type_heartbeat))
  b2 ← put_fixnum b1 1 4 load
  b3 ← put_fixnum b2 5 8 now
  ok (take 13 b3)
