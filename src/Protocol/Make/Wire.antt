-- ===== src/Protocol/Make/Wire.antt =====
-- What `MakeMsg` and `MakeHeartbeatMsg` put on the wire, field by field.
use gotalk.Common.{
  ℕ, suc, ◌+◌, ◌-◌, ◌^◌, ◌≤◌, ◌<◌, ◌≡◌, ◌≢◌, ◌⊎◌, inl, inr, refl, ap, ◌∙◌, arith, ◌∷◌, ◌++◌, Bytes,
  length, take, replicate, ◌==◌, if◌then◌else◌, ok, panic, length-append, take-append, append_assoc,
  eqb-eq_false, Bool-cases, length-take,
}
use native.Mathlib.Decide.{ℕ_discrete}
use gotalk.Protocol.{msg_type_retry_res}
use gotalk.Protocol.Fixnum.{hex_digits}
use gotalk.Protocol.Fixnum.Copy.{length-hex_digits}
use gotalk.Protocol.Make.{name_size, buf_size, write_name, make_msg}
use gotalk.Protocol.Make.Fields.{
  put_fixnum-panic, name_field, wait_field, wire, IsId, write_id-Written, name_field-some,
  sized_pos, write_name-Written, write_wait-Written, write_size-append,
}

name_size-cases :
    (t : ℕ) (name3 : Bytes) → (name_size t name3 ≡ 0) ⊎ (name_size t name3 ≡ length name3)
unfolding name_size
name_size-cases t name3 = elim (Bool-cases (t == msg_type_retry_res)) [
  | inl retry ↦ rw retry (inl refl)
  | inr other ↦ rw other (inr refl)
]

length-id_field : (id : Bytes) → IsId id → length (take 4 id) ≡ (if length id == 0 then 0 else 4)
length-id_field id (inl e) = rw e
length-id_field id (inr h) =
    rw (eqb-eq_false (length id) 0 (λ e. omega arith)) (omega (arith, length-take 4 id))

length-name_field :
    (n : ℕ) (name3 : Bytes)
    → (n ≡ 0) ⊎ (n ≡ length name3)
    → length (name_field n name3) ≡ (if n == 0 then 0 else 3 + n)
length-name_field n name3 sized = elim (ℕ_discrete n 0) [
  | yes e ↦ rw e (unfold name_field in refl)
  | no h ↦
      rw (name_field-some n name3 h, eqb-eq_false n 0 h)
        (omega
          (arith, sized_pos h sized, length-append (hex_digits 3 n) name3, length-hex_digits 3 n))
]

length-wait_field :
    (t wait : ℕ) → length (wait_field t wait) ≡ (if t == msg_type_retry_res then 8 else 0)
unfolding wait_field
length-wait_field t wait = elim (Bool-cases (t == msg_type_retry_res)) [
  | inl retry ↦ rw retry (length-hex_digits 8 wait)
  | inr other ↦ rw other
]

-- The buffer has room for every field; but for a retry result it has no byte more.
buf_size-fits :
    (t : ℕ) (id name3 : Bytes) (wait : ℕ)
    → IsId id
    → 9
        + length (take 4 id)
        + length (name_field (name_size t name3) name3)
        + length (wait_field t wait)
      ≤ buf_size t id name3
unfolding buf_size
buf_size-fits t id name3 wait is_id = ground (
  arith,
  length-id_field id is_id,
  length-name_field (name_size t name3) name3 (name_size-cases t name3),
  length-wait_field t wait,
)

-- With an id that is empty or of 4 bytes at least, a name that counts for less than 4096 bytes, and
-- a wait and a size of 32 bits, `MakeMsg` succeeds and gives the wire form: the type, 4 bytes of
-- id, the name behind its length in 3 digits unless there is none, 8 digits of wait for a retry
-- result only, and 8 digits of size.
pub make_msg-wire :
    (t : ℕ) (id name3 : Bytes) (wait size : ℕ)
    → IsId id
    → name_size t name3 < 4096
    → wait < 2 ^ 32
    → size < 2 ^ 32
    → make_msg t id name3 wait size ≡ ok (wire t id name3 wait size)
unfolding make_msg wire
make_msg-wire t id name3 wait size is_id hname hwait hsize =
    let n = name_size t name3 in
    let k0 = buf_size t id name3 in
    let fits = buf_size-fits t id name3 wait is_id in
    let pre1 : Bytes = t ∷ take 4 id in
    let k1 = k0 - suc (length (take 4 id)) in
    let pre2 : Bytes = pre1 ++ name_field n name3 in
    let k2 = k1 - length (name_field n name3) in
    let pre3 : Bytes = pre2 ++ wait_field t wait in
    let k3 = k2 - length (wait_field t wait) in
    rw
      (
        write_id-Written k0 t id (omega (arith, fits)) is_id,
        write_name-Written pre1 k1 n name3 (name_size-cases t name3) (omega (arith, fits)) hname,
        write_wait-Written pre2 k2 t wait (omega (arith, fits)) hwait,
        write_size-append pre3 k3 size (omega (arith, fits)) hsize,
        take-append (length pre3 + 8) (pre3 ++ hex_digits 8 size) (replicate (k3 - 8) 0)
            (omega (arith, length-append pre3 (hex_digits 8 size), length-hex_digits 8 size)),
      )
      (ap ok (
        append_assoc pre2 (wait_field t wait) (hex_digits 8 size)
        ∙ append_assoc pre1 (name_field n name3) (wait_field t wait ++ hex_digits 8 size)))

-- With an id that is empty or of 4 bytes at least, and a type that is not a retry result, `MakeMsg`
-- on a name of 4096 bytes or more, below `2 ^ 63`, panics.
pub make_msg-panic :
    (t : ℕ) (id name3 : Bytes) (wait size : ℕ)
    → IsId id
    → t ≢ msg_type_retry_res
    → 4096 ≤ length name3
    → length name3 < 2 ^ 63
    → make_msg t id name3 wait size ≡ panic
unfolding make_msg write_name name_size
make_msg-panic t id name3 wait size is_id ht big h =
    let k0 = buf_size t id name3 in
    let fits = buf_size-fits t id name3 wait is_id in
    rw (
      write_id-Written k0 t id (omega (arith, fits)) is_id,
      eqb-eq_false t msg_type_retry_res ht,
      eqb-eq_false (length name3) 0 (λ e. omega arith),
      put_fixnum-panic _ _ 3 (length name3) (omega arith) (omega arith) (omega arith),
    )
