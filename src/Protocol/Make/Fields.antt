-- ===== src/Protocol/Make/Fields.antt =====
-- The fields of `MakeMsg`, each written over a buffer of zeros behind what is there already.
use gotalk.Common.{
  ℕ, suc, ◌+◌, ◌-◌, ◌^◌, ◌≤◌, ◌<◌, ◌≡◌, ◌≢◌, ◌⊎◌, inl, inr, refl, sym, ap, ◌∙◌, arith, [], ◌∷◌,
  ◌++◌, Bytes, length, set, take, drop, replicate, leb, ◌==◌, if◌then◌else◌, Result, ok, panic,
  length-append, length-replicate, take-append, drop-append, append_assoc, leb-eq_true,
  eqb-eq_false, Bool-cases, take_all, drop-drop, append-nil, drop-replicate, ap₂,
}
use native.Mathlib.Nat.{add_comm, sub-zero}
use native.Mathlib.Decide.{ℕ_discrete}
use gotalk.Protocol.{msg_type_retry_res}
use gotalk.Protocol.Fixnum.{hex_digits}
use gotalk.Protocol.Fixnum.Copy.{
  copy_fixnum-hex_digits, copy_fixnum-panic, hex_digits-zero, length-hex_digits,
}
use gotalk.Protocol.Make.{
  put_fixnum, copy_at, name_size, write_id, write_name, write_wait, write_size,
}

-- A number field behind `pre`, over the first `k` bytes of `rest`.
pub put_fixnum-append :
    (pre rest : Bytes) (k n : ℕ)
    → 0 < k
    → k ≤ length rest
    → n < 16 ^ k
    → n < 2 ^ 64
    → put_fixnum (pre ++ rest) (length pre) k n ≡ ok (pre ++ (hex_digits k n ++ drop k rest))
unfolding put_fixnum
put_fixnum-append pre rest k n hk room fits h = rw (
  leb-eq_true (length pre + k) (length (pre ++ rest)) (omega (arith, length-append pre rest)),
  drop-append (length pre) pre rest refl,
  copy_fixnum-hex_digits rest k n hk room fits h,
  take-append (length pre) pre rest refl,
)

pub put_fixnum-panic :
    (b : Bytes) (z k n : ℕ) → 0 < k → 16 ^ k ≤ n → n < 2 ^ 64 → put_fixnum b z k n ≡ panic
unfolding put_fixnum
put_fixnum-panic b z k n hk big h = elim (Bool-cases (leb (z + k) (length b))) [
  | inl room ↦ rw (room, copy_fixnum-panic (drop z b) k n hk big h)
  | inr short ↦ rw short
]

pub copy_at-append :
    (pre rest s : Bytes)
    → length s ≤ length rest
    → copy_at (pre ++ rest) (length pre) s ≡ pre ++ (s ++ drop (length s) rest)
unfolding copy_at
copy_at-append pre rest s room = rw (
  take-append (length pre) pre rest refl,
  take_all (length (pre ++ rest) - length pre) s (omega (arith, length-append pre rest)),
  add_comm (length pre) (length s),
  ← drop-drop (length s) (length pre) (pre ++ rest),
  drop-append (length pre) pre rest refl,
)

-- The fields of a message, one after the other.
unfoldable pub name_field : ℕ → Bytes → Bytes
name_field name3z name3 = if name3z == 0 then [] else hex_digits 3 name3z ++ name3

unfoldable pub wait_field : ℕ → ℕ → Bytes
wait_field t wait = if t == msg_type_retry_res then hex_digits 8 wait else []

unfoldable pub wire : ℕ → Bytes → Bytes → ℕ → ℕ → Bytes
wire t id name3 wait size =
    t
    ∷ (take 4 id
        ++ (name_field (name_size t name3) name3 ++ (wait_field t wait ++ hex_digits 8 size)))

-- Everything before the offset is `pre`, and `k` zeros follow.
abbrev pub Written : Bytes → ℕ → Result (Bytes × ℕ) → Type 0
Written pre k r = r ≡ ok (pre ++ replicate k 0, length pre)

pub zeros-step : (k : ℕ) → 0 < k → replicate {A = ℕ} k 0 ≡ 0 ∷ replicate (k - 1) 0
zeros-step k h = ap (λ m. replicate {A = ℕ} m 0) {x = k} {y = suc (k - 1)} (omega arith)

pub zeros_five : (k : ℕ) → 5 ≤ k → replicate {A = ℕ} k 0 ≡ 0 ∷ 0 ∷ 0 ∷ 0 ∷ 0 ∷ replicate (k - 5) 0
zeros_five k h =
    ap (λ m. replicate {A = ℕ} m 0) {x = k} {y = suc (suc (suc (suc (suc (k - 5)))))} (omega arith)

-- A request id is empty or has four bytes at least.
abbrev pub IsId : Bytes → Type 0
IsId id = (id ≡ []) ⊎ (4 ≤ length id)

pub write_id-Written :
    (k t : ℕ) (id : Bytes)
    → 5 ≤ k
    → IsId id
    → Written (t ∷ take 4 id) (k - suc (length (take 4 id))) (write_id (set (replicate k 0) 0 t) id)
unfolding write_id
write_id-Written k t [] h is_id = rw (zeros-step k (omega arith))
write_id-Written k t (c0 ∷ c1 ∷ c2 ∷ c3 ∷ cs) h is_id = rw (zeros_five k h) (ground arith)
write_id-Written k t (c0 ∷ c1 ∷ c2 ∷ []) h is_id = ground arith
write_id-Written k t (c0 ∷ c1 ∷ []) h is_id = ground arith
write_id-Written k t (c0 ∷ []) h is_id = ground arith

-- A number or a text over the zeros.
pub put_fixnum-zeros :
    (pre : Bytes) (k w n : ℕ)
    → 0 < w
    → w ≤ k
    → n < 16 ^ w
    → n < 2 ^ 64
    → put_fixnum (pre ++ replicate k 0) (length pre) w n
      ≡ ok ((pre ++ hex_digits w n) ++ replicate (k - w) 0)
put_fixnum-zeros pre k w n hw room fits h =
    put_fixnum-append pre (replicate k 0) w n hw (omega (arith, length-replicate {A = ℕ} k 0)) fits
      h
    ∙ ap ok (
        rw (drop-replicate {A = ℕ} w k 0)
          (sym (append_assoc pre (hex_digits w n) (replicate (k - w) 0))))

pub copy_at-zeros :
    (pre : Bytes) (k : ℕ) (s : Bytes)
    → length s ≤ k
    → copy_at (pre ++ replicate k 0) (length pre) s ≡ (pre ++ s) ++ replicate (k - length s) 0
copy_at-zeros pre k s room =
    copy_at-append pre (replicate k 0) s (omega (arith, length-replicate {A = ℕ} k 0))
    ∙ rw (drop-replicate {A = ℕ} (length s) k 0)
        (sym (append_assoc pre s (replicate (k - length s) 0)))

-- Nothing is written.
pub Written-nil :
    (pre : Bytes) (k : ℕ) → Written (pre ++ []) (k - 0) (ok (pre ++ replicate k 0, length pre))
Written-nil pre k = rw (append-nil, sub-zero)

pub name_field-some : (n : ℕ) (name3 : Bytes) → n ≢ 0 → name_field n name3 ≡ hex_digits 3 n ++ name3
unfolding name_field
name_field-some n name3 h = rw (eqb-eq_false n 0 h)

pub sized_pos : {n m : ℕ} → n ≢ 0 → (n ≡ 0) ⊎ (n ≡ m) → n ≡ m
sized_pos h (inl e) = absurd (h e)
sized_pos h (inr e) = e

pub write_name_some :
    (pre : Bytes) (k n : ℕ) (name3 : Bytes)
    → n ≢ 0
    → n ≡ length name3
    → 3 + n ≤ k
    → n < 4096
    → Written
        (pre ++ (hex_digits 3 n ++ name3))
        (k - (3 + n))
        (write_name (pre ++ replicate k 0) (length pre) n name3)
unfolding write_name
write_name_some pre k n name3 h sized room fits =
    let pre' : Bytes = pre ++ hex_digits 3 n in
    let len : length pre' ≡ length pre + 3 =
      omega (arith, length-append pre (hex_digits 3 n), length-hex_digits 3 n) in
    rw
      (
        eqb-eq_false n 0 h,
        put_fixnum-zeros pre k 3 n (omega arith) (omega arith) (omega arith) (omega arith),
        ← len,
        copy_at-zeros pre' (k - 3) name3 (omega arith),
        append_assoc pre (hex_digits 3 n) name3,
      )
      (ap₂ (λ b z. ok (b, z))
        (ap (λ m. (pre ++ (hex_digits 3 n ++ name3)) ++ replicate m 0) (omega arith))
        (omega (
          arith,
          len,
          length-append pre (hex_digits 3 n ++ name3),
          length-append (hex_digits 3 n) name3,
          length-hex_digits 3 n,
        )))

pub write_name-Written :
    (pre : Bytes) (k n : ℕ) (name3 : Bytes)
    → (n ≡ 0) ⊎ (n ≡ length name3)
    → length (name_field n name3) ≤ k
    → n < 4096
    → Written
        (pre ++ name_field n name3)
        (k - length (name_field n name3))
        (write_name (pre ++ replicate k 0) (length pre) n name3)
write_name-Written pre k n name3 sized room fits = elim (ℕ_discrete n 0) [
  | yes e ↦ rw e (unfold write_name name_field in Written-nil pre k)
  | no h ↦
      let same : n ≡ length name3 = sized_pos h sized in
      let len : length (hex_digits 3 n ++ name3) ≡ 3 + n =
        omega (arith, length-append (hex_digits 3 n) name3, length-hex_digits 3 n) in
      let room' : 3 + n ≤ k = omega (arith, (rw (name_field-some n name3 h) at room), len) in
      rw (name_field-some n name3 h, len) (write_name_some pre k n name3 h same room' fits)
]

pub write_wait-Written :
    (pre : Bytes) (k t wait : ℕ)
    → length (wait_field t wait) ≤ k
    → wait < 2 ^ 32
    → Written
        (pre ++ wait_field t wait)
        (k - length (wait_field t wait))
        (write_wait (pre ++ replicate k 0) (length pre) t wait)
unfolding write_wait wait_field
write_wait-Written pre k t wait room fits = elim (Bool-cases (t == msg_type_retry_res)) [
  | inl retry ↦
      let room' : 8 ≤ k = omega (arith, (rw retry at room), length-hex_digits 8 wait) in
      rw
        (
          retry,
          put_fixnum-zeros pre k 8 wait (omega arith) room' (omega arith) (omega arith),
          length-hex_digits 8 wait,
          length-append pre (hex_digits 8 wait),
        )
        (rw (length-hex_digits 8 wait))
  | inr other ↦ rw other (Written-nil pre k)
]

pub write_size-append :
    (pre : Bytes) (k size : ℕ)
    → 8 ≤ k
    → size < 2 ^ 32
    → write_size (pre ++ replicate k 0) (length pre) size
      ≡ ok ((pre ++ hex_digits 8 size) ++ replicate (k - 8) 0)
unfolding write_size
write_size-append pre k size room fits = elim (ℕ_discrete size 0) [
  | yes e ↦ rw (e, hex_digits-zero 8) (ap ok (copy_at-zeros pre k (replicate 8 48) room))
  | no h ↦
      rw (eqb-eq_false size 0 h)
        (put_fixnum-zeros pre k 8 size (omega arith) room (omega arith) (omega arith))
]
