-- ===== src/Protocol/Fixnum/Copy.antt =====
-- `copyFixnum` writes the zero-padded digits in place, or panics where they do not fit.
use gotalk.Common.{
  ℕ, zero, suc, ◌-◌, ◌/◌, ◌%◌, ◌^◌, ◌≤◌, ◌<◌, ◌≡◌, refl, ◌∙◌, arith, ap, [], ◌∷◌, ◌++◌, Bytes,
  length, take, drop, replicate, ltb, if◌then◌else◌, ok, panic, length-append, length-take,
  length-drop, take-append, append_assoc, ltb-eq_false, leb-eq_true, Bool-cases, inl, inr,
  append-nil, sym, leb-eq_false, take-take, drop-append_le, drop-drop,
}
use native.Mathlib.Nat.{one-le-pow, mod-eq_of_lt, div-eq_of_lt, sub-zero, suc-sub-suc}
use gotalk.Protocol.Fixnum.{
  write_digits, digit, format_bits, format_uint, r_shift_slice, copy_fixnum, hex_digits,
}
use gotalk.Protocol.Fixnum.Shift.{r_shift_slice-pos}

pub length-hex_digits : (k n : ℕ) → length (hex_digits k n) ≡ k
unfolding hex_digits
length-hex_digits zero n = refl
length-hex_digits (suc k) n = omega (
  arith,
  length-append (hex_digits k (n / 16)) (digit (n % 16) ∷ []),
  length-hex_digits k (n / 16),
)

-- The number of digits, at least one.
pub digit_count : ℕ → ℕ → ℕ
digit_count zero n = 1
digit_count (suc fuel) n = let more = digit_count fuel (n / 16) in if ltb n 16 then 1 else suc more

digit_count_bounds : (fuel n : ℕ) → (1 ≤ digit_count fuel n) × (digit_count fuel n ≤ suc fuel)
unfolding digit_count
digit_count_bounds zero n = omega arith
digit_count_bounds (suc fuel) n = ground (arith, digit_count_bounds fuel (n / 16))

hex_digits-one : (n : ℕ) → n < 16 → hex_digits 1 n ≡ digit n ∷ []
unfolding hex_digits
hex_digits-one n h = rw (mod-eq_of_lt h)

-- The digits that `formatBits` writes are the reference's at their own count.
format_bits-hex_digits :
    (fuel n : ℕ) (out : Bytes)
    → n < 16 ^ suc fuel
    → format_bits fuel n out ≡ hex_digits (digit_count fuel n) n ++ out
unfolding format_bits digit_count
format_bits-hex_digits zero n out h = rw (hex_digits-one n (omega arith))
format_bits-hex_digits (suc fuel) n out h = elim (Bool-cases (ltb n 16)) [
  | inl small ↦ rw (small, hex_digits-one n (ground arith))
  | inr big ↦ rw big (
      format_bits-hex_digits fuel (n / 16) (digit (n % 16) ∷ out) (omega arith)
      ∙ unfold hex_digits in
        sym (
          append_assoc (hex_digits (digit_count fuel (n / 16)) (n / 16)) (digit (n % 16) ∷ []) out))
]

replicate-snoc : (k a : ℕ) → replicate k a ++ (a ∷ []) ≡ a ∷ replicate k a
replicate-snoc zero a = refl
replicate-snoc (suc k) a = ap (◌∷◌ a) (replicate-snoc k a)

pub hex_digits-zero : (k : ℕ) → hex_digits k 0 ≡ replicate k 48
unfolding hex_digits digit
hex_digits-zero zero = refl
hex_digits-zero (suc k) = rw (hex_digits-zero k) (replicate-snoc k 48)

hex_digits-small : (k n : ℕ) → n < 16 → hex_digits (suc k) n ≡ replicate k 48 ++ (digit n ∷ [])
unfolding hex_digits
hex_digits-small k n h = rw (div-eq_of_lt h, mod-eq_of_lt h, hex_digits-zero k)

hex_digits-suc : (k n : ℕ) → hex_digits (suc k) n ≡ hex_digits k (n / 16) ++ (digit (n % 16) ∷ [])
unfolding hex_digits
hex_digits-suc k n = refl

-- Leading zeros fill the width.
hex_digits-pad :
    (fuel k n : ℕ)
    → n < 16 ^ suc fuel
    → digit_count fuel n ≤ k
    → hex_digits k n ≡ replicate (k - digit_count fuel n) 48 ++ hex_digits (digit_count fuel n) n
unfolding digit_count
hex_digits-pad fuel zero n h hk = absurd (omega (arith, digit_count_bounds fuel n))
hex_digits-pad zero (suc k) n h hk =
    rw (hex_digits-one n (omega arith), suc-sub-suc, sub-zero) (hex_digits-small k n (omega arith))
hex_digits-pad (suc fuel) (suc k) n h hk = elim (Bool-cases (ltb n 16)) [
  | inl small ↦
      rw (small, hex_digits-one n (ground arith), suc-sub-suc, sub-zero)
        (hex_digits-small k n (ground arith))
  | inr big ↦
      rw (big, suc-sub-suc)
        (hex_digits-suc k n
          ∙ ap (λ s. s ++ (digit (n % 16) ∷ []))
              (hex_digits-pad fuel k (n / 16) (omega arith) (ground arith))
          ∙ append_assoc (replicate (k - digit_count fuel (n / 16)) 48)
              (hex_digits (digit_count fuel (n / 16)) (n / 16)) (digit (n % 16) ∷ [])
          ∙ ap (◌++◌ (replicate (k - digit_count fuel (n / 16)) 48))
              (sym (hex_digits-suc (digit_count fuel (n / 16)) n)))
]

pub digit_count-le : (fuel k n : ℕ) → 0 < k → n < 16 ^ k → digit_count fuel n ≤ k
unfolding digit_count
digit_count-le fuel zero n hk h = absurd (omega arith)
digit_count-le zero (suc k) n hk h = omega arith
digit_count-le (suc fuel) (suc zero) n hk h = ground arith
digit_count-le (suc fuel) (suc (suc k)) n hk h =
    ground (arith, digit_count-le fuel (suc k) (n / 16) (omega arith) (omega arith))

lt-digit_count : (fuel k n : ℕ) → n < 16 ^ suc fuel → 0 < k → 16 ^ k ≤ n → k < digit_count fuel n
unfolding digit_count
lt-digit_count fuel zero n h hk big = absurd (omega arith)
lt-digit_count zero (suc k) n h hk big = absurd (omega (arith, one-le-pow k 16 (omega arith)))
lt-digit_count (suc fuel) (suc zero) n h hk big = ground (arith, digit_count_bounds fuel (n / 16))
lt-digit_count (suc fuel) (suc (suc k)) n h hk big = ground (
  arith,
  one-le-pow k 16 (omega arith),
  lt-digit_count fuel (suc k) (n / 16) (omega arith) (omega arith) (omega arith),
)

-- `strconv.AppendUint` of a uint64: its digits, with none in front that could be left out.
format_uint-hex_digits : (n : ℕ) → n < 2 ^ 64 → format_uint n ≡ hex_digits (digit_count 15 n) n
unfolding format_uint
format_uint-hex_digits n h = format_bits-hex_digits 15 n [] (omega arith) ∙ append-nil _

length-format_uint : (n : ℕ) → n < 2 ^ 64 → length (format_uint n) ≡ digit_count 15 n
length-format_uint n h = rw (format_uint-hex_digits n h) (length-hex_digits (digit_count 15 n) n)

pub write_digits-pad :
    (buf : Bytes) (k : ℕ) (digits : Bytes)
    → length digits ≤ k
    → k ≤ length buf
    → write_digits buf k digits ≡ ok ((replicate (k - length digits) 48 ++ digits) ++ drop k buf)
unfolding write_digits
write_digits-pad buf k digits few room =
    let z = length digits in
    let both : Bytes = digits ++ drop z buf in
    let len : length (take k both) ≡ k =
      omega (arith, length-take k both, length-append digits (drop z buf), length-drop z buf) in
    let front : take (length (take k both) - (k - z)) (take k both) ≡ digits =
      ap (λ m. take m (take k both)) (omega (arith, len))
      ∙ take-take z k both few
      ∙ take-append z digits (drop z buf) refl in
    let back : drop k both ≡ drop k buf =
      drop-append_le k digits (drop z buf) few
      ∙ drop-drop (k - z) z buf
      ∙ ap (λ m. drop m buf) (omega arith) in
    rw (
      leb-eq_true z (length buf) (omega arith),
      ltb-eq_false (length buf) k room,
      leb-eq_true z k few,
      r_shift_slice-pos (take k both) (k - z) 48 (omega (arith, len)),
      front,
      back,
    )

pub write_digits-panic :
    (buf : Bytes) (k : ℕ) (digits : Bytes) → k < length digits → write_digits buf k digits ≡ panic
unfolding write_digits r_shift_slice
write_digits-panic buf k digits many = elim (Bool-cases (ltb (length buf) k)) [
  | inl short ↦ rw short
  | inr room ↦ rw (room, leb-eq_false (length digits) k many)
]

-- For a positive width `k` within the buffer, `copyFixnum` of a 64-bit number below `16 ^ k`
-- succeeds, writes exactly its `k` zero-padded hexadecimal digits and leaves the bytes behind them.
pub copy_fixnum-hex_digits :
    (buf : Bytes) (k n : ℕ)
    → 0 < k
    → k ≤ length buf
    → n < 16 ^ k
    → n < 2 ^ 64
    → copy_fixnum buf k n ≡ ok (hex_digits k n ++ drop k buf)
unfolding copy_fixnum
copy_fixnum-hex_digits buf k n hk room fits h =
    let few : digit_count 15 n ≤ k = digit_count-le 15 k n hk fits in
    let len : length (format_uint n) ≡ digit_count 15 n = length-format_uint n h in
    write_digits-pad buf k (format_uint n) (omega (arith, len, few)) room
    ∙ ap (λ s. ok (s ++ drop k buf))
        (rw (len, format_uint-hex_digits n h) (sym (hex_digits-pad 15 k n (omega arith) few)))

-- For a positive width `k`, `copyFixnum` of a 64-bit number from `16 ^ k` on panics, whatever the
-- buffer.
pub copy_fixnum-panic :
    (buf : Bytes) (k n : ℕ) → 0 < k → 16 ^ k ≤ n → n < 2 ^ 64 → copy_fixnum buf k n ≡ panic
unfolding copy_fixnum
copy_fixnum-panic buf k n hk big h =
    write_digits-panic buf k (format_uint n)
      (omega (arith, length-format_uint n h, lt-digit_count 15 k n (omega arith) hk big))
