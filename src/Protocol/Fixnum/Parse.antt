-- ===== src/Protocol/Fixnum/Parse.antt =====
-- `strconv.ParseUint` reads the fixed-width digits back.
use gotalk.Common.{
  ℕ, zero, suc, ◌+◌, ◌*◌, ◌/◌, ◌%◌, ◌^◌, ◌<◌, ◌≡◌, refl, ◌∙◌, arith, ap, [], ◌∷◌, ◌++◌, Bytes,
  length, ok, sym, append-nil, append_assoc, leb-eq_false,
}
use native.Mathlib.Nat.{one-le-pow}
use gotalk.Protocol.Fixnum.{digit, digit_value, parse_loop, parse_uint, hex_digits}
use gotalk.Protocol.Fixnum.Copy.{length-hex_digits}

digit_value-digit : (d : ℕ) → d < 16 → digit_value (digit d) ≡ d
unfolding digit_value digit
digit_value-digit d h = ground arith

parse_loop-digit :
    (bits m d : ℕ) (s : Bytes)
    → d < 16
    → m < 2 ^ 60
    → m * 16 + d < 2 ^ bits
    → parse_loop bits (digit d ∷ s) m ≡ parse_loop bits s (m * 16 + d)
unfolding parse_loop
parse_loop-digit bits m d s hd hm hb = rw (
  digit_value-digit d hd,
  leb-eq_false 16 d hd,
  leb-eq_false (2 ^ 60) m hm,
  leb-eq_false (2 ^ bits) (m * 16 + d) hb,
)

-- The loop over a number's digits and then over `s`.
parse_loop-hex_digits :
    (bits k n : ℕ) (s : Bytes)
    → n < 16 ^ k
    → n < 2 ^ bits
    → n < 2 ^ 64
    → parse_loop bits (hex_digits k n ++ s) 0 ≡ parse_loop bits s n
unfolding hex_digits
parse_loop-hex_digits bits zero n s h hb h64 = ap (parse_loop bits s) (omega arith)
parse_loop-hex_digits bits (suc k) n s h hb h64 =
    ap (λ t. parse_loop bits t 0) (append_assoc (hex_digits k (n / 16)) (digit (n % 16) ∷ []) s)
    ∙ parse_loop-hex_digits bits k (n / 16) (digit (n % 16) ∷ s) (omega arith) (omega arith)
        (omega arith)
    ∙ parse_loop-digit bits (n / 16) (n % 16) s (omega arith) (omega arith) (omega arith)
    ∙ ap (parse_loop bits s) (omega arith)

parse_uint-parse_loop :
    (s : Bytes) (bits : ℕ) → 0 < length s → parse_uint s bits ≡ parse_loop bits s 0
unfolding parse_uint
parse_uint-parse_loop [] bits h = absurd (omega arith)
parse_uint-parse_loop (c ∷ s) bits h = refl

-- `ParseUint` at a bit size gives back every number below `16 ^ k`, `2 ^ bits` and `2 ^ 64` that
-- was printed in `k` hexadecimal digits, for a positive `k`.
pub parse_uint-hex_digits :
    (bits k n : ℕ)
    → 0 < k
    → n < 16 ^ k
    → n < 2 ^ bits
    → n < 2 ^ 64
    → parse_uint (hex_digits k n) bits ≡ ok n
parse_uint-hex_digits bits k n hk h hb h64 =
    parse_uint-parse_loop (hex_digits k n) bits (omega (arith, length-hex_digits k n))
    ∙ ap (λ t. parse_loop bits t 0) (sym (append-nil (hex_digits k n)))
    ∙ parse_loop-hex_digits bits k n [] h hb h64
    ∙ unfold parse_loop in refl

-- Whatever it accepts fits the width asked for.
parse_loop-lt :
    (bits : ℕ) (s : Bytes) (n r : ℕ) → n < 2 ^ bits → parse_loop bits s n ≡ ok r → r < 2 ^ bits
unfolding parse_loop
parse_loop-lt bits [] n r h e = ground arith
parse_loop-lt bits (c ∷ s) n r h e = ground (arith, parse_loop-lt bits s (n * 16 + digit_value c) r)

pub parse_uint-lt : (s : Bytes) (bits r : ℕ) → parse_uint s bits ≡ ok r → r < 2 ^ bits
unfolding parse_uint
parse_uint-lt [] bits r e = cc
parse_uint-lt (c ∷ s) bits r e = parse_loop-lt bits (c ∷ s) 0 r (one-le-pow bits 2 (omega arith)) e
