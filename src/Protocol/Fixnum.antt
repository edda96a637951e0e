-- ===== src/Protocol/Fixnum.antt =====
-- Fixed-width hexadecimal numbers in place: `strconv.AppendUint` and `strconv.ParseUint` at base 16,
-- and protocol.go's `copyFixnum` and `rShiftSlice`.
pub mod Shift
pub mod Copy
pub mod Parse
use gotalk.Common.{
  ℕ, zero, suc, ◌+◌, ◌-◌, ◌*◌, ◌/◌, ◌%◌, ◌^◌, min, Bool, true, false, ◌&&◌, ◌||◌, List, [], ◌∷◌,
  ◌++◌, Bytes, length, set, get_or, take, drop, ltb, leb, ◌==◌, if◌then◌else◌, Result, ok, err,
  panic, syntax, range, ◌>>=◌,
}
use gotalk.Common.Int.{ℤ, pos, negsuc, sub_ℕ}

-- The digit of a value below 16, in lower case.
unfoldable pub digit : ℕ → ℕ
digit d = if ltb d 10 then b'0' + d else b'a' + (d - 10)

-- The loop of `strconv.formatBits`, which writes digits from the last one. A uint64 has at most 16,
-- so 15 rounds of fuel serve.
unfoldable pub format_bits : ℕ → ℕ → Bytes → Bytes
format_bits zero n out = digit n ∷ out
format_bits (suc fuel) n out =
    let more = format_bits fuel (n / 16) (digit (n % 16) ∷ out) in
    if ltb n 16 then digit n ∷ out else more

-- `strconv.AppendUint(nil, n, 16)`
unfoldable pub format_uint : ℕ → Bytes
format_uint n = format_bits 15 n []

-- `b[wi] = b[wi-n]; b[wi-n] = padb`, where `wi` is `w + n`
unfoldable pub shift_round : ℕ → ℕ → ℕ → Bytes → Bytes
shift_round w n padb b = set (set b (w + n) (get_or b w 0)) w padb

-- The first loop of `rShiftSlice` has `w` rounds left: `wi` is `w - 1 + n`.
unfoldable pub shift_loop : ℕ → ℕ → ℕ → Bytes → Bytes
shift_loop zero n padb b = b
shift_loop (suc w) n padb b = shift_loop w n padb (shift_round w n padb b)

-- The second loop has `c` rounds left: `wi` is `base + c - 1`, and `zn` is `base - 1`.
unfoldable pub pad_loop : ℕ → ℕ → ℕ → Bytes → Bytes
pad_loop zero base padb b = b
pad_loop (suc c) base padb b = pad_loop c base padb (set b (base + c) padb)

-- Both loops index out of range where `n` is negative or above the length.
unfoldable pub r_shift_slice : Bytes → ℤ → ℕ → Result Bytes
r_shift_slice b (negsuc n) padb = panic
r_shift_slice b (pos n) padb =
    let bz = length b in
    if n == 0
    then ok b
    else if ltb bz n
    then panic
    else ok (pad_loop (n - (bz - n)) (bz - n) padb (shift_loop (bz - n) n padb b))

-- `copyFixnum` behind `AppendUint`, whose digits go into `buf` if they fit: `buf` is what the slice's
-- capacity reaches.
unfoldable pub write_digits : Bytes → ℕ → Bytes → Result Bytes
write_digits buf ndigits digits =
    let z = length digits in
    let buf' : Bytes = if leb z (length buf) then digits ++ drop z buf else buf in
    if ltb (length buf) ndigits then panic else (do
      shifted ← r_shift_slice (take ndigits buf') (sub_ℕ ndigits z) 48
      ok (shifted ++ drop ndigits buf'))

unfoldable pub copy_fixnum : Bytes → ℕ → ℕ → Result Bytes
copy_fixnum buf ndigits n = write_digits buf ndigits (format_uint n)

-- A digit's value, in either case; 16 stands for what is no digit.
unfoldable pub digit_value : ℕ → ℕ
digit_value c =
    if leb b'0' c && leb c b'9'
    then c - b'0'
    else if leb b'a' c && leb c b'f'
    then c - b'a' + 10
    else if leb b'A' c && leb c b'F'
    then c - b'A' + 10
    else 16

-- The loop of `strconv.ParseUint(s, 16, bits)`: `n * 16` must fit 64 bits and the sum `bits` bits.
unfoldable pub parse_loop : ℕ → Bytes → ℕ → Result ℕ
parse_loop bits [] n = ok n
parse_loop bits (c ∷ s) n =
    let d = digit_value c in
    let rest = parse_loop bits s (n * 16 + d) in
    if leb 16 d
    then err syntax
    else if leb (2 ^ 60) n || leb (2 ^ bits) (n * 16 + d)
    then err range
    else rest

unfoldable pub parse_uint : Bytes → ℕ → Result ℕ
parse_uint [] bits = err syntax
parse_uint (c ∷ s) bits = parse_loop bits (c ∷ s) 0

-- The reference: `n` in exactly `k` digits, zero-padded.
unfoldable pub hex_digits : ℕ → ℕ → Bytes
hex_digits zero n = []
hex_digits (suc k) n = hex_digits k (n / 16) ++ (digit (n % 16) ∷ [])
