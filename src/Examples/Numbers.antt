-- ===== src/Examples/Numbers.antt =====
-- Fixed-width numbers and request ids.
use gotalk.Common.{◌≡◌, ◌-◌, arith, ◌++◌, Bytes, length, ok, replicate, take, drop}
use gotalk.Common.Int.{pos}
use gotalk.Protocol.Fixnum.{copy_fixnum, hex_digits, r_shift_slice}
use gotalk.Protocol.Fixnum.Copy.{copy_fixnum-hex_digits}
use gotalk.Protocol.Fixnum.Shift.{r_shift_slice-pos}

abbrev ten : Bytes
ten = replicate 10 b'x'

copy_fixnum-hex_digits_example : copy_fixnum ten 8 4095 ≡ ok (hex_digits 8 4095 ++ drop 8 ten)
copy_fixnum-hex_digits_example =
    copy_fixnum-hex_digits ten 8 4095 (omega arith) (omega arith) (omega arith) (omega arith)

r_shift_slice-pos_example :
    r_shift_slice ten (pos 3) b'0' ≡ ok (replicate 3 b'0' ++ take (length ten - 3) ten)
r_shift_slice-pos_example = r_shift_slice-pos ten 3 b'0' (omega arith)
