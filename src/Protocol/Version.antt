-- ===== src/Protocol/Version.antt =====
-- The protocol version of the handshake, and the request ids.
use gotalk.Common.{
  ℕ, ◌/◌, ◌%◌, ◌^◌, ◌<◌, ◌≡◌, ◌≢◌, refl, sym, ap, ◌∙◌, arith, [], ◌∷◌, ◌++◌, Bytes, length,
  replicate, ◌==◌, if◌then◌else◌, Result, ok, err, panic, ◌>>=◌, unsupported_version, ok-injective,
}
use gotalk.Protocol.{protocol_version}
use gotalk.Protocol.Fixnum.{
  write_digits, r_shift_slice, shift_loop, shift_round, pad_loop, format_uint, format_bits, digit,
  copy_fixnum, parse_uint, parse_loop, digit_value,
}
use gotalk.Protocol.Reader.{Reader}
use gotalk.Protocol.Reader.Exact.{stream, IsQuiet}
use gotalk.Protocol.Read.{fill_all}
use gotalk.Protocol.Read.Buffer.{fill-exact}

-- `init` fills `protocolVersionBuf`, and `WriteVersion` writes it.
unfoldable pub protocol_version_buf : Result Bytes
protocol_version_buf = copy_fixnum (replicate 2 0) 2 protocol_version

-- The comparison with this side's version.
unfoldable pub check_version : Reader → ℕ → Result (ℕ × Reader)
check_version s n = if n == protocol_version then ok (n, s) else err unsupported_version

unfoldable pub read_version : Reader → Result (ℕ × Reader)
read_version s = do (b, s') ← fill_all (replicate 2 0) 0 2 s; n ← parse_uint b 8; check_version s' n

-- `binary.Write(buf, binary.LittleEndian, n)` of a uint32
unfoldable pub format_request_id : ℕ → Bytes
format_request_id n = (n % 256) ∷ (n / 256 % 256) ∷ (n / 65536 % 256) ∷ (n / 16777216 % 256) ∷ []

buf_is : protocol_version_buf ≡ ok (b'0' ∷ b'1' ∷ [])
unfolding protocol_version_buf copy_fixnum write_digits r_shift_slice shift_loop shift_round
    pad_loop format_uint format_bits digit
buf_is = refl

version_parses : parse_uint (b'0' ∷ b'1' ∷ []) 8 ≡ ok 1
unfolding parse_uint parse_loop digit_value
version_parses = refl

-- From a stream with no read failure that starts with what `WriteVersion` writes, `ReadVersion`
-- succeeds with this version and leaves the bytes behind.
pub read_version-write :
    (s : Reader) (w rest : Bytes)
    → protocol_version_buf ≡ ok w
    → IsQuiet s
    → stream s ≡ w ++ rest
    → (s' : Reader) × (read_version s ≡ ok (protocol_version, s')) × (stream s' ≡ rest)
unfolding read_version check_version fill_all
read_version-write s w rest e q es =
    let zeros : Bytes = replicate 2 0 in
    let es' : stream s ≡ (b'0' ∷ b'1' ∷ []) ++ rest =
      es ∙ ap (λ v. v ++ rest) (ok-injective (sym e ∙ buf_is)) in
    let (s', r, back, q') =
      fill-exact s [] (b'0' ∷ b'1' ∷ []) zeros rest 0 2 q es' refl refl (omega arith) in
    (s', rw (r, version_parses), back)

digit_value-zero : (c : ℕ) → digit_value c ≡ 0 → c ≡ b'0'
unfolding digit_value
digit_value-zero c h = ground arith

digit_value-one : (c : ℕ) → digit_value c ≡ 1 → c ≡ b'1'
unfolding digit_value
digit_value-one c h = ground arith

parse_one : (a c : ℕ) → parse_uint (a ∷ c ∷ []) 8 ≡ ok 1 → (digit_value a ≡ 0) × (digit_value c ≡ 1)
unfolding parse_uint parse_loop
parse_one a c h = ground arith

version_checked :
    (r : Result ℕ) (s s' : Reader) (v : ℕ)
    → (r >>= check_version s) ≡ ok (v, s')
    → (r ≡ ok 1) × (v ≡ protocol_version)
unfolding check_version
version_checked (ok n) s s' v h = ground arith
version_checked (err e) s s' v h = cc
version_checked panic s s' v h = cc

-- From a stream with no read failure, `ReadVersion` succeeds on no two bytes but `01`, and then
-- with this version.
pub read_version-only :
    (s s' : Reader) (a c v : ℕ) (rest : Bytes)
    → IsQuiet s
    → stream s ≡ a ∷ c ∷ rest
    → read_version s ≡ ok (v, s')
    → (a ≡ b'0') × (c ≡ b'1') × (v ≡ protocol_version)
unfolding read_version fill_all
read_version-only s s' a c v rest q es h =
    let (s1, r, back, q') =
      fill-exact s [] (a ∷ c ∷ []) (replicate 2 0) rest 0 2 q es refl refl (omega arith) in
    let (one, hv) = version_checked (parse_uint (a ∷ c ∷ []) 8) s1 s' v (rw r at h) in
    let (ha, hc) = parse_one a c one in (digit_value-zero a ha, digit_value-one c hc, hv)

pub format_request_id-injective :
    (m n : ℕ) → m < 2 ^ 32 → n < 2 ^ 32 → format_request_id m ≡ format_request_id n → m ≡ n
unfolding format_request_id
format_request_id-injective m n hm hn e = ground arith

pub length-format_request_id : (n : ℕ) → length (format_request_id n) ≡ 4
unfolding format_request_id
length-format_request_id n = refl

-- Different request numbers of 32 bits have different ids.
pub format_request_id-distinct :
    (m n : ℕ) → m < 2 ^ 32 → n < 2 ^ 32 → m ≢ n → format_request_id m ≢ format_request_id n
format_request_id-distinct m n hm hn ne e = ne (format_request_id-injective m n hm hn e)
