-- ===== src/Limits.antt =====
-- limits.go: the limits of a socket, their counters and the waits of retry results.
pub mod Counter
pub mod Waits
use gotalk.Common.{
  ℕ, zero, suc, ◌+◌, ◌-◌, ◌*◌, ◌/◌, ◌%◌, ◌^◌, Bool, true, false, not, ltb, leb, ◌==◌, if◌then◌else◌,
  Option, none, some, Result, ok, panic, check,
}
use gotalk.Common.Int.{ℤ, pos, negsuc, is_nonpos, lt_ℤ}

abbrev pub unlimited : ℕ
unlimited = 0xffff_ffff

abbrev pub millisecond : ℕ
millisecond = 1_000_000

abbrev pub second : ℕ
second = 1_000_000_000

-- A `time.Duration` is an int64 of nanoseconds, and may be negative.
pub record Limits : Type 0 where
  pub read_timeout : ℤ
  pub buffer_requests : ℕ
  pub stream_requests : ℕ
  pub buffer_min_wait : ℤ
  pub buffer_max_wait : ℤ
  pub stream_min_wait : ℤ
  pub stream_max_wait : ℤ

abbrev pub default_limits : Limits
default_limits = record {
  read_timeout = pos (30 * second);
  buffer_requests = unlimited;
  stream_requests = 0;
  buffer_min_wait = pos (500 * millisecond);
  buffer_max_wait = pos (5000 * millisecond);
  stream_min_wait = pos (500 * millisecond);
  stream_max_wait = pos (5000 * millisecond);
}

abbrev pub no_limits : Limits
no_limits = record {
  read_timeout = pos 0;
  buffer_requests = unlimited;
  stream_requests = unlimited;
  buffer_min_wait = pos 0;
  buffer_max_wait = pos 0;
  stream_min_wait = pos 0;
  stream_max_wait = pos 0;
}

unfoldable pub new_limits : ℕ → ℕ → Limits
new_limits buffer_request_limit stream_request_limit = record default_limits {
  buffer_requests = buffer_request_limit;
  stream_requests = stream_request_limit;
}

pub record LimitCounter : Type 0 where
  pub limit : ℕ
  pub count : ℕ

-- `atomic.AddUint32(&l.count, ^uint32(0))`
unfoldable pub dec : LimitCounter → LimitCounter
dec l = record l { count = (l.count + 0xffff_ffff) % 2 ^ 32 }

-- Where no other goroutine steps in between; `Counter` has the interleavings.
unfoldable pub inc : LimitCounter → LimitCounter × Bool
unfolding dec
inc l =
    let n = (l.count + 1) % 2 ^ 32 in
    let l' : LimitCounter = record l { count = n } in
    if ltb l.limit n then (dec l', false) else (l', true)

pub record LimitsImpl : Type 0 where
  pub read_timeout : ℤ
  pub buffer_limit : LimitCounter
  pub stream_limit : LimitCounter
  pub buffer_min_wait : ℕ
  pub buffer_max_wait : ℕ
  pub stream_min_wait : ℕ
  pub stream_max_wait : ℕ

-- A minimum that is not positive is the default's.
unfoldable pub min_wait : ℤ → ℤ → ℤ
min_wait d default = if is_nonpos d then default else d

-- A maximum that is not positive is the default's; one below the minimum is the minimum.
unfoldable pub max_wait : ℤ → ℤ → ℤ → ℤ
max_wait d lo default = if is_nonpos d then default else if lt_ℤ d lo then lo else d

-- `uint32(d / time.Millisecond)`; the division of a negative number is towards zero.
unfoldable pub to_millis : ℤ → ℕ
to_millis (pos n) = n / millisecond % 2 ^ 32
to_millis (negsuc n) = (2 ^ 32 - suc n / millisecond % 2 ^ 32) % 2 ^ 32

unfoldable pub impl_of : Limits → LimitsImpl
unfolding min_wait max_wait to_millis
impl_of l =
    let buffer_lo = min_wait l.buffer_min_wait default_limits.buffer_min_wait in
    let buffer_hi = max_wait l.buffer_max_wait buffer_lo default_limits.buffer_max_wait in
    let stream_lo = min_wait l.stream_min_wait default_limits.stream_min_wait in
    let stream_hi = max_wait l.stream_max_wait stream_lo default_limits.stream_max_wait in
    record {
      read_timeout = l.read_timeout;
      buffer_limit = record { limit = l.buffer_requests; count = 0 };
      stream_limit = record { limit = l.stream_requests; count = 0 };
      buffer_min_wait = to_millis buffer_lo;
      buffer_max_wait = to_millis buffer_hi;
      stream_min_wait = to_millis stream_lo;
      stream_max_wait = to_millis stream_hi;
    }

-- `none` is a nil pointer.
unfoldable pub make_limits_impl : Option Limits → LimitsImpl
unfolding impl_of
make_limits_impl none = impl_of default_limits
make_limits_impl (some l) = impl_of l

unfoldable pub inc_buffer_req : LimitsImpl → LimitsImpl × Bool
unfolding inc
inc_buffer_req l =
    if l.buffer_limit.limit == unlimited
    then (l, true)
    else (record l { buffer_limit = (inc l.buffer_limit).0 }, (inc l.buffer_limit).1)

unfoldable pub dec_buffer_req : LimitsImpl → LimitsImpl
unfolding dec
dec_buffer_req l =
    if not (l.buffer_limit.limit == unlimited)
    then record l { buffer_limit = dec l.buffer_limit }
    else l

unfoldable pub stream_req_enabled : LimitsImpl → Bool
stream_req_enabled l = ltb 0 l.stream_limit.limit

unfoldable pub inc_stream_req : LimitsImpl → LimitsImpl × Bool
unfolding inc
inc_stream_req l =
    if l.stream_limit.limit == unlimited
    then (l, true)
    else (record l { stream_limit = (inc l.stream_limit).0 }, (inc l.stream_limit).1)

unfoldable pub dec_stream_req : LimitsImpl → LimitsImpl
unfolding dec
dec_stream_req l =
    if not (l.stream_limit.limit == unlimited)
    then record l { stream_limit = dec l.stream_limit }
    else l

-- `rand.Intn(n)` panics unless `n` is positive, and is else below `n`: `draw` is what it draws.
unfoldable pub rand_uint32 : (ℕ → ℕ) → ℕ → ℕ → Result ℕ
rand_uint32 draw lo hi =
    let n = (hi + 2 ^ 32 - lo) % 2 ^ 32 in check (ltb 0 n) (ok ((lo + draw n) % 2 ^ 32))

unfoldable pub wait_buffer_req : (ℕ → ℕ) → LimitsImpl → Result ℕ
unfolding rand_uint32
wait_buffer_req draw l = rand_uint32 draw l.buffer_min_wait l.buffer_max_wait

unfoldable pub wait_stream_req : (ℕ → ℕ) → LimitsImpl → Result ℕ
unfolding rand_uint32
wait_stream_req draw l = rand_uint32 draw l.stream_min_wait l.stream_max_wait
