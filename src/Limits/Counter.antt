-- ===== src/Limits/Counter.antt =====
-- `limitCounter` alone, and under any interleaving of the goroutines that share it.
pub mod Shared
use gotalk.Common.{
  ℕ, zero, suc, ◌+◌, ◌-◌, ◌%◌, ◌^◌, ◌≤◌, ◌<◌, ◌≡◌, refl, arith, Bool, true, false, ltb,
  if◌then◌else◌,
}
use gotalk.Limits.{
  LimitCounter, LimitsImpl, inc, dec, inc_buffer_req, dec_buffer_req, inc_stream_req,
  dec_stream_req, unlimited,
}

-- At most `limit` requests are counted.
abbrev pub IsWithin : LimitCounter → Type 0
IsWithin l = (l.count ≤ l.limit) × (l.limit < unlimited)

-- With the counter within its limit of 32 bits, `inc` adds one and succeeds where the count is
-- below the limit, and otherwise fails and leaves the counter as it was.
inc_lem :
    (l : LimitCounter)
    → IsWithin l
    → inc l ≡ (if ltb l.count l.limit then (record l { count = l.count + 1 }, true) else (l, false))
unfolding inc dec
inc_lem l (h, hl) = ground arith

-- A place taken and given back leaves the counter as it was.
pub dec-inc : (l : LimitCounter) → l.count < l.limit → l.limit < unlimited → dec (inc l).0 ≡ l
unfolding inc dec
dec-inc l h hl = ground arith

pub inc-IsWithin : (l : LimitCounter) → IsWithin l → IsWithin (inc l).0
unfolding inc dec
inc-IsWithin l (h, hl) = ground arith

pub dec-IsWithin : (l : LimitCounter) → 0 < l.count → IsWithin l → IsWithin (dec l)
unfolding dec
dec-IsWithin l h0 (h, hl) = ground arith

-- What holds of both counters of a socket.
pub record IsSound (l : LimitsImpl) : Type 0 where
  pub buffer_count : l.buffer_limit.count ≤ l.buffer_limit.limit
  pub stream_count : l.stream_limit.count ≤ l.stream_limit.limit
  pub buffer_limit : l.buffer_limit.limit ≤ unlimited
  pub stream_limit : l.stream_limit.limit ≤ unlimited

pub inc_buffer_req-IsSound : (l : LimitsImpl) → IsSound l → IsSound (inc_buffer_req l).0
unfolding inc_buffer_req inc dec
inc_buffer_req-IsSound l v = ground arith

pub inc_stream_req-IsSound : (l : LimitsImpl) → IsSound l → IsSound (inc_stream_req l).0
unfolding inc_stream_req inc dec
inc_stream_req-IsSound l v = ground arith

pub dec_buffer_req-inc :
    (l : LimitsImpl)
    → IsSound l
    → (inc_buffer_req l).1 ≡ true
    → dec_buffer_req (inc_buffer_req l).0 ≡ l
unfolding inc_buffer_req dec_buffer_req inc dec
dec_buffer_req-inc l h b = ground (arith, h.buffer_count, h.buffer_limit)

pub inc_buffer_req-refused :
    (l : LimitsImpl) → IsSound l → (inc_buffer_req l).1 ≡ false → (inc_buffer_req l).0 ≡ l
unfolding inc_buffer_req inc dec
inc_buffer_req-refused l h b = ground (arith, h.buffer_count, h.buffer_limit)

pub dec_stream_req-inc :
    (l : LimitsImpl)
    → IsSound l
    → (inc_stream_req l).1 ≡ true
    → dec_stream_req (inc_stream_req l).0 ≡ l
unfolding inc_stream_req dec_stream_req inc dec
dec_stream_req-inc l h b = ground (arith, h.stream_count, h.stream_limit)

pub inc_stream_req-refused :
    (l : LimitsImpl) → IsSound l → (inc_stream_req l).1 ≡ false → (inc_stream_req l).0 ≡ l
unfolding inc_stream_req inc dec
inc_stream_req-refused l h b = ground (arith, h.stream_count, h.stream_limit)

-- With both counters within their limits, a request of either kind that is let in and then ends
-- leaves the counters as they were, with a limit or unlimited.
dec_req-inc_req :
    (l : LimitsImpl)
    → IsSound l
    → (inc_buffer_req l).1 ≡ true
    → (inc_stream_req l).1 ≡ true
    → (dec_buffer_req (inc_buffer_req l).0 ≡ l) × (dec_stream_req (inc_stream_req l).0 ≡ l)
unfolding inc_buffer_req inc_stream_req dec_buffer_req dec_stream_req inc dec
dec_req-inc_req l h b s =
    (ground (arith, h.buffer_count, h.buffer_limit), ground (arith, h.stream_count, h.stream_limit))

-- With both counters within their limits and both above 0, they stay within their limits when a
-- request of either kind arrives, and when a request of either kind ends.
pub req-IsSound :
    (l : LimitsImpl)
    → IsSound l
    → 0 < l.buffer_limit.count
    → 0 < l.stream_limit.count
    → IsSound (inc_buffer_req l).0
      × IsSound (inc_stream_req l).0
      × IsSound (dec_buffer_req l)
      × IsSound (dec_stream_req l)
unfolding dec_buffer_req dec_stream_req dec
req-IsSound l h b s = (
  inc_buffer_req-IsSound l h,
  inc_stream_req-IsSound l h,
  record {
    buffer_count = ground (arith, h.buffer_count, h.buffer_limit);
    stream_count = ground (arith, h.stream_count);
    buffer_limit = ground (arith, h.buffer_limit);
    stream_limit = ground (arith, h.stream_limit);
  },
  record {
    buffer_count = ground (arith, h.buffer_count);
    stream_count = ground (arith, h.stream_count, h.stream_limit);
    buffer_limit = ground (arith, h.buffer_limit);
    stream_limit = ground (arith, h.stream_limit);
  },
)
