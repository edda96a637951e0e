-- ===== src/Examples/Rates.antt =====
-- Limits and the goroutines that share them.
use gotalk.Common.{ℕ, ◌/◌, ◌≤◌, ◌<◌, ◌≡◌, ◌+◌, ◌*◌, refl, arith, ok, panic}
use gotalk.Common.Int.{pos}
use gotalk.Limits.{
  Limits, default_limits, millisecond, LimitCounter, LimitsImpl, impl_of, wait_buffer_req,
  wait_stream_req,
}
use gotalk.Limits.Counter.{IsSound}
use gotalk.Limits.Counter.Shared.{
  State, Reach, start, holding-le-limit, admit, overshoot, here, next,
}
use gotalk.Limits.Waits.{wait_buffer_req_bounds, wait_req-panic}

abbrev two_of_three : LimitCounter
two_of_three = record { limit = 3; count = 2 }

-- One place and two goroutines: the first is admitted, the second goes over and takes it back.
abbrev after_admit : State
after_admit = record {
  counter = record { limit = 1; count = 1 };
  outside = 1;
  holding = 1;
  undoing = 0;
}

abbrev after_overshoot : State
after_overshoot = record {
  counter = record { limit = 1; count = 2 };
  outside = 0;
  holding = 1;
  undoing = 1;
}

overshot : Reach (start 1 2) after_overshoot
unfolding start
overshot =
    next {t = after_admit} (next here (admit (omega arith) (omega arith) refl))
      (overshoot (omega arith) (omega arith) refl)

holding-le-limit_example : (1 ≤ 1) × (2 ≡ 1 + 1)
holding-le-limit_example = holding-le-limit 1 2 after_overshoot (omega arith) overshot

-- A draw that always gives the least number
abbrev least : ℕ → ℕ
least n = 0

wait_buffer_req_bounds_example :
    (w : ℕ) × (wait_buffer_req least (impl_of default_limits) ≡ ok w)
    × (500 * millisecond / millisecond ≤ w)
    × (w < 5000 * millisecond / millisecond)
wait_buffer_req_bounds_example =
    wait_buffer_req_bounds least default_limits (500 * millisecond) (5000 * millisecond) (λ n h. h)
      refl refl (omega arith) (omega arith) (omega arith)

abbrev one_second : Limits
one_second = record default_limits {
  buffer_min_wait = pos 1_000_000_000;
  buffer_max_wait = pos 1_000_000_000;
  stream_min_wait = pos 1_000_000_000;
  stream_max_wait = pos 1_000_000_000;
}

wait_req-panic_example :
    (wait_buffer_req least (impl_of one_second) ≡ panic)
    × (wait_stream_req least (impl_of one_second) ≡ panic)
wait_req-panic_example =
    wait_req-panic least one_second 1_000_000_000 1_000_000_000 1_000_000_000 1_000_000_000 refl
      refl refl refl (omega arith) (omega arith) (omega arith) (omega arith)

abbrev ten_seconds : Limits
ten_seconds = record default_limits {
  buffer_min_wait = pos 10_000_000_000;
  buffer_max_wait = pos 0;
}

abbrev busy : LimitsImpl
busy = record {
  read_timeout = pos 0;
  buffer_limit = record { limit = 2; count = 1 };
  stream_limit = record { limit = 4; count = 3 };
  buffer_min_wait = 500;
  buffer_max_wait = 5000;
  stream_min_wait = 500;
  stream_max_wait = 5000;
}

busy-IsSound : IsSound busy
busy-IsSound = record {
  buffer_count = omega arith;
  stream_count = omega arith;
  buffer_limit = omega arith;
  stream_limit = omega arith;
}
