-- ===== src/Limits/Waits.antt =====
-- The wait that a retry result asks for.
use gotalk.Common.{
  ℕ, ◌+◌, ◌-◌, ◌*◌, ◌/◌, ◌%◌, ◌^◌, ◌≤◌, ◌<◌, ◌≡◌, refl, ◌∙◌, arith, true, ltb, if◌then◌else◌, ok,
  panic, ltb-eq_true, ltb-eq_false, ◌⊎◌, inl, inr,
}
use native.Mathlib.Nat.{mod-eq_of_lt}
use native.Mathlib.Decide.{dec_lt}
use gotalk.Common.Int.{ℤ, pos, negsuc, is_nonpos}
use gotalk.Limits.{
  Limits, default_limits, millisecond, rand_uint32, wait_buffer_req, wait_stream_req, impl_of,
  min_wait, max_wait, to_millis,
}

-- What the documentation of `rand.Intn` promises.
abbrev pub IsDraw : (ℕ → ℕ) → Type 0
IsDraw draw = (n : ℕ) → 0 < n → draw n < n

-- With a minimum below the maximum the draw gives a wait from the minimum up to the maximum.
pub rand_uint32_bounds :
    (draw : ℕ → ℕ) (lo hi : ℕ)
    → IsDraw draw
    → lo < hi
    → hi < 2 ^ 32
    → (w : ℕ) × (rand_uint32 draw lo hi ≡ ok w) × (lo ≤ w) × (w < hi)
unfolding rand_uint32
rand_uint32_bounds draw lo hi d h hh =
    let n : (hi + 2 ^ 32 - lo) % 2 ^ 32 ≡ hi - lo = omega arith in
    let small = d (hi - lo) (omega arith) in
    let w : (lo + draw (hi - lo)) % 2 ^ 32 ≡ lo + draw (hi - lo) = omega (arith, small) in
    (
      lo + draw (hi - lo),
      rw (n, ltb-eq_true 0 (hi - lo) (omega arith), w),
      omega arith,
      omega (arith, small),
    )

rand_uint32-panic : (draw : ℕ → ℕ) (n : ℕ) → n < 2 ^ 32 → rand_uint32 draw n n ≡ panic
unfolding rand_uint32
rand_uint32-panic draw n h = let e : (n + 2 ^ 32 - n) % 2 ^ 32 ≡ 0 = omega arith in rw e

to_millis-lt : (d : ℤ) → to_millis d < 2 ^ 32
unfolding to_millis
to_millis-lt (pos n) = omega arith
to_millis-lt (negsuc n) = omega arith

to_millis-pos : (n : ℕ) → n / millisecond < 2 ^ 32 → to_millis (pos n) ≡ n / millisecond
unfolding to_millis
to_millis-pos n h = mod-eq_of_lt h

rand_uint32_inverted :
    (draw : ℕ → ℕ) (lo : ℕ)
    → IsDraw draw
    → 5000 < lo
    → lo < 2 ^ 32
    → (w : ℕ) × (rand_uint32 draw lo 5000 ≡ ok w) × ((w < 5000) ⊎ (lo ≤ w))
unfolding rand_uint32
rand_uint32_inverted draw lo d h hh =
    let k = 5000 + 2 ^ 32 - lo in
    let n : k % 2 ^ 32 ≡ k = omega arith in
    let small = d k (omega arith) in
    (
      (lo + draw k) % 2 ^ 32,
      rw (n, ltb-eq_true 0 k (omega arith)),
      elim (dec_lt (lo + draw k) (2 ^ 32)) [
        | yes p ↦ inr (omega arith)
        | no p ↦ inl (omega (arith, small))
      ],
    )

min_wait-pos : (n : ℕ) (d : ℤ) → 0 < n → min_wait (pos n) d ≡ pos n
unfolding min_wait
min_wait-pos n d h = ground arith

max_wait-pos :
    (n m : ℕ) (d : ℤ) → 0 < n → max_wait (pos n) (pos m) d ≡ (if ltb n m then pos m else pos n)
unfolding max_wait
max_wait-pos n m d h = ground arith

max_wait-unset : (d lo default : ℤ) → is_nonpos d ≡ true → max_wait d lo default ≡ default
unfolding max_wait
max_wait-unset d lo default h = rw h

max_wait_clamped : (lo hi : ℕ) (d : ℤ) → 0 < hi → hi ≤ lo → max_wait (pos hi) (pos lo) d ≡ pos lo
max_wait_clamped lo hi d h0 h = rw (max_wait-pos hi lo d h0) (ground arith)

module _ (draw : ℕ → ℕ) (l : Limits) where
  buffer_waits : wait_buffer_req draw (impl_of l) ≡ (
      let lo = min_wait l.buffer_min_wait default_limits.buffer_min_wait in
      rand_uint32 draw
        (to_millis lo)
        (to_millis (max_wait l.buffer_max_wait lo default_limits.buffer_max_wait)))
  unfolding wait_buffer_req impl_of
  buffer_waits = refl

  stream_waits : wait_stream_req draw (impl_of l) ≡ (
      let lo = min_wait l.stream_min_wait default_limits.stream_min_wait in
      rand_uint32 draw
        (to_millis lo)
        (to_millis (max_wait l.stream_max_wait lo default_limits.stream_max_wait)))
  unfolding wait_stream_req impl_of
  stream_waits = refl

-- With a positive minimum, a maximum above it in whole milliseconds of 32 bits, and a draw below
-- its bound, the wait for a refused buffer request exists and lies from the minimum up to, and
-- below, the maximum, in milliseconds.
pub wait_buffer_req_bounds :
    (draw : ℕ → ℕ) (l : Limits) (lo hi : ℕ)
    → IsDraw draw
    → l.buffer_min_wait ≡ pos lo
    → l.buffer_max_wait ≡ pos hi
    → 0 < lo
    → lo / millisecond < hi / millisecond
    → hi / millisecond < 2 ^ 32
    → (w : ℕ) × (wait_buffer_req draw (impl_of l) ≡ ok w)
      × (lo / millisecond ≤ w)
      × (w < hi / millisecond)
wait_buffer_req_bounds draw l lo hi d elo ehi h0 h hh =
    let (w, e, a, b) = rand_uint32_bounds draw (lo / millisecond) (hi / millisecond) d h hh in
    (
      w,
      buffer_waits draw l
          ∙ rw
              (
                elo,
                ehi,
                min_wait-pos lo (pos (500 * millisecond)) h0,
                max_wait-pos hi lo (pos (5000 * millisecond)) (omega arith),
                ltb-eq_false hi lo (omega arith),
                to_millis-pos lo (omega arith),
                to_millis-pos hi hh,
              )
              e,
      a,
      b,
    )

-- With positive maxima that are not above the minima, `makeLimitsImpl` makes the bounds equal, and
-- the wait for a refused request, buffer or stream, panics whatever the draw.
pub wait_req-panic :
    (draw : ℕ → ℕ) (l : Limits) (lo hi slo shi : ℕ)
    → l.buffer_min_wait ≡ pos lo
    → l.buffer_max_wait ≡ pos hi
    → l.stream_min_wait ≡ pos slo
    → l.stream_max_wait ≡ pos shi
    → 0 < hi
    → hi ≤ lo
    → 0 < shi
    → shi ≤ slo
    → (wait_buffer_req draw (impl_of l) ≡ panic) × (wait_stream_req draw (impl_of l) ≡ panic)
wait_req-panic draw l lo hi slo shi elo ehi eslo eshi h0 h s0 sh = (
  buffer_waits draw l
      ∙ rw
          (
            elo,
            ehi,
            min_wait-pos lo (pos (500 * millisecond)) (omega arith),
            max_wait_clamped lo hi (pos (5000 * millisecond)) h0 h,
          )
          (rand_uint32-panic draw (to_millis (pos lo)) (to_millis-lt (pos lo))),
  stream_waits draw l
      ∙ rw
          (
            eslo,
            eshi,
            min_wait-pos slo (pos (500 * millisecond)) (omega arith),
            max_wait_clamped slo shi (pos (5000 * millisecond)) s0 sh,
          )
          (rand_uint32-panic draw (to_millis (pos slo)) (to_millis-lt (pos slo))),
)

-- With no maximum set, a minimum of more than 5000 milliseconds in 32 bits, and a draw below its
-- bound, the wait for a refused buffer request exists and is below 5000 or not below the minimum.
pub wait_buffer_req-unset_max :
    (draw : ℕ → ℕ) (l : Limits) (lo : ℕ)
    → IsDraw draw
    → l.buffer_min_wait ≡ pos lo
    → is_nonpos l.buffer_max_wait ≡ true
    → 5000 < lo / millisecond
    → lo / millisecond < 2 ^ 32
    → (w : ℕ) × (wait_buffer_req draw (impl_of l) ≡ ok w) × ((w < 5000) ⊎ (lo / millisecond ≤ w))
wait_buffer_req-unset_max draw l lo d elo unset h hh =
    let m = lo / millisecond in
    let (w, e, r) = rand_uint32_inverted draw m d h hh in
    (
      w,
      buffer_waits draw l
          ∙ rw
              (
                elo,
                min_wait-pos lo (pos (500 * millisecond)) (omega arith),
                max_wait-unset l.buffer_max_wait (pos lo) (pos (5000 * millisecond)) unset,
                to_millis-pos lo hh,
                to_millis-pos (5000 * millisecond) (omega arith),
              )
              e,
      r,
    )
