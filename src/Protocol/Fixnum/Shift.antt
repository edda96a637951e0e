-- ===== src/Protocol/Fixnum/Shift.antt =====
-- `rShiftSlice` moves a slice's front to its end and pads.
use gotalk.Common.{
  ℕ, zero, suc, ◌+◌, ◌-◌, ◌≤◌, ◌<◌, ◌≡◌, refl, ◌∙◌, arith, ◌++◌, Bytes, length, set, get_or, take,
  replicate, ltb, leb, ◌&&◌, ◌==◌, if◌then◌else◌, ok, length-set, length-append, length-take,
  length-replicate, get_or-set, get_or-ext, get_or-append, get_or-replicate, get_or-take, take_all,
  ap, ltb-eq_false, eqb-eq_false,
}
use gotalk.Common.Int.{pos}
use gotalk.Protocol.Fixnum.{shift_round, shift_loop, pad_loop, r_shift_slice}

length-shift_round : (w n p : ℕ) (b : Bytes) → length (shift_round w n p b) ≡ length b
unfolding shift_round
length-shift_round w n p b =
    length-set (set b (w + n) (get_or b w 0)) w p ∙ length-set b (w + n) (get_or b w 0)

-- One round, index by index.
get_or-shift_round :
    (w n p : ℕ) (b : Bytes) (i : ℕ)
    → 0 < n
    → w + n < length b
    → get_or (shift_round w n p b) i 0
      ≡ (if w == i then p else if w + n == i then get_or b w 0 else get_or b i 0)
unfolding shift_round
get_or-shift_round w n p b i hn h = ground (
  arith,
  get_or-set (set b (w + n) (get_or b w 0)) w i p 0,
  length-set b (w + n) (get_or b w 0),
  get_or-set b (w + n) i (get_or b w 0) 0,
)

length-shift_loop : (w n p : ℕ) (b : Bytes) → length (shift_loop w n p b) ≡ length b
unfolding shift_loop
length-shift_loop zero n p b = refl
length-shift_loop (suc w) n p b =
    length-shift_loop w n p (shift_round w n p b) ∙ length-shift_round w n p b

length-pad_loop : (c base p : ℕ) (b : Bytes) → length (pad_loop c base p b) ≡ length b
unfolding pad_loop
length-pad_loop zero base p b = refl
length-pad_loop (suc c) base p b =
    omega (arith, length-pad_loop c base p (set b (base + c) p), length-set b (base + c) p)

-- The first loop leaves what is not below `w + n`,
shift_loop_above :
    (w n p : ℕ) (b : Bytes) (i : ℕ)
    → 0 < n
    → w + n ≤ length b
    → w + n ≤ i
    → get_or (shift_loop w n p b) i 0 ≡ get_or b i 0
unfolding shift_loop
shift_loop_above zero n p b i hn h lo = refl
shift_loop_above (suc w) n p b i hn h lo = ground (
  arith,
  shift_loop_above w n p (shift_round w n p b) i,
  length-shift_round w n p b,
  get_or-shift_round w n p b i,
)

-- moves the bytes below `w` up by `n`,
shift_loop_moved :
    (w n p : ℕ) (b : Bytes) (i : ℕ)
    → 0 < n
    → w + n ≤ length b
    → i < w
    → get_or (shift_loop w n p b) (i + n) 0 ≡ get_or b i 0
unfolding shift_loop
shift_loop_moved zero n p b i hn h hi = absurd (omega arith)
shift_loop_moved (suc w) n p b i hn h hi = ground (
  arith,
  shift_loop_moved w n p (shift_round w n p b) i,
  shift_loop_above w n p (shift_round w n p b) (i + n),
  length-shift_round w n p b,
  get_or-shift_round w n p b i,
  get_or-shift_round w n p b (i + n),
)

-- and pads below `n` as far as `w`.
shift_loop_below :
    (w n p : ℕ) (b : Bytes) (i : ℕ)
    → 0 < n
    → w + n ≤ length b
    → i < n
    → get_or (shift_loop w n p b) i 0 ≡ (if ltb i w then p else get_or b i 0)
unfolding shift_loop
shift_loop_below zero n p b i hn h hi = ground arith
shift_loop_below (suc w) n p b i hn h hi = ground (
  arith,
  shift_loop_below w n p (shift_round w n p b) i,
  length-shift_round w n p b,
  get_or-shift_round w n p b i,
)

get_or-pad_loop :
    (c base p : ℕ) (b : Bytes) (i : ℕ)
    → base + c ≤ length b
    → get_or (pad_loop c base p b) i 0
      ≡ (if leb base i && ltb i (base + c) then p else get_or b i 0)
unfolding pad_loop
get_or-pad_loop zero base p b i h = ground arith
get_or-pad_loop (suc c) base p b i h = ground (
  arith,
  get_or-pad_loop c base p (set b (base + c) p) i,
  length-set b (base + c) p,
  get_or-set b (base + c) i p 0,
)

-- The two loops together, index by index.
get_or-shifted :
    (n p : ℕ) (b : Bytes) (i : ℕ)
    → 0 < n
    → n ≤ length b
    → i < length b
    → get_or (pad_loop (n - (length b - n)) (length b - n) p (shift_loop (length b - n) n p b)) i 0
      ≡ get_or (replicate n p ++ take (length b - n) b) i 0
get_or-shifted n p b i hn h hi = ground (
  arith,
  get_or-pad_loop (n - (length b - n)) (length b - n) p (shift_loop (length b - n) n p b) i,
  length-shift_loop (length b - n) n p b,
  shift_loop_below (length b - n) n p b i,
  shift_loop_moved (length b - n) n p b (i - n),
  get_or-append (replicate n p) (take (length b - n) b) i 0,
  length-replicate n p,
  get_or-replicate n i p 0,
  get_or-take (length b - n) (i - n) b 0,
)

-- For `n` at most the slice's length, the in-place loops of `rShiftSlice` give `n` padding bytes
-- followed by the slice without its last `n` bytes, and do not index out of range.
pub r_shift_slice-pos :
    (b : Bytes) (n p : ℕ)
    → n ≤ length b
    → r_shift_slice b (pos n) p ≡ ok (replicate n p ++ take (length b - n) b)
unfolding r_shift_slice
r_shift_slice-pos b zero p h = ground (arith, take_all (length b - 0) b)
r_shift_slice-pos b (suc m) p h =
    let n = suc m in
    let moved : Bytes = shift_loop (length b - n) n p b in
    let out : Bytes = pad_loop (n - (length b - n)) (length b - n) p moved in
    let same : length out ≡ length b =
      length-pad_loop (n - (length b - n)) (length b - n) p moved
      ∙ length-shift_loop (length b - n) n p b in
    rw (eqb-eq_false n 0 (λ e. omega arith), ltb-eq_false (length b) n h)
      (ap ok (
        get_or-ext 0 out (replicate n p ++ take (length b - n) b)
          (omega (
            arith,
            same,
            length-append (replicate n p) (take (length b - n) b),
            length-replicate n p,
            length-take (length b - n) b,
          ))
          (λ i hi. get_or-shifted n p b i (omega arith) h (omega (arith, same)))))
