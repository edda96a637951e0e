-- ===== src/Limits/Counter/Shared.antt =====
-- `inc` and `dec` are not atomic: `inc` adds, compares what it got, and takes the addition back. Here
-- any number of goroutines do so in any order.
use gotalk.Common.{ℕ, ◌+◌, ◌-◌, ◌%◌, ◌^◌, ◌≤◌, ◌<◌, ◌≡◌, arith}
use gotalk.Limits.{LimitCounter}

-- The counter and how many goroutines are outside, hold a place, or have still to take back an
-- addition that went over the limit.
pub record State : Type 0 where
  pub counter : LimitCounter
  pub open counter use *
  pub outside : ℕ
  pub holding : ℕ
  pub undoing : ℕ

abbrev added : State → ℕ
added s = (s.count + 1) % 2 ^ 32

abbrev taken : State → ℕ
taken s = (s.count + 0xffff_ffff) % 2 ^ 32

-- One atomic step of one goroutine. What `AddUint32` returns decides at once how `inc` goes on.
pub data Step (s u : State) : Type 0 where
  admit :
      0 < s.outside
      → added s ≤ s.limit
      → u ≡ record s {
        counter = record { limit = s.limit; count = added s };
        outside = s.outside - 1;
        holding = s.holding + 1;
      }
      → Step s u
  overshoot :
      0 < s.outside
      → s.limit < added s
      → u ≡ record s {
        counter = record { limit = s.limit; count = added s };
        outside = s.outside - 1;
        undoing = s.undoing + 1;
      }
      → Step s u
  undo :
      0 < s.undoing
      → u ≡ record s {
        counter = record { limit = s.limit; count = taken s };
        outside = s.outside + 1;
        undoing = s.undoing - 1;
      }
      → Step s u
  release :
      0 < s.holding
      → u ≡ record s {
        counter = record { limit = s.limit; count = taken s };
        outside = s.outside + 1;
        holding = s.holding - 1;
      }
      → Step s u

pub data Reach (s : State) : State → Type 0 where
  here : Reach s s
  next : {t u : State} → Reach s t → Step t u → Reach s u

-- `n` goroutines, none of which has begun.
unfoldable pub start : ℕ → ℕ → State
start limit n = record {
  counter = record { limit = limit; count = 0 };
  outside = n;
  holding = 0;
  undoing = 0;
}

record Inv (limit n : ℕ) (s : State) : Type 0 where
  counted : s.count ≡ s.holding + s.undoing
  total : s.outside + s.holding + s.undoing ≡ n
  fixed : s.limit ≡ limit
  bounded : s.holding ≤ limit

Step-Inv : (limit n : ℕ) (s u : State) → n < 2 ^ 32 → Step s u → Inv limit n s → Inv limit n u
Step-Inv limit n s u hn (admit h a e) v = rw e (ground arith)
Step-Inv limit n s u hn (overshoot h a e) v = rw e (ground arith)
Step-Inv limit n s u hn (undo h e) v = rw e (ground arith)
Step-Inv limit n s u hn (release h e) v = rw e (ground arith)

Reach-Inv : (limit n : ℕ) (s : State) → n < 2 ^ 32 → Reach (start limit n) s → Inv limit n s
unfolding start
Reach-Inv limit n s hn here = omega arith
Reach-Inv limit n s hn (next {t = t} r st) = Step-Inv limit n t s hn st (Reach-Inv limit n t hn r)

-- In every state that fewer than `2 ^ 32` goroutines reach from a zero counter, in any interleaving
-- of the atomic additions of `inc` and `dec`, at most `limit` of them hold a place, and the counter
-- is the number of those that hold one or have still to take an addition back.
pub holding-le-limit :
    (limit n : ℕ) (s : State)
    → n < 2 ^ 32
    → Reach (start limit n) s
    → (s.holding ≤ limit) × (s.count ≡ s.holding + s.undoing)
holding-le-limit limit n s hn r = let v = Reach-Inv limit n s hn r in (v.bounded, v.counted)
