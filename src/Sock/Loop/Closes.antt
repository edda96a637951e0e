-- ===== src/Sock/Loop/Closes.antt =====
-- Where the loop of `Read` is left the socket is closed, and no request is pending.
use gotalk.Sock.Loop.Leaving.{
  IsShut, MayExit, MayLeave, MayExit-MayClose, close-IsShut, handle_msg-MayLeave, on_error-MayExit,
}
use gotalk.Sock.Loop.Tidy.{IsTidy}
use gotalk.Sock.Setup.{is_closed}
use gotalk.Protocol.Reader.Exact.{stream}
use gotalk.Protocol.Read.{read_msg}
use gotalk.Common.Int.{is_nonpos, lt_ℤ, pos}
use mathlib.Core.Path.{subst}
use gotalk.Limits.{LimitsImpl, Limits, make_limits_impl, millisecond}
use gotalk.Protocol.Reader.{Reader}
use gotalk.Protocol.{Msg}
use gotalk.Sock.{Sock}
use gotalk.Sock.Close.{close}
use gotalk.Common.{
  Result, Ensures, Error, Option, ℕ, ◌≡◌, Bool, Ensures-if, ok, true, err, if◌then◌else◌, ◌+◌,
  ◌>>=◌, Ensures->>=, inl, inr, refl, false, panic, [], not, sock_closed, Bytes, List, some, none,
  suc, zero, ◌&&◌, length, replicate, sym, clash, ltb-eq_true, ◌<◌, arith,
}
use gotalk.Sock.Loop.{
  read, Outside, Handled, handle_msg, on_error, carry_on, leave, Ended, Next, after_msg,
  and_started, read_loop, serve_msg, turn, wind_up, Task, again, exit, return_now, started,
  deadline_error,
}

module _ (o : Outside)
    (tidy : (n : ℕ) (x : LimitsImpl × Sock) → IsTidy x.1 → IsTidy (o.between n x).1) where
  abbrev MayEnd : Next → Type 0
  MayEnd (again task r b lim s) = IsTidy s
  MayEnd (exit task e lim s) = MayExit s
  MayEnd (return_now e lim s) = IsShut s

  after_msg-MayEnd : (b : Bytes) (x : Handled) → MayLeave o x → Ensures MayEnd (after_msg o b x)
  unfolding after_msg
  after_msg-MayEnd b (carry_on none, task, r, lim, s) h = h
  after_msg-MayEnd b (carry_on (some e), task, r, lim, s) h =
      Ensures->>= (λ (x : Error × Sock). MayExit x.1) MayEnd (on_error o e s) _
        (on_error-MayExit o e s h) λ x m. m
  after_msg-MayEnd b (leave e, task, r, lim, s) h = h

  serve_msg-MayEnd :
      (n : ℕ) (lim : LimitsImpl) (s : Sock) (m : Result (Msg × Reader × Bytes))
      → IsTidy s
      → Ensures MayEnd (serve_msg o n lim s m)
  unfolding serve_msg
  serve_msg-MayEnd n lim s (ok (m, r, b)) h =
      Ensures->>= (MayLeave o) MayEnd (handle_msg o n m r lim s) _
        (handle_msg-MayLeave o n m r lim s h) (after_msg-MayEnd b)
  serve_msg-MayEnd n lim s (err e) h =
      Ensures->>= (λ (x : Error × Sock). MayExit x.1) MayEnd (on_error o e s) _
        (on_error-MayExit o e s h) λ x m. m
  serve_msg-MayEnd n lim s panic h = tt

  turn-MayEnd :
      (n : ℕ) (r : Reader) (b : Bytes) (lim : LimitsImpl) (s : Sock)
      → IsTidy s
      → Ensures MayEnd (turn o n r b lim s)
  unfolding turn
  turn-MayEnd n r b lim s h = at_deadline (deadline_error o n lim)
    where
      at_deadline :
          (e : Option Error)
          → Ensures MayEnd (elim e [
            | some e ↦ (close o.conn o.text o.has_room s >>= λ x. ok (return_now e lim x.1))
            | none ↦ serve_msg o n lim s (read_msg r b)
          ])
      at_deadline none = serve_msg-MayEnd n lim s (read_msg r b) h
      at_deadline (some e) =
          Ensures->>= (λ (x : Option Error × Sock). IsShut x.1 × (x.1.closex < 0xffff_ffff + 1))
            MayEnd (close o.conn o.text o.has_room s) _
            (close-IsShut o 0xffff_ffff s (omega arith) (omega (arith, h.0), h.1)) λ x k. k.0

  wind_up-IsShut :
      (e : Error) (lim : LimitsImpl) (s : Sock)
      → MayExit s
      → Ensures (λ (x : Error × LimitsImpl × Sock). IsShut x.2) (wind_up o e lim s)
  unfolding wind_up
  wind_up-IsShut e lim s h = down s.is_shutdown refl
    where
      down :
          (b : Bool)
          → s.is_shutdown ≡ b
          → Ensures
              (λ (x : Error × LimitsImpl × Sock). IsShut x.2)
              (if b
                then (close o.conn o.text o.has_room s >>= λ x.
                    ok (e, lim, record x.1 { done_calls = x.1.done_calls + 1 }))
                else ok (e, lim, s))
      down true eq =
          Ensures->>= (λ (x : Option Error × Sock). IsShut x.1 × (x.1.closex < 0xffff_ffff + 1)) _
            (close o.conn o.text o.has_room s) _
            (close-IsShut o 0xffff_ffff s (omega arith) (MayExit-MayClose s h)) λ x k. k.0
      down false eq = elim h [ inl (shut, _) ↦ shut | inr (shut, _) ↦ absurd (clash shut eq) ]

  abbrev EndsClosed : Ended → Type 0
  EndsClosed none = Unit {0}
  EndsClosed (some (ts, e, lim, s)) = IsShut s

  and_started-EndsClosed :
      (task : Option Task) (x : Ended) → EndsClosed x → EndsClosed (and_started task x)
  unfolding and_started
  and_started-EndsClosed task none h = tt
  and_started-EndsClosed task (some (ts, e, lim, s)) h = h

  read_loop-EndsClosed :
      (fuel n : ℕ) (r : Reader) (b : Bytes) (lim : LimitsImpl) (s : Sock)
      → IsTidy s
      → Ensures EndsClosed (read_loop o fuel n r b lim s)
  unfolding read_loop
  read_loop-EndsClosed zero n r b lim s h = tt
  read_loop-EndsClosed (suc fuel) n r b lim s h =
      let lim0 = (o.between n (lim, s)).0 in
      let s0 = (o.between n (lim, s)).1 in
      Ensures->>= MayEnd EndsClosed (turn o n r b lim0 s0) _
        (turn-MayEnd n r b lim0 s0 (tidy n (lim, s) h))
        λ next.
          goes next (λ task r' b' lim' s' k. read_loop-EndsClosed fuel (suc n) r' b' lim' s' k)
    where
      goes :
          (next : Next)
          → ((task : Option Task) (r' : Reader) (b' : Bytes) (lim' : LimitsImpl) (s' : Sock)
              → IsTidy s'
              → Ensures EndsClosed (read_loop o fuel (suc n) r' b' lim' s'))
          → MayEnd next
          → Ensures EndsClosed (elim next [
            | again task r' b' lim' s' ↦
                (read_loop o fuel (suc n) r' b' lim' s' >>= λ ended. ok (and_started task ended))
            | exit task e lim' s' ↦
                (wind_up o e lim' s' >>= λ x. ok (some (started task [], x.0, x.1, x.2)))
            | return_now e lim' s' ↦ ok (some ([], e, lim', s'))
          ])
      goes (again task r' b' lim' s') rec h =
          Ensures->>= EndsClosed EndsClosed (read_loop o fuel (suc n) r' b' lim' s') _
            (rec task r' b' lim' s' h) (and_started-EndsClosed task)
      goes (exit task e lim' s') rec h =
          Ensures->>= _ EndsClosed (wind_up o e lim' s') _ (wind_up-IsShut e lim' s' h) λ x c. c
      goes (return_now e lim' s') rec h = h

  read-EndsClosed :
      (limits : Option Limits) (r : Reader) (s : Sock)
      → s.is_shutdown ≡ false
      → IsTidy s
      → Ensures EndsClosed (read o limits r s)
  unfolding read
  read-EndsClosed limits r s up h =
      subst
        (λ b. Ensures EndsClosed (
          if b
          then ok (some ([], sock_closed, make_limits_impl limits, s))
          else if not (is_nonpos o.heartbeat_interval)
              && (not o.is_pipe && lt_ℤ o.heartbeat_interval (pos millisecond))
          then panic
          else read_loop o (suc (length (stream r))) 0 r (replicate 128 0) (make_limits_impl limits)
              s))
        (sym up)
        (Ensures-if EndsClosed
          (not (is_nonpos o.heartbeat_interval)
            && (not o.is_pipe && lt_ℤ o.heartbeat_interval (pos millisecond)))
          _ _ tt
          (read_loop-EndsClosed (suc (length (stream r))) 0 r (replicate 128 0)
            (make_limits_impl limits) s h))

  -- With a socket that is not being shut down at the start, on which `Close` was called fewer than
  -- `2 ^ 32 - 2` times and has, once it was called, no request pending, and with other goroutines
  -- that keep both of these so between the rounds: wherever the loop of `Read` ends with an error,
  -- whatever the connection gives and takes, the handlers and the limits, `Close` has been called,
  -- as `IsClosed` then says, and no request is pending. This is so behind a failed deadline, the
  -- end of the stream, a failed or timed-out read, an error of a message's handler, a protocol
  -- error of the peer and a message of an unknown type, also if the socket is being shut down by
  -- then.
  pub read-IsShut :
      (limits : Option Limits) (r : Reader) (s s' : Sock) (ts : List Task) (e : Error)
      (lim : LimitsImpl)
      → s.is_shutdown ≡ false
      → IsTidy s
      → read o limits r s ≡ ok (some (ts, e, lim, s'))
      → (is_closed s' ≡ true) × (s'.pending_res ≡ [])
  unfolding is_closed
  read-IsShut limits r s s' ts e lim up h ends =
      let (counted, none_left) =
        subst (Ensures EndsClosed) ends (read-EndsClosed limits r s up h) in
      (ltb-eq_true 0 s'.closex counted, none_left)
