-- ===== src/Sock/Loop/Ends.antt =====
-- How many rounds the loop of `Read` can make.
use gotalk.Common.Int.{is_nonpos, lt_ℤ, pos}
use gotalk.Sock.Streams.{StreamJob}
use gotalk.Sock.Loop.Shrinking.{
  read_buffer_req-shrinks, read_stream_req-shrinks, read_stream_req_part-shrinks,
  read_response-shrinks, read_notification-shrinks,
}
use gotalk.Sock.Serving.{Turn, Job}
use gotalk.Protocol.Read.{read_msg}
use gotalk.Sock.Close.{close, close_error}
use gotalk.Sock.{Sock}
use gotalk.Protocol.Read.Shorter.{left, read_msg-shorter}
use gotalk.Protocol.{
  Msg, msg_type_single_req, msg_type_stream_req, msg_type_stream_req_part, msg_type_notification,
  msg_type_heartbeat, msg_type_protocol_error, protocol_error_invalid_msg,
}
use gotalk.Limits.{Limits, LimitsImpl, millisecond, make_limits_impl}
use gotalk.Common.{
  ℕ, Option, some, Bytes, none, Ensures, Result, ◌+◌, ◌<◌, ◌≢◌, Error, arith, ok, ◌≤◌, Ensures->>=,
  Ensures-if, suc, err, ◌==◌, ◌>>=◌, Ensures-any, panic, [], zero, not, ◌&&◌, replicate, ◌*◌,
}
use gotalk.Protocol.Reader.{Reader}
use gotalk.Sock.Loop.{
  read, Ended, after_msg, and_started, handle_msg, read_loop, serve_msg, turn, Next, Outside, Task,
  again, Handled, carry_on, exit, on_error, return_now, wind_up, leave, started, deadline_error,
  is_response, on_protocol_error,
}

handle_msg-shrinks :
    (o : Outside) (n : ℕ) (m : Msg) (r : Reader) (lim : LimitsImpl) (s : Sock)
    → Ensures (λ (x : Handled). left x.2 ≤ left r) (handle_msg o n m r lim s)
unfolding handle_msg
handle_msg-shrinks o n m r lim s =
    Ensures-if P (m.t == msg_type_single_req) _ _
      (Ensures->>= (λ (x : Turn Job). left x.3 ≤ left r) P _ _
        (read_buffer_req-shrinks o.conn (o.draw n) m.id m.name m.size r s o.find_buffer lim)
        λ x h. h)
      (Ensures-if P (m.t == msg_type_stream_req) _ _
        (Ensures->>= (λ (x : Turn StreamJob). left x.3 ≤ left r) P _ _
          (read_stream_req-shrinks o.conn (o.draw n) m.id m.name m.size r s o.find_stream lim)
          λ x h. h)
        (Ensures-if P (m.t == msg_type_stream_req_part) _ _
          (read_stream_req_part-shrinks lim m.id m.size r s)
          (Ensures-if P (is_response m.t) _ _ (read_response-shrinks m.t m.id m.wait m.size r s) (
            Ensures-if P (m.t == msg_type_notification) _ _
              (read_notification-shrinks o.find_note m.name m.size r s)
              (Ensures-if P (m.t == msg_type_heartbeat) _ _ (omega arith) (
                Ensures-if P (m.t == msg_type_protocol_error) _ _
                  (Ensures->>= _ P (on_protocol_error o m.size s) _ (Ensures-any _)
                    λ x _. omega arith)
                  (Ensures->>= _ P
                    (close_error o.conn o.text o.has_room protocol_error_invalid_msg s) _
                    (Ensures-any _) λ x _. omega arith)))))))
  where
    P : Handled → Type 0
    P x = left x.2 ≤ left r

-- A round that goes on has less of the stream left.
abbrev Advances : ℕ → Next → Type 0
Advances bound (again task r b lim s) = left r + 9 ≤ bound
Advances bound (exit task e lim s) = Unit {0}
Advances bound (return_now e lim s) = Unit {0}

after_msg-Advances :
    (o : Outside) (bound : ℕ) (b : Bytes) (x : Handled)
    → left x.2 + 9 ≤ bound
    → Ensures (Advances bound) (after_msg o b x)
unfolding after_msg
after_msg-Advances o bound b (carry_on none, task, r, lim, s) h = h
after_msg-Advances o bound b (carry_on (some e), task, r, lim, s) h =
    Ensures->>= _ (Advances bound) (on_error o e s) _ (Ensures-any _) λ x _. tt
after_msg-Advances o bound b (leave e, task, r, lim, s) h = tt

serve_msg-Advances :
    (o : Outside) (n bound : ℕ) (lim : LimitsImpl) (s : Sock) (m : Result (Msg × Reader × Bytes))
    → Ensures (λ (g : Msg × Reader × Bytes). left g.1 + 9 ≤ bound) m
    → Ensures (Advances bound) (serve_msg o n lim s m)
unfolding serve_msg
serve_msg-Advances o n bound lim s (ok (m, r, b)) h =
    Ensures->>= (λ (x : Handled). left x.2 ≤ left r) (Advances bound) (handle_msg o n m r lim s) _
      (handle_msg-shrinks o n m r lim s) λ x le. after_msg-Advances o bound b x (omega arith)
serve_msg-Advances o n bound lim s (err e) h =
    Ensures->>= _ (Advances bound) (on_error o e s) _ (Ensures-any _) λ x _. tt
serve_msg-Advances o n bound lim s panic h = tt

turn-Advances :
    (o : Outside) (n : ℕ) (r : Reader) (b : Bytes) (lim : LimitsImpl) (s : Sock)
    → Ensures (Advances (left r)) (turn o n r b lim s)
unfolding turn
turn-Advances o n r b lim s = at_deadline (deadline_error o n lim)
  where
    at_deadline :
        (e : Option Error)
        → Ensures (Advances (left r)) (elim e [
          | some e ↦ (close o.conn o.text o.has_room s >>= λ x. ok (return_now e lim x.1))
          | none ↦ serve_msg o n lim s (read_msg r b)
        ])
    at_deadline (some e) =
        Ensures->>= _ (Advances (left r)) (close o.conn o.text o.has_room s) _ (Ensures-any _)
          λ x _. tt
    at_deadline none = serve_msg-Advances o n (left r) lim s (read_msg r b) (read_msg-shorter r b)

abbrev IsDone : Ended → Type 0
IsDone none = ⊥
IsDone (some end) = Unit {0}

and_started-IsDone : (task : Option Task) (e : Ended) → IsDone e → IsDone (and_started task e)
unfolding and_started
and_started-IsDone task none h = h
and_started-IsDone task (some end) h = tt

read_loop-IsDone :
    (o : Outside) (fuel n : ℕ) (r : Reader) (b : Bytes) (lim : LimitsImpl) (s : Sock)
    → left r < 9 * fuel
    → Ensures IsDone (read_loop o fuel n r b lim s)
unfolding read_loop
read_loop-IsDone o zero n r b lim s h = absurd (omega arith)
read_loop-IsDone o (suc fuel) n r b lim s h =
    let lim0 = (o.between n (lim, s)).0 in
    let s0 = (o.between n (lim, s)).1 in
    Ensures->>= (Advances (left r)) IsDone (turn o n r b lim0 s0) _ (turn-Advances o n r b lim0 s0)
      λ next.
        goes next
          (λ task r' b' lim' s' le. read_loop-IsDone o fuel (suc n) r' b' lim' s' (omega arith))
  where
    goes :
        (next : Next)
        → ((task : Option Task) (r' : Reader) (b' : Bytes) (lim' : LimitsImpl) (s' : Sock)
            → left r' + 9 ≤ left r
            → Ensures IsDone (read_loop o fuel (suc n) r' b' lim' s'))
        → Advances (left r) next
        → Ensures IsDone (elim next [
          | again task r' b' lim' s' ↦
              (read_loop o fuel (suc n) r' b' lim' s' >>= λ ended. ok (and_started task ended))
          | exit task e lim' s' ↦
              (wind_up o e lim' s' >>= λ x. ok (some (started task [], x.0, x.1, x.2)))
          | return_now e lim' s' ↦ ok (some ([], e, lim', s'))
        ])
    goes (again task r' b' lim' s') rec le =
        Ensures->>= IsDone IsDone (read_loop o fuel (suc n) r' b' lim' s') _
          (rec task r' b' lim' s' le) (and_started-IsDone task)
    goes (exit task e lim' s') rec le =
        Ensures->>= _ IsDone (wind_up o e lim' s') _ (Ensures-any _) λ x _. tt
    goes (return_now e lim' s') rec le = tt

read-IsDone :
    (o : Outside) (limits : Option Limits) (r : Reader) (s : Sock)
    → Ensures IsDone (read o limits r s)
unfolding read
read-IsDone o limits r s = Ensures-if IsDone s.is_shutdown _ _ tt (
    Ensures-if IsDone
      (not (is_nonpos o.heartbeat_interval)
        && (not o.is_pipe && lt_ℤ o.heartbeat_interval (pos millisecond)))
      _ _ tt
      (read_loop-IsDone o (suc (left r)) 0 r (replicate 128 0) (make_limits_impl limits) s
        (omega arith)))

-- Whatever the connection gives and takes, the handlers, the limits and what other goroutines do to
-- the socket and its limits between two rounds: where the stream has fewer than `9 * k` bytes left,
-- the loop of `Read` does not get behind `k` rounds, since each round behind which it goes on has
-- taken at least 9 bytes; so the fuel that `Read` is given in the model is enough. That each round
-- itself ends is not stated: a send to a channel that nobody takes from blocks it.
pub read-rounds :
    (o : Outside) (fuel n : ℕ) (r : Reader) (b : Bytes) (lim : LimitsImpl) (limits : Option Limits)
    (s : Sock)
    → left r < 9 * fuel
    → (read_loop o fuel n r b lim s ≢ ok none) × (read o limits r s ≢ ok none)
read-rounds o fuel n r b lim limits s few = (
  λ e. rw e at (read_loop-IsDone o fuel n r b lim s few),
  λ e. rw e at (read-IsDone o limits r s),
)
