-- ===== src/Sock/Loop/Leaving.antt =====
-- How the loop of `Read` is left: behind a call of `Close`, or while the socket is being shut down.
use gotalk.Sock.Streams.{read_stream_req}
use gotalk.Sock.Serving.{read_buffer_req}
use gotalk.Protocol.Make.{make_msg}
use gotalk.Limits.{LimitsImpl}
use gotalk.Protocol.Reader.{Reader}
use gotalk.Protocol.{
  Msg, protocol_error_timeout, msg_type_protocol_error, msg_type_single_req, msg_type_stream_req,
  msg_type_stream_req_part, msg_type_notification, msg_type_heartbeat, protocol_error_invalid_msg,
}
use gotalk.Sock.{Sock}
use gotalk.Sock.Close.{close_error, send_error, close, set_protocol_error}
use gotalk.Common.{
  Ensures, Error, Option, ℕ, ◌≡◌, ◌⊎◌, Bool, Ensures-if, ok, true, Ensures-weaken, if◌then◌else◌,
  leb, ◌+◌, ◌>>=◌, Ensures->>=, eof, inl, inr, refl, false, timeout, ◌==◌, failed, Ensures-any, [],
  syntax, not, range, unsupported_version, sock_closed, abnormal, unsupported, invalid_msg,
  protocol_timeout, unknown_error, illegal_message, unexpected_streaming_res, arith, ◌<◌, ◌∷◌, ◌%◌,
  ◌^◌, clash,
}
use gotalk.Sock.Loop.Tidy.{IsTidy}
use gotalk.Sock.Loop.Tidy.Rounds.{
  read_buffer_req-IsTidy, read_stream_req-IsTidy, read_stream_req_part-IsTidy, read_response-IsTidy,
  read_notification-IsTidy,
}
use gotalk.Sock.Serving.{Turn, Job}
use gotalk.Sock.Streams.{StreamJob}
use gotalk.Sock.Close.{close_once}
use gotalk.Sock.{write}
use gotalk.Sock.Loop.{
  on_heartbeat, Outside, Handled, handle_msg, on_error, on_protocol_error, carry_on, leave,
  is_response,
}

-- `Close` was called, which is counted, and no request is pending.
abbrev pub IsShut : Sock → Type 0
IsShut s = (0 < s.closex) × (s.pending_res ≡ [])

-- A first call of `Close` or one after it, while the count does not wrap around
abbrev pub MayClose : ℕ → Sock → Type 0
MayClose bound s = (s.closex < bound) × ((s.closex ≡ 0) ⊎ (s.pending_res ≡ []))

-- Closed, with room for one call more, or being shut down; then it is closed behind the loop.
abbrev pub MayExit : Sock → Type 0
MayExit s = (IsShut s × (s.closex < 0xffff_ffff)) ⊎ ((s.is_shutdown ≡ true) × IsTidy s)

pub MayExit-MayClose : (s : Sock) → MayExit s → MayClose 0xffff_ffff s
MayExit-MayClose s (inl ((_, none_left), few)) = (few, inr none_left)
MayExit-MayClose s (inr (down, (few, tidy))) = (omega (arith, few), tidy)

module _ (o : Outside) where
  pub close-IsShut :
      (bound : ℕ) (s : Sock)
      → bound < 0x1_0000_0000
      → MayClose bound s
      → Ensures
          (λ (x : Option Error × Sock). IsShut x.1 × (x.1.closex < bound + 1))
          (close o.conn o.text o.has_room s)
  unfolding close
  close-IsShut bound s low (few, tidy) =
      first ((s.closex + 1) % 2 ^ 32) s.is_open counted ((s.closex + 1) % 2 ^ 32 == 1) refl
    where
      counted : (s.closex + 1) % 2 ^ 32 ≡ s.closex + 1
      counted = omega (arith, few, low)

      first :
          (n : ℕ) (is_open : Bool)
          → n ≡ s.closex + 1
          → (b : Bool) → (n == 1) ≡ b
          → Ensures
              (λ (x : Option Error × Sock). IsShut x.1 × (x.1.closex < bound + 1))
              (close_once o.conn o.text o.has_room b is_open (record s { closex = n }))
      first n is_open e false later =
          unfold close_once in
          (
            (
              omega (arith, e),
              elim tidy [
                | inl zero_closed ↦ absurd (clash (ground (arith, e, zero_closed)) later)
                | inr none_left ↦ none_left
              ],
            ),
            omega (arith, e, few),
          )
      first n false e true _ = unfold close_once in tt
      first n true e true _ = unfold close_once in ((omega (arith, e), refl), omega (arith, e, few))

  pub close-MayExit :
      (s : Sock)
      → IsTidy s
      → Ensures (λ (x : Option Error × Sock). MayExit x.1) (close o.conn o.text o.has_room s)
  close-MayExit s h =
      Ensures-weaken (λ (x : Option Error × Sock). IsShut x.1 × (x.1.closex < 0xffff_fffe + 1)) _
        (close o.conn o.text o.has_room s) (λ x (shut, few). inl (shut, omega (arith, few)))
        (close-IsShut 0xffff_fffe s (omega arith) h)

  close_error-MayExit :
      (code : ℕ) (s : Sock)
      → IsTidy s
      → Ensures
          (λ (x : Option Error × Sock). MayExit x.1)
          (close_error o.conn o.text o.has_room code s)
  unfolding close_error send_error set_protocol_error write
  close_error-MayExit code s h = Ensures-if P (leb 0x8000_0000 code) _ _ tt (
      Ensures->>= _ P (make_msg msg_type_protocol_error [] [] 0 code) _ (Ensures-any _) λ msg _.
        Ensures-if P (not s.is_open) _ _ tt
          (close-MayExit (write o.conn msg (set_protocol_error code s)).1 h))
    where
      P : Option Error × Sock → Type 0
      P x = MayExit x.1

  at_end-MayExit :
      (s : Sock)
      → IsTidy s
      → Ensures
          (λ (x : Error × Sock). MayExit x.1)
          (close o.conn o.text o.has_room s >>= λ x. ok (eof, x.1))
  at_end-MayExit s h =
      Ensures->>= (λ (x : Option Error × Sock). MayExit x.1) _ (close o.conn o.text o.has_room s) _
        (close-MayExit s h) λ x m. m

  pub on_error-MayExit :
      (e : Error) (s : Sock)
      → IsTidy s
      → Ensures (λ (x : Error × Sock). MayExit x.1) (on_error o e s)
  unfolding on_error
  on_error-MayExit timeout s h = shutting s.is_shutdown refl
    where
      shutting :
          (b : Bool)
          → s.is_shutdown ≡ b
          → Ensures
              (λ (x : Error × Sock). MayExit x.1)
              (if b
                then ok (timeout, s)
                else (close_error o.conn o.text o.has_room protocol_error_timeout s >>= λ x.
                    ok (timeout, x.1)))
      shutting true down = inr (down, h)
      shutting false up =
          Ensures->>= (λ (x : Option Error × Sock). MayExit x.1) _
            (close_error o.conn o.text o.has_room protocol_error_timeout s) _
            (close_error-MayExit protocol_error_timeout s h) λ x m. m
  on_error-MayExit eof s h = at_end-MayExit s h
  on_error-MayExit failed s h = at_end-MayExit s h
  on_error-MayExit syntax s h = at_end-MayExit s h
  on_error-MayExit range s h = at_end-MayExit s h
  on_error-MayExit unsupported_version s h = at_end-MayExit s h
  on_error-MayExit sock_closed s h = at_end-MayExit s h
  on_error-MayExit abnormal s h = at_end-MayExit s h
  on_error-MayExit unsupported s h = at_end-MayExit s h
  on_error-MayExit invalid_msg s h = at_end-MayExit s h
  on_error-MayExit protocol_timeout s h = at_end-MayExit s h
  on_error-MayExit unknown_error s h = at_end-MayExit s h
  on_error-MayExit illegal_message s h = at_end-MayExit s h
  on_error-MayExit unexpected_streaming_res s h = at_end-MayExit s h

  on_protocol_error-MayExit :
      (code : ℕ) (s : Sock) → IsTidy s → Ensures MayExit (on_protocol_error o code s)
  unfolding on_protocol_error set_protocol_error
  on_protocol_error-MayExit code s h = shutting s.is_shutdown refl
    where
      shutting :
          (b : Bool)
          → s.is_shutdown ≡ b
          → Ensures MayExit (
              if b
              then ok (set_protocol_error code s)
              else (close o.conn o.text o.has_room (set_protocol_error code s) >>= λ x. ok x.1))
      shutting true down = unfold set_protocol_error in inr (down, h)
      shutting false up =
          Ensures->>= (λ (x : Option Error × Sock). MayExit x.1) _
            (close o.conn o.text o.has_room (set_protocol_error code s)) _
            (close-MayExit (set_protocol_error code s) (unfold set_protocol_error in h)) λ x m. m

  abbrev pub MayLeave : Handled → Type 0
  MayLeave (carry_on e, task, r, lim, s) = IsTidy s
  MayLeave (leave e, task, r, lim, s) = MayExit s

  pub handle_msg-MayLeave :
      (n : ℕ) (m : Msg) (r : Reader) (lim : LimitsImpl) (s : Sock)
      → IsTidy s
      → Ensures MayLeave (handle_msg o n m r lim s)
  unfolding handle_msg on_heartbeat
  handle_msg-MayLeave n m r lim s h =
      Ensures-if MayLeave (m.t == msg_type_single_req) _ _
        (Ensures->>= (λ (x : Turn Job). IsTidy x.4) MayLeave
          (read_buffer_req o.conn (o.draw n) o.find_buffer lim m.id m.name m.size r s) _
          (read_buffer_req-IsTidy o.conn (o.draw n) m.id m.name m.size r s h o.find_buffer lim)
          λ x k. k)
        (Ensures-if MayLeave (m.t == msg_type_stream_req) _ _
          (Ensures->>= (λ (x : Turn StreamJob). IsTidy x.4) MayLeave
            (read_stream_req o.conn (o.draw n) o.find_stream lim m.id m.name m.size r s) _
            (read_stream_req-IsTidy o.conn (o.draw n) m.id m.name m.size r s h o.find_stream lim)
            λ x k. k)
          (Ensures-if MayLeave (m.t == msg_type_stream_req_part) _ _
            (read_stream_req_part-IsTidy lim m.id m.size r s h)
            (Ensures-if MayLeave (is_response m.t) _ _
              (read_response-IsTidy m.t m.id m.wait m.size r s h)
              (Ensures-if MayLeave (m.t == msg_type_notification) _ _
                (read_notification-IsTidy o.find_note m.name m.size r s h)
                (Ensures-if MayLeave (m.t == msg_type_heartbeat) _ _ (heard s.has_on_heartbeat) (
                  Ensures-if MayLeave (m.t == msg_type_protocol_error) _ _
                    (Ensures->>= MayExit MayLeave (on_protocol_error o m.size s) _
                      (on_protocol_error-MayExit m.size s h) λ x k. k)
                    (Ensures->>= (λ (x : Option Error × Sock). MayExit x.1) MayLeave
                      (close_error o.conn o.text o.has_room protocol_error_invalid_msg s) _
                      (close_error-MayExit protocol_error_invalid_msg s h) λ x k. k)))))))
    where
      heard :
          (b : Bool)
          → IsTidy (if b then record s { heartbeats = (m.wait, m.size) ∷ s.heartbeats } else s)
      heard true = h
      heard false = h
