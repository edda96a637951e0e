-- ===== src/Sock/Closing.antt =====
-- `Close` and `CloseError`: what the requests that wait get.
use gotalk.Common.{
  ℕ, ◌+◌, ◌%◌, ◌^◌, ◌<◌, ◌≡◌, refl, sym, ap, ◌∙◌, arith, Bool, true, false, not, inl, inr, List, [],
  ◌∷◌, Bytes, bytes_eq, ◌==◌, if◌then◌else◌, Option, none, some, Error, ok, panic, ◌>>=◌,
  Bool-cases, eqb-eq_false, leb-eq_false,
}
use gotalk.Common.Int.{pos, is_nonpos}
use mathlib.Core.List.{Memᴰ}
use mathlib.Core.List.Memᴰ.{head, tail}
use gotalk.Protocol.{msg_type_protocol_error}
use gotalk.Protocol.Make.{make_msg, name_size}
use gotalk.Protocol.Make.Fields.{wire}
use gotalk.Protocol.Make.Wire.{make_msg-wire}
use gotalk.Handlers.{lookup}
use gotalk.Sock.{Conn, Sock, Response, code_of, protocol_error, check_close_code, is_error, write}
use gotalk.Sock.Retry.{failed_with, refused, outcome_of, error_of_wait}
use gotalk.Sock.Close.{
  int32, has_error, error_on_close, closed_response, close_all, close_once, close, close_error,
  send_error, set_protocol_error,
}

int32-small : (n : ℕ) → n < 0x8000_0000 → int32 n ≡ pos n
unfolding int32
int32-small n h = ground arith

code_of_suc : (code : ℕ) → code < 0x7fff_ffff → code_of ((code + 1) % 2 ^ 32) ≡ code
unfolding code_of
code_of_suc code h = ground arith

outcome-closed_response :
    (text : Error → Bytes) (e : Option Error) (code : ℕ)
    → 0 < code
    → code < 0x7fff_ffff
    → outcome_of (closed_response text e ((code + 1) % 2 ^ 32)) ≡ failed_with (protocol_error code)
unfolding outcome_of closed_response is_error
outcome-closed_response text e code h0 h =
    let wait : (closed_response text e ((code + 1) % 2 ^ 32)).wait ≡ pos code =
      rw (eqb-eq_false ((code + 1) % 2 ^ 32) 0 (λ q. omega (arith, q)), code_of_suc code h)
        (int32-small code (omega arith)) in
    ap
      (λ w.
        if is_nonpos w
        then refused (closed_response text e ((code + 1) % 2 ^ 32)).payload
        else failed_with (error_of_wait w))
      wait
    ∙ (unfold error_of_wait in
        rw (leb-eq_false code 0 h0) (ap (λ n. failed_with (protocol_error n)) (ground arith)))

close_all-keeps :
    (has_room : ℕ → Bool) (res : Response) (m : List (Bytes × Option ℕ)) (log : List (ℕ × Response))
    (x : ℕ × Response)
    → Memᴰ x log
    → Memᴰ x (close_all has_room res m log)
unfolding close_all
close_all-keeps has_room res [] log x h = h
close_all-keeps has_room res ((id, none) ∷ m) log x h = close_all-keeps has_room res m log x h
close_all-keeps has_room res ((id, some ch) ∷ m) log x h =
    close_all-keeps has_room res m _ x (keep (has_room ch))
  where
    keep : (b : Bool) → Memᴰ x (if b then (ch, res) ∷ log else log)
    keep true = tail h
    keep false = h

close_all-gives :
    (has_room : ℕ → Bool) (res : Response) (m : List (Bytes × Option ℕ)) (log : List (ℕ × Response))
    (id : Bytes) (ch : ℕ)
    → lookup id m ≡ some ch
    → has_room ch ≡ true
    → Memᴰ (ch, res) (close_all has_room res m log)
unfolding close_all lookup
close_all-gives has_room res [] log id ch e room = cc e
close_all-gives has_room res ((k, none) ∷ m) log id ch e room =
    close_all-gives has_room res m log id ch (found_below (bytes_eq k id) e) room
  where
    found_below : (b : Bool) → (if b then none else lookup id m) ≡ some ch → lookup id m ≡ some ch
    found_below true q = cc q
    found_below false q = q
close_all-gives has_room res ((k, some d) ∷ m) log id ch e room =
    elim (Bool-cases (bytes_eq k id)) [
      | inl here ↦
          let e' : some d ≡ some ch = rw here at e in
          close_all-keeps has_room res m _ (ch, res)
            (first_given (has_room d) (cc (e', room)) (some_same e'))
      | inr further ↦ close_all-gives has_room res m _ id ch (rw further at e) room
    ]
  where
    some_same : some d ≡ some ch → d ≡ ch
    some_same q = cc q

    first_given :
        (b : Bool) → b ≡ true → d ≡ ch → Memᴰ (ch, res) (if b then (d, res) ∷ log else log)
    first_given true p q = head (ap (λ n. (n, res)) (sym q))
    first_given false p q = cc p

error_on_close-code :
    (c : Conn) (code : ℕ) (s : Sock)
    → code < 0x7fff_ffff
    → error_on_close c (record s { close_code = (code + 1) % 2 ^ 32 }) ≡ some (protocol_error code)
unfolding error_on_close has_error
error_on_close-code c code s h = rw (
  int32-small ((code + 1) % 2 ^ 32) (omega arith),
  leb-eq_false ((code + 1) % 2 ^ 32) 0 (omega arith),
  code_of_suc code h,
)

error_made :
    (code : ℕ)
    → code < 2 ^ 32
    → make_msg msg_type_protocol_error [] [] 0 code ≡ ok (wire msg_type_protocol_error [] [] 0 code)
error_made code h =
    make_msg-wire msg_type_protocol_error [] [] 0 code (inl refl) (unfold name_size in omega arith)
      (omega arith) h

-- At the first closing of an open socket, `CloseError` with a code from 1 to `2 ^ 31 - 2` ends with
-- that code's error, gives each pending channel that has room a response which makes
-- `BufferRequest` fail with the same error, leaves no channel pending and that error as the close
-- code's, and calls `CloseHandler`, if there is one, with the code plus one.
pub close_error-gives :
    (c : Conn) (text : Error → Bytes) (has_room : ℕ → Bool) (code ch : ℕ) (id : Bytes) (s : Sock)
    → s.is_open ≡ true
    → s.closex ≡ 0
    → 0 < code
    → code < 0x7fff_ffff
    → lookup id s.pending_res ≡ some ch
    → has_room ch ≡ true
    → (s' : Sock) × (res : Response) × (close_error c text has_room code s
        ≡ ok (some (protocol_error code), s'))
      × Memᴰ (ch, res) s'.delivered
      × (outcome_of res ≡ failed_with (protocol_error code))
      × (s'.pending_res ≡ [])
      × (check_close_code s' ≡ some (protocol_error code))
      × (s'.close_codes
          ≡ (if s.has_close_handler then (code + 1) ∷ s.close_codes else s.close_codes))
unfolding close_error send_error close set_protocol_error write
close_error-gives c text has_room code ch id s open_ first h0 h found room =
    let w = wire msg_type_protocol_error [] [] 0 code in
    let closed : Sock = record s {
      writes = w ∷ s.writes;
      closex = (s.closex + 1) % 2 ^ 32;
      close_code = (code + 1) % 2 ^ 32;
    } in
    let error = error_on_close c closed in
    let res = closed_response text error ((code + 1) % 2 ^ 32) in
    let fails : error ≡ some (protocol_error code) = error_on_close-code c code closed h in
    let s' : Sock = record closed {
      pending_res = [];
      delivered = close_all has_room res s.pending_res s.delivered;
      close_codes =
          if s.has_close_handler then (code + 1) % 2 ^ 32 ∷ s.close_codes else s.close_codes;
    } in
    (
      s',
      res,
      rw (leb-eq_false 0x8000_0000 code (omega arith)) (
          ap
            (λ m. m >>= (λ msg.
              if not s.is_open
              then panic
              else close_once c text has_room ((s.closex + 1) % 2 ^ 32 == 1) s.is_open
                  (record closed { writes = msg ∷ s.writes })))
            (error_made code (omega arith))
          ∙ ap
              (λ b.
                if not b
                then panic
                else close_once c text has_room ((s.closex + 1) % 2 ^ 32 == 1) b closed)
              open_
          ∙ ap (λ n. close_once c text has_room ((n + 1) % 2 ^ 32 == 1) true closed) first
          ∙ (unfold close_once in ap (λ e. ok (e, s')) fails)),
      close_all-gives has_room res s.pending_res s.delivered id ch found room,
      outcome-closed_response text error code h0 h,
      refl,
      (unfold check_close_code in
          rw (eqb-eq_false ((code + 1) % 2 ^ 32) 0 (λ q. omega (arith, q)), code_of_suc code h)
            refl),
      ap (λ (n : ℕ). if s.has_close_handler then n ∷ s.close_codes else s.close_codes)
          (ground arith),
    )

-- After a first call of `Close`, and for `2 ^ 32 - 2` calls more, `Close` changes nothing but the
-- count of its calls, and returns no error.
close-again :
    (c : Conn) (text : Error → Bytes) (has_room : ℕ → Bool) (s : Sock)
    → 0 < s.closex
    → s.closex < 0xffff_ffff
    → close c text has_room s ≡ ok (none, record s { closex = s.closex + 1 })
unfolding close
close-again c text has_room s h0 h =
    ap (λ b. close_once c text has_room b s.is_open (record s { closex = (s.closex + 1) % 2 ^ 32 }))
      (eqb-eq_false ((s.closex + 1) % 2 ^ 32) 1 (λ q. omega (arith, q)))
    ∙ (unfold close_once in ap (λ n. ok (none, record s { closex = n })) (ground arith))

-- The first call of `Close` on an open socket closes it, and leaves no channel pending.
pub close_first :
    (c : Conn) (text : Error → Bytes) (has_room : ℕ → Bool) (s : Sock)
    → s.is_open ≡ true
    → s.closex ≡ 0
    → (e : Option Error) × (s' : Sock) × (close c text has_room s ≡ ok (e, s'))
      × (s'.closex ≡ 1)
      × (s'.pending_res ≡ [])
      × (s'.is_open ≡ true)
unfolding close
close_first c text has_room s open_ first =
    let s1 : Sock = record s { closex = (s.closex + 1) % 2 ^ 32 } in
    let e : Option Error = error_on_close c s1 in
    (
      e,
      record s1 {
        pending_res = [];
        delivered =
            close_all has_room (closed_response text e s.close_code) s.pending_res s.delivered;
        close_codes = if s.has_close_handler then s.close_code ∷ s.close_codes else s.close_codes;
      },
      ap (λ b. close_once c text has_room ((s.closex + 1) % 2 ^ 32 == 1) b s1) open_
          ∙ ap (λ n. close_once c text has_room ((n + 1) % 2 ^ 32 == 1) true s1) first
          ∙ (unfold close_once in refl),
      omega arith,
      refl,
      open_,
    )
