-- ===== src/Sock/Exchange/Orders.antt =====
-- Several requests that are pending at once: their responses may come in any order.
use gotalk.Common.{
  true, false, Bytes, List, Result, ℕ, Bool, ◌>>=◌, ◌∷◌, ◌≡◌, [], false, if◌then◌else◌, length,
  none, ok, ◌++◌, bytes_eq, some, suc, ◌<◌, ◌≤◌, ap, err, ◌+◌, ◌^◌, ◌||◌, Bool-cases, arith, refl,
  ◌∙◌, inl, panic, clash, bytes_eq-eq, bytes_eq_refl, inr, append_assoc,
}
use gotalk.Sock.Exchange.Asking.{IsFinalOrRetry, response_of, turn-delivers}
use gotalk.Sock.Exchange.{ResponseParts, response_wire}
use gotalk.Sock.Loop.{
  Outside, read_loop, turn, again, exit, return_now, Next, wind_up, started, and_started, Ended,
  deadline_error,
}
use gotalk.Sock.{Sock, Response}
use gotalk.Limits.{LimitsImpl}
use gotalk.Handlers.{lookup}
use gotalk.Protocol.Reader.{Reader}
use gotalk.Protocol.Reader.Exact.{IsQuiet, stream}

-- A response as it comes, with the channel of its request
pub record Coming : Type 0 where
  pub id : Bytes
  pub channel : ℕ
  pub parts : ResponseParts

-- The bytes of the responses, in the order in which they come
unfoldable pub wires : List Coming → Bytes
wires [] = []
wires (a ∷ as_) = response_wire a.id a.parts ++ wires as_

unfoldable pub is_coming : Bytes → List Coming → Bool
is_coming j [] = false
is_coming j (a ∷ as_) = bytes_eq a.id j || is_coming j as_

-- Each is a response with a 4-byte id that is pending with this channel, and no id comes twice.
abbrev pub ArePending : List Coming → Sock → Type 0
ArePending [] s = Unit {0}
ArePending (a ∷ as_) s =
    (length a.id ≡ 4)
    × IsFinalOrRetry a.parts
    × (length a.parts.2 < 2 ^ 32)
    × (lookup a.id s.pending_res ≡ some a.channel)
    × (is_coming a.id as_ ≡ false)
    × ArePending as_ s

-- What is sent to the channels, the latest first
unfoldable pub deliveries : List Coming → List (ℕ × Response) → List (ℕ × Response)
deliveries [] log = log
deliveries (a ∷ as_) log = deliveries as_ ((a.channel, response_of a.parts) ∷ log)

ArePending-after :
    (id : Bytes) (as_ : List Coming) (s s' : Sock)
    → ((j : Bytes)
        → lookup j s'.pending_res ≡ (if bytes_eq id j then none else lookup j s.pending_res))
    → is_coming id as_ ≡ false
    → ArePending as_ s
    → ArePending as_ s'
unfolding is_coming
ArePending-after id [] s s' left apart h = tt
ArePending-after id (a ∷ as_) s s' left apart (hid, fits, small, found, once, h) = (
  hid,
  fits,
  small,
  left a.id
      ∙ ap (λ b. if b then none else lookup a.id s.pending_res) (other (bytes_eq a.id id) apart)
      ∙ found,
  once,
  ArePending-after id as_ s s' left (rest (bytes_eq a.id id) apart) h,
)
  where
    other : (b : Bool) → (bytes_eq a.id id || is_coming id as_) ≡ false → bytes_eq id a.id ≡ false
    other b e = elim (Bool-cases (bytes_eq id a.id)) [
      | inl same ↦ absurd (
          clash
            (ap (λ b. b || is_coming id as_)
              (ap (λ v. bytes_eq a.id v) (bytes_eq-eq id a.id same) ∙ bytes_eq_refl a.id))
            e)
      | inr differs ↦ differs
    ]

    rest : (b : Bool) → (b || is_coming id as_) ≡ false → is_coming id as_ ≡ false
    rest true e = absurd (clash refl e)
    rest false e = e

no_task : (m : Result Ended) → (m >>= (λ ended. ok (and_started none ended))) ≡ m
unfolding and_started
no_task (ok none) = refl
no_task (ok (some x)) = refl
no_task (err e) = refl
no_task panic = refl

module _ (o : Outside) (lim : LimitsImpl)
    (alone : (n : ℕ) (x : LimitsImpl × Sock) → o.between n x ≡ x)
    (no_deadline : (n : ℕ) → deadline_error o n lim ≡ none) where
  one_round :
      (fuel n : ℕ) (r r' : Reader) (b b' : Bytes) (s s' : Sock)
      → turn o n r b lim s ≡ ok (again none r' b' lim s')
      → read_loop o (suc fuel) n r b lim s ≡ read_loop o fuel (suc n) r' b' lim s'
  unfolding read_loop
  one_round fuel n r r' b b' s s' e =
      ap
        (λ (m : Result Next). m >>= (λ next. elim next [
          | again task r' b' lim' s' ↦
              (read_loop o fuel (suc n) r' b' lim' s' >>= λ ended. ok (and_started task ended))
          | exit task e lim' s' ↦
              (wind_up o e lim' s' >>= λ x. ok (some (started task [], x.0, x.1, x.2)))
          | return_now e lim' s' ↦ ok (some ([], e, lim', s'))
        ]))
        (ap (λ (x : LimitsImpl × Sock). turn o n r b x.0 x.1) (alone n (lim, s)) ∙ e)
      ∙ no_task (read_loop o fuel (suc n) r' b' lim s')

  -- In a `Read` loop beside which no other goroutine changes the socket or its limits, with
  -- deadlines that can be set and a buffer of at least 21 bytes, from a stream with no read failure
  -- that starts with any number of responses, single, error or retry results, of fewer than `2 ^
  -- 32` bytes each, whose 4-byte ids are pending and all different, in whatever order they come:
  -- one round for each reads exactly these, sends each to its own request's channel, in the order
  -- in which they come, and nothing else to any channel of a request; then their ids are not
  -- pending, and every other id is pending as before.
  pub read_loop-deliveries :
      (as_ : List Coming) (fuel n : ℕ) (r : Reader) (b rest : Bytes) (s : Sock)
      → ArePending as_ s
      → IsQuiet r
      → stream r ≡ wires as_ ++ rest
      → 21 ≤ length b
      → (n' : ℕ) × (r' : Reader) × (b' : Bytes) × (s' : Sock) × (read_loop o
            (length as_ + fuel)
            n
            r
            b
            lim
            s
          ≡ read_loop o fuel n' r' b' lim s')
        × (stream r' ≡ rest)
        × (s'.delivered ≡ deliveries as_ s.delivered)
        × ((j : Bytes)
            → lookup j s'.pending_res ≡ (if is_coming j as_ then none else lookup j s.pending_res))
  unfolding wires deliveries is_coming
  read_loop-deliveries [] fuel n r b rest s h q e room =
      (n, r, b, s, ap (λ k. read_loop o k n r b lim s) (omega arith), e, refl, λ j. refl)
  read_loop-deliveries (a ∷ as_) fuel n r b rest s (hid, fits, small, found, once, h) q e room =
      let (r1, b1, s1, done, back, delivered, left, q1, wide) =
        turn-delivers o n a.id a.parts lim s hid fits r b (wires as_ ++ rest) a.channel small
          (no_deadline n) found q (e ∙ append_assoc (response_wire a.id a.parts) (wires as_) rest)
          room in
      let (n', r', b', s', goes, back', delivered', left') =
        read_loop-deliveries as_ fuel (suc n) r1 b1 rest s1
          (ArePending-after a.id as_ s s1 left once h) q1 back (omega (arith, wide, room)) in
      (
        n',
        r',
        b',
        s',
        ap (λ k. read_loop o k n r b lim s) (omega arith)
            ∙ one_round (length as_ + fuel) n r r1 b b1 s s1 done
            ∙ goes,
        back',
        delivered' ∙ ap (deliveries as_) delivered,
        λ j.
            left' j
            ∙ ap (λ x. if is_coming j as_ then none else x) (left j)
            ∙ swap j (is_coming j as_) (bytes_eq a.id j),
      )
    where
      swap :
          (j : Bytes) (b c : Bool)
          → (if b then none else (if c then none else lookup j s.pending_res))
            ≡ (if c || b then none else lookup j s.pending_res)
      swap j true true = refl
      swap j true false = refl
      swap j false true = refl
      swap j false false = refl
