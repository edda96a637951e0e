-- ===== src/Server/Backoff.antt =====
-- How long the accept loop sleeps, and what it serves.
use gotalk.Common.{
  ℕ, zero, suc, ◌*◌, ◌^◌, ◌<◌, ◌≡◌, refl, ap, ◌∙◌, arith, List, [], ◌∷◌, min, Option, none, some,
  Error,
}
use gotalk.Server.{
  Accepted, connection, temporary, final, Action, sleep, serve, next_delay, accept, millisecond,
}

-- The delay behind `k` temporary errors.
unfoldable pub delay : ℕ → ℕ
delay zero = 0
delay (suc k) = min (5 * 2 ^ k) 1000 * millisecond

doubled :
    (p : ℕ)
    → 0 < p
    → next_delay (min (5 * p) 1000 * millisecond) ≡ min (5 * (2 * p)) 1000 * millisecond
unfolding next_delay
doubled p h = ground arith

pow_pos : (k : ℕ) → 0 < 2 ^ k
pow_pos zero = omega arith
pow_pos (suc k) = omega (arith, pow_pos k)

next_delay-delay : (k : ℕ) → next_delay (delay k) ≡ delay (suc k)
unfolding next_delay delay
next_delay-delay zero = refl
next_delay-delay (suc k) =
    doubled (2 ^ k) (pow_pos k) ∙ ap (λ p. min (5 * p) 1000 * millisecond) (omega arith)

-- The actions for the results before the first final error, `k` temporary errors being over.
unfoldable pub plan : ℕ → List Accepted → List Action
plan k [] = []
plan k (connection c ∷ rs) = serve c ∷ plan k rs
plan k (temporary e ∷ rs) = sleep (delay (suc k)) ∷ plan (suc k) rs
plan k (final e ∷ rs) = []

unfoldable pub first_final : List Accepted → Option Error
first_final [] = none
first_final (connection c ∷ rs) = first_final rs
first_final (temporary e ∷ rs) = first_final rs
first_final (final e ∷ rs) = some e

accept-after : (k : ℕ) (rs : List Accepted) → accept (delay k) rs ≡ (plan k rs, first_final rs)
unfolding accept plan first_final
accept-after k [] = refl
accept-after k (connection c ∷ rs) = ap (λ r. (serve c ∷ r.0, r.1)) (accept-after k rs)
accept-after k (temporary e ∷ rs) =
    ap (λ d. (sleep d ∷ (accept d rs).0, (accept d rs).1)) (next_delay-delay k)
    ∙ ap (λ r. (sleep (delay (suc k)) ∷ r.0, r.1)) (accept-after (suc k) rs)
accept-after k (final e ∷ rs) = refl

-- `Accept` serves the connections in the order in which they come, up to the first error that is
-- not temporary, which it returns, and sleeps at the temporary error number `k` of all before for
-- the lesser of `5 * 2 ^ (k - 1)` milliseconds and one second, whatever is accepted in between.
pub accept-plan : (rs : List Accepted) → accept 0 rs ≡ (plan 0 rs, first_final rs)
unfolding delay
accept-plan rs = accept-after 0 rs
