-- ===== src/Chat/Locks/Served.antt =====
-- The functions of the chat server but `onConnect`: whatever they have done, they can all go on to the end.
use mathlib.Core.Path.{subst}
use gotalk.Common.{
  List, ℕ, Bool, [], get_elem?, ◌∷◌, ◌≡◌, ◌⊎◌, arith, length, some, ◌++◌, none-some, refl, set, suc,
  ◌+◌, Option-cases, ap, if◌then◌else◌, some_inj, true, ◌∙◌, false, inl, none, sym, zero, eqb_refl,
  inr,
}
use gotalk.Chat.Locks.{
  sample_room_actions, on_shutdown_actions, Action, Goroutine, System, Reach, here, next, acquire,
  release, is_blocked, act, acted, step_found, step_at, remove_held, on_close_actions,
  broadcast_actions, find_room_actions, create_room_actions, append_message_actions,
  send_message_actions, room_mu, all_begin,
}
use gotalk.Chat.Locks.Order.{IsOrdered, AllOrdered, IsOrdered-at, set-AllOrdered}
use gotalk.Chat.Locks.Progress.{AllDone, Moves, AllOrdered-Moves}

act-IsOrdered :
    (sys : System) (g g' : Goroutine) (rest : List Action)
    → IsOrdered g.held rest
    → act sys g rest ≡ some g'
    → IsOrdered g'.held g'.rest
unfolding act
act-IsOrdered sys g g' [] o e = absurd (none-some e)
act-IsOrdered sys g g' (release m ∷ rest) o e =
    subst (λ (y : Goroutine). IsOrdered y.held y.rest) (some_inj e) o
act-IsOrdered sys g g' (acquire m alone ∷ rest) (_, o) e = free (is_blocked m alone sys) e
  where
    free :
        (b : Bool)
        → (if b then none else some (record { held = (m, alone) ∷ g.held; rest = rest })) ≡ some g'
        → IsOrdered g'.held g'.rest
    free true e = absurd (none-some e)
    free false e = subst (λ (y : Goroutine). IsOrdered y.held y.rest) (some_inj e) o

-- What a step is
step_acts :
    (sys u : System) (i : ℕ)
    → step_at i sys ≡ some u
    → (g : Goroutine) × (g' : Goroutine) × (get_elem? sys i ≡ some g)
      × (act sys g g.rest ≡ some g')
      × (set sys i g' ≡ u)
unfolding step_at step_found acted
step_acts sys u i e = elim (Option-cases (get_elem? sys i)) [
  | inl gone ↦ absurd (none-some (sym (ap (λ o. step_found o i sys) gone) ∙ e))
  | inr (g, at) ↦ elim (Option-cases (act sys g g.rest)) [
    | inl stuck ↦
        absurd
          (none-some (sym (ap (λ o. step_found o i sys) at ∙ ap (λ o. acted o i sys) stuck) ∙ e))
    | inr (g', acts) ↦ (
      g,
      g',
      at,
      acts,
      some_inj (sym (ap (λ o. step_found o i sys) at ∙ ap (λ o. acted o i sys) acts) ∙ e),
    )
  ]
]

step-AllOrdered : (sys u : System) (i : ℕ) → AllOrdered sys → step_at i sys ≡ some u → AllOrdered u
step-AllOrdered sys u i h e =
    let (g, g', at, acts, after) = step_acts sys u i e in
    subst AllOrdered after
      (set-AllOrdered sys i g' h (act-IsOrdered sys g g' g.rest (IsOrdered-at sys i g h at) acts))

-- What may run: every function but `onConnect`.
pub data IsServed : List Action → Type 0 where
  closes : IsServed on_close_actions
  broadcasts : IsServed broadcast_actions
  finds : IsServed find_room_actions
  creates : (is_new : Bool) → IsServed (create_room_actions is_new)
  appends : (k : ℕ) → IsServed (append_message_actions k)
  sends : (k : ℕ) → IsServed (send_message_actions k)
  samples : (is_new : Bool) (k : ℕ) → IsServed (sample_room_actions is_new k)
  shuts_down : IsServed on_shutdown_actions

abbrev pub AllServed : List (List Action) → Type 0
AllServed [] = Unit {0}
AllServed (a ∷ as_) = IsServed a × AllServed as_

append-IsOrdered :
    (k : ℕ) (rest : List Action)
    → IsOrdered [] rest
    → IsOrdered [] (append_message_actions k ++ rest)
unfolding remove_held
append-IsOrdered k rest h = (
  tt,
  subst (λ (b : Bool). IsOrdered (if b then [] else (room_mu k, true) ∷ []) rest)
      (sym (eqb_refl (room_mu k))) h,
)

IsServed-IsOrdered : (actions : List Action) → IsServed actions → IsOrdered [] actions
unfolding remove_held
IsServed-IsOrdered _ closes = (tt, refl)
IsServed-IsOrdered _ broadcasts = (tt, refl)
IsServed-IsOrdered _ finds = (tt, refl)
IsServed-IsOrdered _ (creates true) = (tt, ((omega arith, tt), refl))
IsServed-IsOrdered _ (creates false) = (tt, refl)
IsServed-IsOrdered _ (appends k) = append-IsOrdered k [] refl
IsServed-IsOrdered _ (sends k) = (tt, append-IsOrdered k broadcast_actions (tt, refl))
IsServed-IsOrdered _ (samples true k) = (tt, ((omega arith, tt), append-IsOrdered k [] refl))
IsServed-IsOrdered _ (samples false k) = (tt, append-IsOrdered k [] refl)
IsServed-IsOrdered _ shuts_down = (tt, refl)

begins-AllOrdered : (os : List (List Action)) → AllServed os → AllOrdered (all_begin os)
begins-AllOrdered [] h = tt
begins-AllOrdered (a ∷ os) (served, h) = (IsServed-IsOrdered a served, begins-AllOrdered os h)

Reach-AllOrdered : (sys u : System) → AllOrdered sys → Reach sys u → AllOrdered u
Reach-AllOrdered sys u h here = h
Reach-AllOrdered sys u h (next {t = t} r i e) = step-AllOrdered t u i (Reach-AllOrdered sys t h r) e

-- The actions that are still to be made
abbrev pub left : System → ℕ
left [] = 0
left (g ∷ gs) = length g.rest + left gs

left-set :
    (sys : System) (i : ℕ) (g g' : Goroutine)
    → get_elem? sys i ≡ some g
    → length g.rest ≡ suc (length g'.rest)
    → left sys ≡ suc (left (set sys i g'))
left-set [] i g g' at fewer = absurd (none-some at)
left-set (x ∷ sys) zero g g' at fewer =
    let same = ap (λ (y : Goroutine). length y.rest) (some_inj at) in omega (arith, fewer, same)
left-set (x ∷ sys) (suc i) g g' at fewer =
    let ih = left-set sys i g g' at fewer in omega (arith, ih)

length-act :
    (sys : System) (g g' : Goroutine) (rest : List Action)
    → act sys g rest ≡ some g'
    → length rest ≡ suc (length g'.rest)
unfolding act
length-act sys g g' [] e = absurd (none-some e)
length-act sys g g' (release m ∷ rest) e = ap (λ (y : Goroutine). suc (length y.rest)) (some_inj e)
length-act sys g g' (acquire m alone ∷ rest) e = free (is_blocked m alone sys) e
  where
    free :
        (b : Bool)
        → (if b then none else some (record { held = (m, alone) ∷ g.held; rest = rest })) ≡ some g'
        → suc (length rest) ≡ suc (length g'.rest)
    free true e = absurd (none-some e)
    free false e = ap (λ (y : Goroutine). suc (length y.rest)) (some_inj e)

-- How many steps were made
abbrev pub steps : {sys u : System} → Reach sys u → ℕ
steps here = 0
steps (next r i e) = suc (steps r)

left-steps : (sys u : System) (r : Reach sys u) → steps r + left u ≡ left sys
left-steps sys u here = omega arith
left-steps sys u (next {t = t} r i e) =
    let (g, g', at, acts, after) = step_acts t u i e in
    let fewer = left-set t i g g' at (length-act t g g' g.rest acts) in
    let same = ap left after in
    let before = left-steps sys t r in omega (arith, fewer, same, before)

-- Where the functions of the chat server other than `onConnect` run on any number of goroutines, in
-- every state that they reach, in whatever order they take and give back the locks, they are all
-- done or one of them can make its next action, and that without an `RLock` while another
-- goroutine's next action is a `Lock` of the same; and the actions that they have made and those
-- that they have still to make are together as many as at the start.
pub Reach-Moves :
    (os : List (List Action)) (u : System)
    → AllServed os
    → (r : Reach (all_begin os) u)
    → (AllDone u ⊎ Moves u) × (steps r + left u ≡ left (all_begin os))
Reach-Moves os u served r = (
  AllOrdered-Moves u (Reach-AllOrdered (all_begin os) u (begins-AllOrdered os served) r),
  left-steps (all_begin os) u r,
)
