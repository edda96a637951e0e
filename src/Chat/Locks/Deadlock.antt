-- ===== src/Chat/Locks/Deadlock.antt =====
-- A socket that connects and a room that is created take two locks in opposite orders.
use gotalk.Common.{
  none, ◌≡◌, some, true, ℕ, ◌∷◌, Bool, [], ap, List, suc, sym, Option, false, ◌∙◌, set, get_elem?,
  refl, zero, none-some, some_inj,
}
use gotalk.Chat.Locks.{
  Action, Reach, next, here, Goroutine, System, is_blocked, step_at, in_the_way, rooms_mu, socks_mu,
  step_found, act, acted, acquire, all_begin, begins, release, on_connect_actions,
  create_room_actions,
}

-- `onConnect` behind its first lock, and `createRoom` behind its first
abbrev pub connecting : Goroutine
connecting = record {
  held = (socks_mu, true) ∷ [];
  rest = acquire rooms_mu false ∷ release rooms_mu ∷ release socks_mu ∷ [];
}

abbrev pub creating : Goroutine
creating = record {
  held = (rooms_mu, true) ∷ [];
  rest = acquire socks_mu false ∷ release socks_mu ∷ release rooms_mu ∷ [];
}

-- Both wait for each other.
abbrev pub Waits : System → Type 0
Waits sys = (others : System) × (sys ≡ connecting ∷ creating ∷ others)

not_blocked :
    (m : ℕ) (alone : Bool) (os : List (List Action)) → is_blocked m alone (all_begin os) ≡ false
unfolding is_blocked in_the_way
not_blocked m alone [] = refl
not_blocked m alone (a ∷ os) = not_blocked m alone os

step-Waits :
    (i : ℕ) (others u : System) → step_at i (connecting ∷ creating ∷ others) ≡ some u → Waits u
unfolding step_at step_found act acted is_blocked in_the_way
step-Waits zero others u e = absurd (none-some e)
step-Waits (suc zero) others u e = absurd (none-some e)
step-Waits (suc (suc j)) others u e = found (get_elem? others j) e
  where
    found :
        (o : Option Goroutine)
        → step_found o (suc (suc j)) (connecting ∷ creating ∷ others) ≡ some u
        → Waits u
    found none e = absurd (none-some e)
    found (some g) e = did (act (connecting ∷ creating ∷ others) g g.rest) e
      where
        did :
            (o : Option Goroutine)
            → acted o (suc (suc j)) (connecting ∷ creating ∷ others) ≡ some u
            → Waits u
        did none e = absurd (none-some e)
        did (some g') e = (set others j g', some_inj (sym e))

Reach-Waits : (sys u : System) → Waits sys → Reach sys u → Waits u
Reach-Waits sys u w here = w
Reach-Waits sys u w (next {t = t} r i e) =
    let (others, same) = Reach-Waits sys t w r in
    step-Waits i others u (ap (step_at i) (sym same) ∙ e)

connect_begins :
    (os : List (List Action))
    → step_at 0 (begins on_connect_actions ∷ begins (create_room_actions true) ∷ all_begin os)
      ≡ some (connecting ∷ begins (create_room_actions true) ∷ all_begin os)
unfolding step_at step_found act acted is_blocked in_the_way
connect_begins os = rw (not_blocked socks_mu true os) refl

create_begins :
    (os : List (List Action))
    → step_at 1 (connecting ∷ begins (create_room_actions true) ∷ all_begin os)
      ≡ some (connecting ∷ creating ∷ all_begin os)
unfolding step_at step_found act acted is_blocked in_the_way
create_begins os = rw (not_blocked rooms_mu true os) refl

-- Where an `onConnect` and a `createRoom` of a new room have not begun, beside any other goroutines
-- that have not, a state can be reached in which the first holds `socksmu` and the second `roomsmu`
-- and each wants the other's lock next, and in every state that is reached from there they still
-- do.
pub on_connect-create_room :
    (os : List (List Action))
    → (sys : System) × (Reach
        (begins on_connect_actions ∷ begins (create_room_actions true) ∷ all_begin os)
        sys)
      × ((u : System) → Reach sys u → Waits u)
on_connect-create_room os = (
  connecting ∷ creating ∷ all_begin os,
  next (next here 0 (connect_begins os)) 1 (create_begins os),
  λ u r. Reach-Waits _ u (all_begin os, refl) r,
)
