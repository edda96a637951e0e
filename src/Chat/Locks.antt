-- ===== src/Chat/Locks.antt =====
-- The locks of the chat server: `roomsmu`, `socksmu` and each room's own, taken by many goroutines.
-- A socket's own locks, which a call on it gives back before it ends, are left out, and so is what the
-- network makes a call wait for.
pub mod Deadlock
pub mod Order
pub mod Waiting
pub mod Progress
pub mod Served
use gotalk.Common.{
  Bool, List, Option, ℕ, [], false, get_elem?, none, some, true, ◌++◌, ◌+◌, ◌∷◌, ◌≡◌, if◌then◌else◌,
  set, ◌==◌, ◌||◌, ◌&&◌,
}

-- A lock is known by a number.
abbrev pub rooms_mu : ℕ
rooms_mu = 0

abbrev pub socks_mu : ℕ
socks_mu = 1

abbrev pub room_mu : ℕ → ℕ
room_mu k = 2 + k

-- `Lock` for itself alone (`true`) or `RLock` together with other readers, and `Unlock` or `RUnlock`.
pub data Action : Type 0 where
  acquire : ℕ → Bool → Action
  release : ℕ → Action

-- What a goroutine holds, and what it will do.
pub record Goroutine : Type 0 where
  pub held : List (ℕ × Bool)
  pub rest : List Action

abbrev pub System : Type 0
System = List Goroutine

-- What each function does to the locks, its deferred calls at the end.
abbrev pub on_connect_actions : List Action
on_connect_actions =
    acquire socks_mu true ∷ acquire rooms_mu false ∷ release rooms_mu ∷ release socks_mu ∷ []

abbrev pub on_close_actions : List Action
on_close_actions = acquire socks_mu true ∷ release socks_mu ∷ []

abbrev pub broadcast_actions : List Action
broadcast_actions = acquire socks_mu false ∷ release socks_mu ∷ []

abbrev pub find_room_actions : List Action
find_room_actions = acquire rooms_mu false ∷ release rooms_mu ∷ []

-- `is_new` says that there was no room of that name.
abbrev pub create_room_actions : Bool → List Action
create_room_actions is_new =
    acquire rooms_mu true ∷ ((if is_new then broadcast_actions else []) ++ (release rooms_mu ∷ []))

abbrev pub append_message_actions : ℕ → List Action
append_message_actions k = acquire (room_mu k) true ∷ release (room_mu k) ∷ []

abbrev pub send_message_actions : ℕ → List Action
send_message_actions k = find_room_actions ++ (append_message_actions k ++ broadcast_actions)

-- The setting up of a room with a message, and the closing of the sockets when the server is shut down
abbrev pub sample_room_actions : Bool → ℕ → List Action
sample_room_actions is_new k = create_room_actions is_new ++ append_message_actions k

abbrev pub on_shutdown_actions : List Action
on_shutdown_actions = acquire socks_mu false ∷ release socks_mu ∷ []

-- A lock that is held is in the way of whom wants it for itself, and one that is held by someone for
-- itself is in everyone's way.
unfoldable pub in_the_way : ℕ → Bool → List (ℕ × Bool) → Bool
in_the_way m alone [] = false
in_the_way m alone ((k, held_alone) ∷ held) =
    (k == m && (alone || held_alone)) || in_the_way m alone held

unfoldable pub is_blocked : ℕ → Bool → System → Bool
is_blocked m alone [] = false
is_blocked m alone (g ∷ gs) = in_the_way m alone g.held || is_blocked m alone gs

unfoldable pub remove_held : ℕ → List (ℕ × Bool) → List (ℕ × Bool)
remove_held m [] = []
remove_held m ((k, alone) ∷ held) = if k == m then held else (k, alone) ∷ remove_held m held

-- A goroutine's next action among the others, itself included: a lock is not given twice to one
-- goroutine either. `RLock` is given whenever nobody has the lock for itself, so that every order of
-- events is there; that it is not always given to whom comes behind a waiting `Lock` is a matter of
-- what must move, in Chat/Locks/Progress.antt.
unfoldable pub act : System → Goroutine → List Action → Option Goroutine
act sys g [] = none
act sys g (acquire m alone ∷ rest) =
    if is_blocked m alone sys
    then none
    else some (record { held = (m, alone) ∷ g.held; rest = rest })
act sys g (release m ∷ rest) = some (record { held = remove_held m g.held; rest = rest })

unfoldable pub acted : Option Goroutine → ℕ → System → Option System
acted none i sys = none
acted (some g) i sys = some (set sys i g)

-- The goroutine of this number makes its next action.
unfoldable pub step_found : Option Goroutine → ℕ → System → Option System
step_found none i sys = none
step_found (some g) i sys = acted (act sys g g.rest) i sys

unfoldable pub step_at : ℕ → System → Option System
step_at i sys = step_found (get_elem? sys i) i sys

pub data Reach (sys : System) : System → Type 0 where
  here : Reach sys sys
  next : {t u : System} → Reach sys t → (i : ℕ) → step_at i t ≡ some u → Reach sys u

abbrev pub begins : List Action → Goroutine
begins actions = record { held = []; rest = actions }

-- Goroutines that have not begun
abbrev pub all_begin : List (List Action) → System
all_begin [] = []
all_begin (a ∷ as_) = begins a ∷ all_begin as_
