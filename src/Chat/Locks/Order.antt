-- ===== src/Chat/Locks/Order.antt =====
-- Everything but `onConnect` takes its locks in one order.
use mathlib.Core.Path.{subst}
use gotalk.Common.{
  List, ℕ, ◌∷◌, Bool, [], get_elem?, set, ◌≡◌, some, suc, ◌<◌, zero, none-some, some_inj,
}
use gotalk.Chat.Locks.{Action, Goroutine, System, acquire, release, remove_held}

-- A lock that is behind all that are held
abbrev pub IsLast : ℕ → List (ℕ × Bool) → Type 0
IsLast m [] = Unit {0}
IsLast m ((k, alone) ∷ held) = (k < m) × IsLast m held

-- With these locks held, each that is taken is behind all that are held, and none is held at the end.
abbrev pub IsOrdered : List (ℕ × Bool) → List Action → Type 0
IsOrdered held [] = held ≡ []
IsOrdered held (acquire m alone ∷ rest) = IsLast m held × IsOrdered ((m, alone) ∷ held) rest
IsOrdered held (release m ∷ rest) = IsOrdered (remove_held m held) rest

abbrev pub AllOrdered : System → Type 0
AllOrdered [] = Unit {0}
AllOrdered (g ∷ gs) = IsOrdered g.held g.rest × AllOrdered gs

pub IsOrdered-at :
    (sys : System) (i : ℕ) (g : Goroutine)
    → AllOrdered sys
    → get_elem? sys i ≡ some g
    → IsOrdered g.held g.rest
IsOrdered-at [] i g h e = absurd (none-some e)
IsOrdered-at (x ∷ sys) zero g (o, h) e =
    subst (λ (y : Goroutine). IsOrdered y.held y.rest) (some_inj e) o
IsOrdered-at (x ∷ sys) (suc i) g (o, h) e = IsOrdered-at sys i g h e

pub set-AllOrdered :
    (sys : System) (i : ℕ) (g : Goroutine)
    → AllOrdered sys
    → IsOrdered g.held g.rest
    → AllOrdered (set sys i g)
set-AllOrdered [] i g h o = tt
set-AllOrdered (x ∷ sys) zero g (_, h) o = (o, h)
set-AllOrdered (x ∷ sys) (suc i) g (o', h) o = (o', set-AllOrdered sys i g h o)
