-- ===== src/Chat/Locks/Progress.antt =====
-- Goroutines that take their locks in one order are never all stuck.
use gotalk.Common.{
  List, ℕ, ◌∷◌, ◌⊎◌, Bool, [], get_elem?, ◌+◌, ◌≡◌, false, some, true, Bool-cases, ap, clash, inl,
  refl, set, suc, ◌<◌, ◌≤◌, arith, if◌then◌else◌, inr, none-some, sym, ◌∙◌, none, some_inj, zero,
}
use gotalk.Chat.Locks.{
  Action, Goroutine, System, acquire, release, is_blocked, in_the_way, act, acted, step_found,
  step_at,
}
use gotalk.Chat.Locks.Waiting.{is_wanted, holder, in_the_way-IsLast, wanter}
use gotalk.Chat.Locks.Order.{IsOrdered, AllOrdered, IsOrdered-at}

abbrev pub AllDone : System → Type 0
AllDone [] = Unit {0}
AllDone (g ∷ gs) = (g.rest ≡ []) × AllDone gs

-- A reader that takes a lock which somebody may be waiting for: `RLock` does not give it then.
unfoldable pub overtakes : List Action → System → Bool
overtakes (acquire m false ∷ rest) sys = is_wanted m sys
overtakes (acquire m true ∷ rest) sys = false
overtakes (release m ∷ rest) sys = false
overtakes [] sys = false

-- Some goroutine can make its next action, also when no reader overtakes anyone.
abbrev pub Moves : System → Type 0
Moves sys =
    (i : ℕ) × (g : Goroutine) × (u : System) × (get_elem? sys i ≡ some g)
    × (overtakes g.rest sys ≡ false)
    × (step_at i sys ≡ some u)

-- The lock that a goroutine takes next
abbrev next_lock : List Action → ℕ
next_lock [] = 0
next_lock (acquire m alone ∷ rest) = m
next_lock (release m ∷ rest) = 0

abbrev top : System → ℕ
top [] = 0
top (g ∷ gs) = next_lock g.rest + top gs

next_lock-top :
    (sys : System) (i : ℕ) (g : Goroutine) → get_elem? sys i ≡ some g → next_lock g.rest ≤ top sys
next_lock-top [] i g e = absurd (none-some e)
next_lock-top (x ∷ sys) zero g e =
    rw (ap (λ (y : Goroutine). next_lock y.rest) (sym (some_inj e))) (omega arith)
next_lock-top (x ∷ sys) (suc i) g e = let low = next_lock-top sys i g e in omega (arith, low)

step_of :
    (sys : System) (i : ℕ) (g g' : Goroutine) (rest : List Action)
    → get_elem? sys i ≡ some g
    → g.rest ≡ rest
    → overtakes rest sys ≡ false
    → act sys g rest ≡ some g'
    → Moves sys
unfolding step_at step_found acted
step_of sys i g g' rest at e last acts = (
  i,
  g,
  set sys i g',
  at,
  ap (λ r. overtakes r sys) e ∙ last,
  ap (λ o. step_found o i sys) at
      ∙ ap (λ r. acted (act sys g r) i sys) e
      ∙ ap (λ o. acted o i sys) acts,
)

release-Moves :
    (sys : System) (i : ℕ) (g : Goroutine) (m : ℕ) (rest : List Action)
    → get_elem? sys i ≡ some g
    → g.rest ≡ release m ∷ rest
    → Moves sys
unfolding act overtakes
release-Moves sys i g m rest at e = step_of sys i g _ (release m ∷ rest) at e refl refl

free-Moves :
    (sys : System) (i : ℕ) (g : Goroutine) (m : ℕ) (alone : Bool) (rest : List Action)
    → get_elem? sys i ≡ some g
    → g.rest ≡ acquire m alone ∷ rest
    → overtakes (acquire m alone ∷ rest) sys ≡ false
    → is_blocked m alone sys ≡ false
    → Moves sys
unfolding act
free-Moves sys i g m alone rest at e last free =
    step_of sys i g _ (acquire m alone ∷ rest) at e last (
      ap
        (λ (b : Bool).
          if b then none else some (record { held = (m, alone) ∷ g.held; rest = rest }))
        free)

-- The move of a goroutine whose next lock is behind `m`, when there is one
abbrev MovesBehind : System → ℕ → Type 0
MovesBehind sys m =
    (j : ℕ) (g : Goroutine) (k : ℕ) (b : Bool) (r : List Action)
    → get_elem? sys j ≡ some g
    → g.rest ≡ acquire k b ∷ r
    → m < k
    → Moves sys

blocked-Moves :
    (sys : System) (m : ℕ) (alone : Bool)
    → AllOrdered sys
    → MovesBehind sys m
    → is_blocked m alone sys ≡ true
    → Moves sys
blocked-Moves sys m alone h goes blocked =
    let (j, g, at, blocks) = holder m alone sys blocked in
    next_of j g g.rest at refl blocks (IsOrdered-at sys j g h at)
  where
    next_of :
        (j : ℕ) (g : Goroutine) (r : List Action)
        → get_elem? sys j ≡ some g
        → g.rest ≡ r
        → in_the_way m alone g.held ≡ true
        → IsOrdered g.held r
        → Moves sys
    next_of j g [] at e blocks o =
        absurd (clash (sym (ap (in_the_way m alone) o) ∙ blocks) (unfold in_the_way in refl))
    next_of j g (release k ∷ r) at e blocks o = release-Moves sys j g k r at e
    next_of j g (acquire k b ∷ r) at e blocks (last, _) =
        goes j g k b r at e (in_the_way-IsLast m k alone g.held blocks last)

alone-Moves :
    (sys : System) (i : ℕ) (g : Goroutine) (m : ℕ) (rest : List Action)
    → AllOrdered sys
    → MovesBehind sys m
    → get_elem? sys i ≡ some g
    → g.rest ≡ acquire m true ∷ rest
    → Moves sys
unfolding overtakes
alone-Moves sys i g m rest h goes at e = elim (Bool-cases (is_blocked m true sys)) [
  | inl blocked ↦ blocked-Moves sys m true h goes blocked
  | inr free ↦ free-Moves sys i g m true rest at e refl free
]

lock-Moves :
    (sys : System) (i : ℕ) (g : Goroutine) (m : ℕ) (alone : Bool) (rest : List Action)
    → AllOrdered sys
    → MovesBehind sys m
    → get_elem? sys i ≡ some g
    → g.rest ≡ acquire m alone ∷ rest
    → Moves sys
unfolding overtakes
lock-Moves sys i g m true rest h goes at e = alone-Moves sys i g m rest h goes at e
lock-Moves sys i g m false rest h goes at e = elim (Bool-cases (is_wanted m sys)) [
  | inl wanted ↦
      let (j, g', r, at', e') = wanter m sys wanted in alone-Moves sys j g' m r h goes at' e'
  | inr last ↦ elim (Bool-cases (is_blocked m false sys)) [
    | inl blocked ↦ blocked-Moves sys m false h goes blocked
    | inr free ↦ free-Moves sys i g m false rest at e last free
  ]
]

-- A goroutine takes its next lock, or waits for one whose next lock is behind that, and so on.
acquire-Moves :
    (fuel : ℕ) (sys : System) (i : ℕ) (g : Goroutine) (m : ℕ) (alone : Bool) (rest : List Action)
    → AllOrdered sys
    → get_elem? sys i ≡ some g
    → g.rest ≡ acquire m alone ∷ rest
    → top sys < m + fuel
    → Moves sys
acquire-Moves zero sys i g m alone rest h at e big =
    let low = next_lock-top sys i g at in
    let same = ap next_lock e in absurd (omega (arith, low, same, big))
acquire-Moves (suc fuel) sys i g m alone rest h at e big =
    lock-Moves sys i g m alone rest h
      (λ j g' k b r at' e' behind.
        acquire-Moves fuel sys j g' k b r h at' e' (omega (arith, behind, big)))
      at e

unfinished :
    (sys : System)
    → AllDone sys
      ⊎ ((i : ℕ) × (g : Goroutine) × (a : Action) × (rest : List Action) × (get_elem? sys i
            ≡ some g)
          × (g.rest ≡ a ∷ rest))
unfinished [] = inl tt
unfinished (g ∷ gs) = first g.rest refl (unfinished gs)
  where
    first :
        (r : List Action)
        → g.rest ≡ r
        → (AllDone gs
            ⊎ ((i : ℕ) × (g' : Goroutine) × (a : Action) × (rest : List Action) × (get_elem? gs i
                  ≡ some g')
                × (g'.rest ≡ a ∷ rest)))
        → AllDone (g ∷ gs)
          ⊎ ((i : ℕ) × (g' : Goroutine) × (a : Action) × (rest : List Action) × (get_elem?
                  (g ∷ gs)
                  i
                ≡ some g')
              × (g'.rest ≡ a ∷ rest))
    first [] e (inl done) = inl (e, done)
    first [] e (inr (i, g', a, rest, at, e')) = inr (suc i, g', a, rest, at, e')
    first (a ∷ rest) e _ = inr (0, g, a, rest, refl, e)

pub AllOrdered-Moves : (sys : System) → AllOrdered sys → AllDone sys ⊎ Moves sys
AllOrdered-Moves sys h = elim (unfinished sys) [
  | inl done ↦ inl done
  | inr (i, g, a, rest, at, e) ↦ inr (next_action i g a rest at e)
]
  where
    next_action :
        (i : ℕ) (g : Goroutine) (a : Action) (rest : List Action)
        → get_elem? sys i ≡ some g
        → g.rest ≡ a ∷ rest
        → Moves sys
    next_action i g (release m) rest at e = release-Moves sys i g m rest at e
    next_action i g (acquire m alone) rest at e =
        acquire-Moves (suc (top sys)) sys i g m alone rest h at e (omega arith)
