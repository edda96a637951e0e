-- ===== src/Chat/Locks/Waiting.antt =====
-- Whom a goroutine waits for: who holds the lock, and who wants it for itself.
use gotalk.Common.{
  ℕ, Bool, List, ◌≡◌, false, true, ◌==◌, get_elem?, ◌<◌, ◌∷◌, [], clash, some, ◌||◌, Bool-cases, ap,
  ◌&&◌, arith, eqb-true_eq, inl, inr, refl, sym, ◌∙◌, suc,
}
use gotalk.Chat.Locks.{Action, Goroutine, System, acquire, release, is_blocked, in_the_way}
use gotalk.Chat.Locks.Order.{IsLast}

unfoldable pub wants_alone : ℕ → List Action → Bool
wants_alone m (acquire k true ∷ rest) = k == m
wants_alone m (acquire k false ∷ rest) = false
wants_alone m (release k ∷ rest) = false
wants_alone m [] = false

-- Someone's next action is to take this lock for itself.
unfoldable pub is_wanted : ℕ → System → Bool
is_wanted m [] = false
is_wanted m (g ∷ gs) = wants_alone m g.rest || is_wanted m gs

-- Who is in the way
pub holder :
    (m : ℕ) (alone : Bool) (sys : System)
    → is_blocked m alone sys ≡ true
    → (i : ℕ) × (g : Goroutine) × (get_elem? sys i ≡ some g) × (in_the_way m alone g.held ≡ true)
unfolding is_blocked
holder m alone [] e = absurd (clash e refl)
holder m alone (g ∷ gs) e = elim (Bool-cases (in_the_way m alone g.held)) [
  | inl blocks ↦ (0, g, refl, blocks)
  | inr free ↦
      let (i, g', at, blocks) =
        holder m alone gs (sym (ap (λ b. b || is_blocked m alone gs) free) ∙ e) in
      (suc i, g', at, blocks)
]

pub in_the_way-IsLast :
    (m k : ℕ) (alone : Bool) (held : List (ℕ × Bool))
    → in_the_way m alone held ≡ true
    → IsLast k held
    → m < k
unfolding in_the_way
in_the_way-IsLast m k alone [] e h = absurd (clash e refl)
in_the_way-IsLast m k alone ((j, b) ∷ held) e (lt, h) =
    same (j == m) refl (λ e'. in_the_way-IsLast m k alone held e' h) e
  where
    same :
        (c : Bool)
        → (j == m) ≡ c
        → (in_the_way m alone held ≡ true → m < k)
        → ((c && (alone || b)) || in_the_way m alone held) ≡ true
        → m < k
    same true e1 _ _ = ground (arith, eqb-true_eq j m e1, lt)
    same false _ later e2 = later e2

-- Who wants a lock for itself
pub wanter :
    (m : ℕ) (sys : System)
    → is_wanted m sys ≡ true
    → (i : ℕ) × (g : Goroutine) × (rest : List Action) × (get_elem? sys i ≡ some g)
      × (g.rest ≡ acquire m true ∷ rest)
unfolding is_wanted
wanter m [] e = absurd (clash e refl)
wanter m (g ∷ gs) e = elim (Bool-cases (wants_alone m g.rest)) [
  | inl wants ↦ let (rest, same) = its g.rest wants in (0, g, rest, refl, same)
  | inr other ↦
      let (i, g', rest, at, same) = wanter m gs (sym (ap (λ b. b || is_wanted m gs) other) ∙ e) in
      (suc i, g', rest, at, same)
]
  where
    its :
        (r : List Action)
        → wants_alone m r ≡ true
        → (rest : List Action) × (r ≡ acquire m true ∷ rest)
    its [] w = absurd (clash w (unfold wants_alone in refl))
    its (release k ∷ r) w = absurd (clash w (unfold wants_alone in refl))
    its (acquire k false ∷ r) w = absurd (clash w (unfold wants_alone in refl))
    its (acquire k true ∷ r) w =
        (r, ap (λ x. acquire x true ∷ r) (eqb-true_eq k m (unfold wants_alone in w)))
