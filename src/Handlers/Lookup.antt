-- ===== src/Handlers/Lookup.antt =====
-- What the lookups find.
use gotalk.Common.{
  ℕ, ◌<◌, ◌≡◌, ◌≢◌, inl, inr, refl, sym, ap, ◌∙◌, arith, true, false, List, [], ◌∷◌, Bytes, length,
  bytes_eq, bytes_eq-eq, ◌==◌, if◌then◌else◌, Option, none, some, Bool-cases,
}
use gotalk.Handlers.{FuncId, Registry, Handlers, Store, lookup, insert, or_outer, find}

bytes_eq-trans_false :
    (i k j : Bytes) → bytes_eq i k ≡ false → bytes_eq k j ≡ true → bytes_eq i j ≡ false
bytes_eq-trans_false i k j h q = rw (← bytes_eq-eq k j q) h

-- A name that was set is found with its handler, and any other as before.
pub lookup-insert :
    (k j : Bytes) (fn : Option FuncId) (m : List (Bytes × Option FuncId))
    → lookup j (insert k fn m) ≡ (if bytes_eq k j then fn else lookup j m)
unfolding lookup insert
lookup-insert k j fn [] = refl
lookup-insert k j fn ((i, w) ∷ m) = elim (Bool-cases (bytes_eq i k)) [
  | inl same ↦ rw (same, bytes_eq-eq i k same) (ground arith)
  | inr other ↦ ground (arith, lookup-insert k j fn m, bytes_eq-trans_false i k j other)
]

unfoldable pub or_else : Option FuncId → Option FuncId → Option FuncId
or_else (some f) rest = some f
or_else none rest = rest

pub or_outer-some :
    (e : Option FuncId) (o : ℕ) (up : ℕ → Option FuncId) (fb : Option FuncId)
    → or_outer e (some o) up fb ≡ or_else e (up o)
unfolding or_outer or_else
or_outer-some none o up fb = refl
or_outer-some (some f) o up fb = refl

pub or_outer-none :
    (e : Option FuncId) (up : ℕ → Option FuncId) (fb : Option FuncId)
    → or_outer e none up fb ≡ or_else e fb
unfolding or_outer or_else
or_outer-none none up fb = refl
or_outer-none (some f) up fb = refl

-- The objects that a lookup passes, from the one asked outward.
outer_chain : (ℕ → List Handlers) → Option ℕ → List Handlers
outer_chain up none = []
outer_chain up (some o) = up o

pub chain : Store → ℕ → List Handlers
chain [] a = []
chain (h ∷ st) a = if a == length st then h ∷ outer_chain (λ o. chain st o) h.outer else chain st a

-- The first entry for the name along the chain; if there is none, the fallback of the last object.
pub resolve : (Handlers → Registry) → Bytes → List Handlers → Option FuncId
resolve reg op [] = none
resolve reg op (h ∷ []) = or_else (lookup op (reg h).entries) (reg h).fallback
resolve reg op (h ∷ k ∷ hs) = or_else (lookup op (reg h).entries) (resolve reg op (k ∷ hs))

-- An `outer` is older than the object that has it.
abbrev pub IsOlder : Option ℕ → ℕ → Type 0
IsOlder none n = Unit {0}
IsOlder (some o) n = o < n

abbrev pub IsWellFormed : Store → Type 0
IsWellFormed [] = Unit {0}
IsWellFormed (h ∷ st) = IsOlder h.outer (length st) × IsWellFormed st

chain_some :
    (st : Store) (a : ℕ)
    → a < length st
    → (h : Handlers) × (hs : List Handlers) × (chain st a ≡ h ∷ hs)
unfolding chain
chain_some [] a h = absurd (omega arith)
chain_some (k ∷ st) a h = elim (Bool-cases (a == length st)) [
  | inl here ↦ (k, outer_chain (λ o. chain st o) k.outer, rw here)
  | inr further ↦ rw further (chain_some st a (ground arith))
]

resolve-cons :
    (reg : Handlers → Registry) (op : Bytes) (h : Handlers) (hs : List Handlers)
    → hs ≢ []
    → resolve reg op (h ∷ hs) ≡ or_else (lookup op (reg h).entries) (resolve reg op hs)
unfolding resolve
resolve-cons reg op h [] ne = absurd (ne refl)
resolve-cons reg op h (k ∷ hs) ne = refl

find_here :
    (reg : Handlers → Registry) (k : Handlers) (st : Store) (op : Bytes) (outer : Option ℕ)
    → IsOlder outer (length st)
    → ((o : ℕ) → o < length st → find reg st o op ≡ resolve reg op (chain st o))
    → or_outer (lookup op (reg k).entries) outer (λ o. find reg st o op) (reg k).fallback
      ≡ resolve reg op (k ∷ outer_chain (λ o. chain st o) outer)
unfolding outer_chain
find_here reg k st op none older rec = or_outer-none _ _ _ ∙ (unfold resolve in refl)
find_here reg k st op (some o) older rec =
    let (h, hs, e) = chain_some st o older in
    let ne : chain st o ≢ [] = λ q. cc (e, q) in
    or_outer-some (lookup op (reg k).entries) o (λ o. find reg st o op) (reg k).fallback
    ∙ ap (or_else (lookup op (reg k).entries)) (rec o older)
    ∙ sym (resolve-cons reg op k (chain st o) ne)

-- Where each `outer` is older than its object, a lookup at an object that exists gives the first
-- entry for the name along the chain of the object and its outer ones, and where none has an entry
-- the fallback of the outermost object.
pub find-resolve :
    (reg : Handlers → Registry) (st : Store) (a : ℕ) (op : Bytes)
    → IsWellFormed st
    → a < length st
    → find reg st a op ≡ resolve reg op (chain st a)
unfolding find chain
find-resolve reg [] a op wf h = absurd (omega arith)
find-resolve reg (k ∷ st) a op wf h = elim (Bool-cases (a == length st)) [
  | inl here ↦
      rw here (find_here reg k st op k.outer wf.0 (λ o lt. find-resolve reg st o op wf.1 lt))
  | inr further ↦ rw further (find-resolve reg st a op wf.1 (ground arith))
]
