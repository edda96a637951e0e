-- ===== src/Handlers/Wrap/Arguments.antt =====
-- Which argument fits an input of a wrapped function.
use gotalk.Common.{
  Bool, Result, Bytes, Ensures, Option, ◌≡◌, List, ok, some, true, if◌then◌else◌, none, ◌∷◌, [],
  false, panic, refl, ◌⊎◌, inl, inr,
}
use gotalk.Handlers.Wrap.{
  GoType, Values, type_is_sock_ptr, Arg, converted_arg, op_arg, param_arg, sock_arg,
}

-- The first argument for an input that takes a socket: the socket itself for a pointer to a `Sock`, and
-- else the socket converted to the input's type, for a type that it converts to.
abbrev pub TakesSock : {V : Type 0} → Arg V → GoType → Type 0
TakesSock sock_arg t = (t.is_ptr ≡ true) × (t.elem_assignable ≡ true)
TakesSock (converted_arg u) t =
    (u ≡ t) × (t.is_ptr ≡ true) × (t.elem_assignable ≡ false) × (t.elem_convertible ≡ true)
TakesSock (op_arg b) t = ⊥
TakesSock (param_arg v) t = ⊥

-- An input that takes no socket.
abbrev pub NoSock : GoType → Type 0
NoSock t = (t.is_ptr ≡ false) ⊎ ((t.elem_assignable ≡ false) × (t.elem_convertible ≡ false))

abbrev pub decode_flagged : {V : Type 0} → V × Bool → Option V
decode_flagged (v, true) = some v
decode_flagged (v, false) = none

-- What is decoded of the payload for a type, if it can be
abbrev pub decoded : {V : Type 0} → Values V → Bytes → GoType → Option V
decoded vs inbuf t = decode_flagged (vs.unmarshal t inbuf)

-- The arguments in front of the parameter. A function of one input has none in front of it, and then the
-- input takes no socket; in front of the last of two is a socket, and of three a socket and the name.
abbrev pub Front : {V : Type 0} → Bytes → List (Arg V) → List GoType → Type 0
Front op front (t ∷ []) = NoSock t × (front ≡ [])
Front {V = V} op front (t0 ∷ t1 ∷ []) = (a : Arg V) × (TakesSock a t0 × (front ≡ a ∷ []))
Front {V = V} op front (t0 ∷ t1 ∷ t2 ∷ []) =
    (a : Arg V) × (TakesSock a t0 × ((t1.is_string ≡ true) × (front ≡ a ∷ op_arg op ∷ [])))
Front op front _ = ⊥

-- The type of the parameter
abbrev pub last_input : List GoType → Option GoType
last_input [] = none
last_input (t ∷ []) = some t
last_input (t ∷ t' ∷ ts) = last_input (t' ∷ ts)

-- By what an input takes
pub Ensures-sock_ptr {ℓ} :
    {V : Type 0} {A : Type ℓ} (P : A → Type 0) (t : GoType) (m : Arg V → Result A) (d : Result A)
    → ((a : Arg V) → TakesSock a t → Ensures P (m a))
    → (NoSock t → Ensures P d)
    → Ensures P (elim (type_is_sock_ptr t) [ some s ↦ m s | none ↦ d ])
unfolding type_is_sock_ptr
Ensures-sock_ptr P t m d h k = split t.is_ptr t.elem_assignable t.elem_convertible refl refl refl
  where
    split :
        (p a c : Bool)
        → t.is_ptr ≡ p
        → t.elem_assignable ≡ a
        → t.elem_convertible ≡ c
        → Ensures P
            (elim (if p
              then (if a then some sock_arg else if c then some (converted_arg t) else none)
              else none) [ some s ↦ m s | none ↦ d ])
    split false a c ep ea ec = k (inl ep)
    split true true c ep ea ec = h sock_arg (ep, ea)
    split true false true ep ea ec = h (converted_arg t) (refl, ep, ea, ec)
    split true false false ep ea ec = k (inr (ea, ec))

-- A string test in front of an acceptance
pub Ensures-string {ℓ} :
    {A : Type ℓ} (P : A → Type 0) (b : Bool) (a : A)
    → (b ≡ true → P a)
    → Ensures P (if b then ok a else panic)
Ensures-string P true a h = h refl
Ensures-string P false a h = tt
