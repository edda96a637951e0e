-- ===== src/Handlers/Wrap/Signatures.antt =====
-- The signatures that are accepted, and that no others are.
use mathlib.Core.Path.{subst}
use gotalk.Common.{
  Bool, List, Result, ok, panic, if◌then◌else◌, inl, inr, length, ◌↔◌, ◌∷◌, ◌≡◌, ◌⊎◌, refl, some,
  true, [], false, none, Bool-cases, sym, ◌∙◌, ◌==◌, Option, ℕ, arith, not, ◌||◌, ltb, ltb-eq_true,
  suc, clash,
}
use gotalk.Handlers.Wrap.{
  FuncType, GoType, type_is_sock_ptr, Arg, sock_arg, converted_arg, Values, GoFunc, by_inputs,
  no_inputs, bad_outs, note_by_inputs, wrap_func_req_handler, wrap_func_not_handler,
}

-- A pointer to a `Sock`, or to a type that a `Sock` converts to.
abbrev pub IsSockPtr : GoType → Type 0
IsSockPtr t = (t.is_ptr ≡ true) × ((t.elem_assignable ≡ true) ⊎ (t.elem_convertible ≡ true))

-- The documented signatures of a request's function. Without an input, and with an error as the only
-- output, its type has to be `func() error`.
abbrev pub IsReqInputs : FuncType → List GoType → Type 0
IsReqInputs ty [] = (length ty.outs ≡ 2) ⊎ (ty.is_error_func ≡ true)
IsReqInputs ty (t ∷ []) = Unit {0}
IsReqInputs ty (t0 ∷ t1 ∷ []) = IsSockPtr t0
IsReqInputs ty (t0 ∷ t1 ∷ t2 ∷ []) = IsSockPtr t0 × (t1.is_string ≡ true)
IsReqInputs ty (t0 ∷ t1 ∷ t2 ∷ t3 ∷ ts) = ⊥

abbrev pub IsReqOutputs : List GoType → Type 0
IsReqOutputs [] = ⊥
IsReqOutputs (e ∷ []) = e.is_error ≡ true
IsReqOutputs (o ∷ e ∷ []) = e.is_error ≡ true
IsReqOutputs (o ∷ o' ∷ o'' ∷ more) = ⊥

abbrev pub IsReqSignature : FuncType → Type 0
IsReqSignature ty = (ty.is_func ≡ true) × (IsReqOutputs ty.outs × IsReqInputs ty ty.ins)

-- Those of a notification's function, which has no output.
abbrev pub IsNoteInputs : List GoType → Type 0
IsNoteInputs [] = Unit {0}
IsNoteInputs (t ∷ []) = Unit {0}
IsNoteInputs (t0 ∷ t1 ∷ []) = t0.is_string ≡ true
IsNoteInputs (t0 ∷ t1 ∷ t2 ∷ []) = IsSockPtr t0 × (t1.is_string ≡ true)
IsNoteInputs (t0 ∷ t1 ∷ t2 ∷ t3 ∷ ts) = ⊥

abbrev pub IsNoteSignature : FuncType → Type 0
IsNoteSignature ty = (ty.is_func ≡ true) × ((ty.outs ≡ []) × IsNoteInputs ty.ins)

abbrev pub Accepts {ℓ} : {A : Type ℓ} → Result A → Type ℓ
Accepts {A = A} m = (a : A) × (m ≡ ok a)

-- A panic refuses.
Judged {ℓ} : {A : Type ℓ} → Result A → Type 0 → Type ℓ
Judged m P = (Accepts m × P) ⊎ ((m ≡ panic) × ¬ P)

sock_ptr-cases :
    {V : Type 0} (t : GoType)
    → ((a : Arg V) × ((type_is_sock_ptr t ≡ some a) × IsSockPtr t))
      ⊎ ((type_is_sock_ptr {V = V} t ≡ none) × ¬ IsSockPtr t)
unfolding type_is_sock_ptr
sock_ptr-cases t = elim (Bool-cases t.is_ptr) [
  | inr plain ↦ inr (rw plain refl, λ h. clash h.0 plain)
  | inl ptr ↦ elim (Bool-cases t.elem_assignable) [
    | inl same ↦ inl (sock_arg, (rw (ptr, same) refl, (ptr, inl same)))
    | inr other ↦ elim (Bool-cases t.elem_convertible) [
      | inl same ↦ inl (converted_arg t, (rw (ptr, other, same) refl, (ptr, inr same)))
      | inr none_ ↦ inr (
        rw (ptr, other, none_) refl,
        λ h. elim (h.1) [ inl h1 ↦ clash h1 other | inr h2 ↦ clash h2 none_ ],
      )
    ]
  ]
]

accepted {ℓ} : {A : Type ℓ} (P : Type 0) (a : A) → P → Judged (ok a) P
unfolding Judged
accepted P a p = inl ((a, refl), p)

refused {ℓ} : (A : Type ℓ) (P : Type 0) → ¬ P → Judged {A = A} panic P
unfolding Judged
refused A P n = inr (refl, n)

judge-if {ℓ} :
    {A : Type ℓ} (b : Bool) (m : Result A) (P : Type 0)
    → Judged m P
    → Judged (if b then m else panic) ((b ≡ true) × P)
unfolding Judged
judge-if true m P (inl (h, p)) = inl (h, (refl, p))
judge-if true m P (inr (e, n)) = inr (e, λ h. n h.1)
judge-if false m P j = inr (refl, λ h. clash h.0 refl)

judge-sock_ptr {ℓ} :
    {V : Type 0} {A : Type ℓ} (t : GoType) (m : Arg V → Result A) (P : Type 0)
    → ((s : Arg V) → Judged (m s) P)
    → Judged (elim (type_is_sock_ptr t) [ some s ↦ m s | none ↦ panic ]) (IsSockPtr t × P)
unfolding Judged
judge-sock_ptr {V = V} {A = A} t m P j = elim (sock_ptr-cases {V = V} t) [
  | inl (a, (e, is_sock)) ↦ elim (j a) [
    | inl ((h, g), p) ↦ inl ((h, rw e g), (is_sock, p))
    | inr (g, n) ↦ inr (rw e g, λ h. n h.1)
  ]
  | inr (e, n) ↦ inr (rw e refl, λ h. n h.0)
]

judge-map {ℓ} : {A : Type ℓ} (m : Result A) (P Q : Type 0) → Judged m P → P ↔ Q → Judged m Q
unfolding Judged
judge-map m P Q (inl (h, p)) (to, from) = inl (h, to p)
judge-map m P Q (inr (e, n)) (to, from) = inr (e, λ q. n (from q))

panic-ok {ℓ} : {A : Type ℓ} {a : A} → panic ≡ ok a → ⊥
panic-ok g = cc

judged_iff {ℓ} : {A : Type ℓ} (m : Result A) (P : Type 0) → Judged m P → Accepts m ↔ P
unfolding Judged
judged_iff m P (inl (h, p)) = (λ x. p, λ x. h)
judged_iff m P (inr (e, n)) = (λ (a, g). absurd (panic-ok (sym e ∙ g)), λ p. absurd (n p))

judge-or {ℓ} :
    {A : Type ℓ} (b : Bool) (a : A) (m : Result A) (P : Type 0)
    → Judged m P
    → Judged (if b then ok a else m) ((b ≡ true) ⊎ P)
unfolding Judged
judge-or true a m P j = inl ((a, refl), inl refl)
judge-or false a m P (inl (h, p)) = inl (h, inr p)
judge-or false a m P (inr (e, n)) = inr (e, λ h. elim h [ inl t ↦ clash t refl | inr p ↦ n p ])

accepted-either {ℓ} :
    {V : Type 0} {A : Type ℓ} (o : Option (Arg V)) (g : Arg V → A) (d : A)
    → Judged (elim o [ some s ↦ ok (g s) | none ↦ ok d ]) (Unit {0})
accepted-either none g d = accepted _ _ tt
accepted-either (some s) g d = accepted _ _ tt

eqb_iff : (m n : ℕ) → (m == n ≡ true) ↔ (m ≡ n)
eqb_iff m n = (λ h. ground arith, λ h. ground arith)

cons-nil : {t : GoType} {ts : List GoType} → (t ∷ ts) ≡ [] → ⊥
cons-nil e = cc

module _ {V : Type 0} (vs : Values V) (f : GoFunc V) where
  no_inputs-judged : Judged (no_inputs vs f) (IsReqInputs f.type_of [])
  unfolding no_inputs
  no_inputs-judged =
      judge-map _ _ _
        (judge-or (length f.type_of.outs == 2) _ _ _
          (judge-if f.type_of.is_error_func _ (Unit {0}) (accepted _ _ tt)))
        (
          λ h. elim h [ inl two ↦ inl ((eqb_iff _ _).0 two) | inr e ↦ inr e.0 ],
          λ h. elim h [ inl two ↦ inl ((eqb_iff _ _).1 two) | inr e ↦ inr (e, tt) ],
        )

  by_inputs-judged : (ts : List GoType) → Judged (by_inputs vs f ts) (IsReqInputs f.type_of ts)
  unfolding by_inputs
  by_inputs-judged [] = no_inputs-judged
  by_inputs-judged (t ∷ []) = accepted-either (type_is_sock_ptr t) _ _
  by_inputs-judged (t0 ∷ t1 ∷ []) =
      judge-map _ _ _ (judge-sock_ptr t0 _ (Unit {0}) (λ s. accepted _ _ tt))
        (λ h. h.0, λ h. (h, tt))
  by_inputs-judged (t0 ∷ t1 ∷ t2 ∷ []) =
      judge-map _ _ _
        (judge-sock_ptr t0 _ _ (λ s. judge-if t1.is_string _ (Unit {0}) (accepted _ _ tt)))
        (λ h. (h.0, h.1.0), λ h. (h.0, (h.1, tt)))
  by_inputs-judged (t0 ∷ t1 ∷ t2 ∷ t3 ∷ ts) = refused _ _ (λ h. h)

  note_by_inputs-judged : (ts : List GoType) → Judged (note_by_inputs vs f ts) (IsNoteInputs ts)
  unfolding note_by_inputs
  note_by_inputs-judged [] = accepted _ _ tt
  note_by_inputs-judged (t ∷ []) = accepted _ _ tt
  note_by_inputs-judged (t0 ∷ t1 ∷ []) =
      judge-map _ _ _ (judge-if t0.is_string _ (Unit {0}) (accepted _ _ tt))
        (λ h. h.0, λ h. (h, tt))
  note_by_inputs-judged (t0 ∷ t1 ∷ t2 ∷ []) =
      judge-map _ _ _
        (judge-sock_ptr t0 _ _ (λ s. judge-if t1.is_string _ (Unit {0}) (accepted _ _ tt)))
        (λ h. (h.0, h.1.0), λ h. (h.0, (h.1, tt)))
  note_by_inputs-judged (t0 ∷ t1 ∷ t2 ∷ t3 ∷ ts) = refused _ _ (λ h. h)

  outputs-judged {ℓ} :
      {A : Type ℓ} (func : Bool) (outs : List GoType) (m : Result A) (P : Type 0)
      → Judged m P
      → Judged
          (if not func || bad_outs outs then panic else m)
          ((func ≡ true) × (IsReqOutputs outs × P))
  unfolding bad_outs
  outputs-judged false outs m P j = refused _ _ (λ h. clash h.0 refl)
  outputs-judged true [] m P j = refused _ _ (λ h. h.1.0)
  outputs-judged true (e ∷ []) m P j = output (e.is_error)
    where
      output : (b : Bool) → Judged (if not b then panic else m) ((true ≡ true) × ((b ≡ true) × P))
      output true = judge-map _ _ _ j (λ p. (refl, (refl, p)), λ h. h.1.1)
      output false = refused _ _ (λ h. clash h.1.0 refl)
  outputs-judged true (o ∷ e ∷ []) m P j = outputs-judged true (e ∷ []) m P j
  outputs-judged true (o ∷ o' ∷ o'' ∷ more) m P j = refused _ _ (λ h. h.1.0)

  -- `wrapFuncReqHandler` accepts a value, that is, does not panic, just where it is a function with
  -- one of the documented signatures: an error, or a value and an error, as outputs; at most three
  -- inputs, where the first of several is a pointer to a `Sock` or to a type that a `Sock` converts
  -- to and the second of three is a string; and without an input and with one output only if its
  -- type is `func() error`. `wrapFuncNotHandler` accepts just the functions without outputs and
  -- with no input, any one, a string and any, or a pointer to a `Sock`, a string and any.
  pub wrap-Accepts :
      (Accepts (wrap_func_req_handler vs f) ↔ IsReqSignature f.type_of)
      × (Accepts (wrap_func_not_handler vs f) ↔ IsNoteSignature f.type_of)
  unfolding wrap_func_req_handler wrap_func_not_handler
  wrap-Accepts = (
    judged_iff _ _
        (outputs-judged f.type_of.is_func f.type_of.outs _ _ (by_inputs-judged f.type_of.ins)),
    judged_iff _ _
        (no_outputs f.type_of.is_func f.type_of.outs (note_by_inputs-judged f.type_of.ins)),
  )
    where
      no_outputs :
          (func : Bool) (outs : List GoType)
          → Judged (note_by_inputs vs f f.type_of.ins) (IsNoteInputs f.type_of.ins)
          → Judged
              (if not func || ltb 0 (length outs) then panic else note_by_inputs vs f f.type_of.ins)
              ((func ≡ true) × ((outs ≡ []) × IsNoteInputs f.type_of.ins))
      no_outputs false outs j = refused _ _ (λ h. clash h.0 refl)
      no_outputs true [] j = judge-map _ _ _ j (λ p. (refl, (refl, p)), λ h. h.1.1)
      no_outputs true (o ∷ outs) j =
          subst
            (λ b.
              Judged (if b then panic else note_by_inputs vs f f.type_of.ins)
                ((true ≡ true) × (((o ∷ outs) ≡ []) × IsNoteInputs f.type_of.ins)))
            (sym (ltb-eq_true 0 (suc (length outs)) (omega arith)))
            (refused _ _ (λ h. cons-nil h.1.0))
