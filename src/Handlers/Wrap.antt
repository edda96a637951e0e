-- ===== src/Handlers/Wrap.antt =====
-- handle.go: how a typed Go function becomes a handler, by reflection and JSON.
pub mod Signatures
pub mod Arguments
pub mod Calls
use gotalk.Handlers.{FuncId, Store, handle_buffer_notification, handle_buffer_request}
use gotalk.Common.{
  Bool, Bytes, List, Option, Result, inl, ℕ, if◌then◌else◌, inr, ok, panic, some, true, ◌++◌, ◌>>=◌,
  ◌∷◌, ◌⊎◌, [], length, none, not, ◌==◌, ◌||◌, ltb,
}

-- A Go type, by what the code asks `reflect` about it; `number` tells types apart.
pub record GoType : Type 0 where
  pub number : ℕ
  pub is_ptr : Bool
  pub elem_assignable : Bool
  pub elem_convertible : Bool
  pub is_string : Bool
  pub is_error : Bool

-- The type of a value that was handed over as a function, with the two types that the code asserts.
pub record FuncType : Type 0 where
  pub is_func : Bool
  pub ins : List GoType
  pub outs : List GoType
  pub is_error_func : Bool
  pub is_plain_func : Bool

-- An argument: the socket, the socket converted to a type, the operation's name, or a value `V`.
pub data Arg (V : Type 0) : Type 0 where
  sock_arg : Arg V
  converted_arg : GoType → Arg V
  op_arg : Bytes → Arg V
  param_arg : V → Arg V

-- The function: `call` is `reflect.Value.Call`, and `direct` a call of it as a `func() error`, with
-- the text of the error. Both panic where the function does.
pub record GoFunc (V : Type 0) : Type 0 where
  pub type_of : FuncType
  pub call : List (Arg V) → Result (List V)
  pub direct : Result (Option Bytes)

-- What `encoding/json` and `reflect` do to values. Decoding gives a value whether it fails or not;
-- `is_nil` panics on a value of a kind that has no nil.
pub record Values (V : Type 0) : Type 0 where
  pub unmarshal : GoType → Bytes → V × Bool
  pub marshal : V → Bytes ⊎ Bytes
  pub is_nil : V → Result Bool
  pub as_error : V → Option Bytes
  pub as_string : V → Option Bytes

-- A handler's result, or the text of its error.
pub data HandlerResult : Type 0 where
  gives : Bytes → HandlerResult
  gives_error : Bytes → HandlerResult

abbrev pub unexpected_param_text : Bytes
unexpected_param_text =
    b'u' ∷ b'n' ∷ b'e' ∷ b'x' ∷ b'p' ∷ b'e' ∷ b'c' ∷ b't' ∷ b'e' ∷ b'd' ∷ b' ' ∷ b'p' ∷ b'a' ∷ b'r'
    ∷ b'a' ∷ b'm' ∷ b'e' ∷ b't' ∷ b'e' ∷ b'r' ∷ b' ' ∷ b't' ∷ b'y' ∷ b'p' ∷ b'e' ∷ []

abbrev error_text : Bytes
error_text = b'e' ∷ b'r' ∷ b'r' ∷ b'o' ∷ b'r' ∷ []

-- `valToErr`
unfoldable pub val_to_err : {V : Type 0} → Values V → V → Bytes
val_to_err vs v = elim (vs.as_error v) [
  | some m ↦ m
  | none ↦ elim (vs.as_string v) [ some m ↦ m | none ↦ error_text ]
]

unfoldable pub encode : {V : Type 0} → Values V → V → HandlerResult
encode vs v = elim (vs.marshal v) [ inl b ↦ gives b | inr m ↦ gives_error m ]

-- `decodeResult`
unfoldable pub decode_result : {V : Type 0} → Values V → List V → Result HandlerResult
decode_result vs [] = panic
decode_result vs (v ∷ []) =
    vs.is_nil v >>= λ n. ok (if n then gives [] else gives_error (val_to_err vs v))
decode_result vs (v ∷ e ∷ []) =
    vs.is_nil e >>= λ n. ok (if n then encode vs v else gives_error (val_to_err vs e))
decode_result vs (v ∷ e ∷ x ∷ more) =
    vs.is_nil v >>= λ n. ok (if n then gives [] else gives_error (val_to_err vs v))

-- `typeIsSockPtr`, with what it makes of a socket
unfoldable pub type_is_sock_ptr : {V : Type 0} → GoType → Option (Arg V)
type_is_sock_ptr t =
    if t.is_ptr
    then (if t.elem_assignable
        then some sock_arg
        else if t.elem_convertible
        then some (converted_arg t)
        else none)
    else none

-- The last output must be an error, and there are one or two.
unfoldable pub bad_outs : List GoType → Bool
bad_outs [] = true
bad_outs (e ∷ []) = not e.is_error
bad_outs (o ∷ e ∷ []) = not e.is_error
bad_outs (o ∷ o' ∷ o'' ∷ more) = true

abbrev pub ReqHandler : Type 0
ReqHandler = Bytes → Bytes → Result HandlerResult

unfoldable pub call_with : {V : Type 0} → Values V → GoFunc V → List (Arg V) → Result HandlerResult
call_with vs f args = f.call args >>= decode_result vs

-- `decodeParams`, and the call with `front` and the value it made.
unfoldable pub with_params :
    {V : Type 0} → Values V → GoFunc V → GoType → List (Arg V) → Bytes → Result HandlerResult
with_params vs f t front inbuf =
    let (v, decoded) = vs.unmarshal t inbuf in
    if decoded
    then call_with vs f (front ++ (param_arg v ∷ []))
    else ok (gives_error unexpected_param_text)

unfoldable pub run_direct : {V : Type 0} → GoFunc V → Result HandlerResult
run_direct f = f.direct >>= λ e. ok (elim e [ none ↦ gives [] | some m ↦ gives_error m ])

unfoldable pub no_inputs : {V : Type 0} → Values V → GoFunc V → Result ReqHandler
no_inputs vs f =
    if length f.type_of.outs == 2
    then ok (λ op inbuf. call_with vs f [])
    else if f.type_of.is_error_func
    then ok (λ op inbuf. run_direct f)
    else panic

unfoldable pub by_inputs : {V : Type 0} → Values V → GoFunc V → List GoType → Result ReqHandler
by_inputs vs f [] = no_inputs vs f
by_inputs vs f (t ∷ []) = elim (type_is_sock_ptr t) [
  | some s ↦ ok (λ op inbuf. call_with vs f (s ∷ []))
  | none ↦ ok (λ op inbuf. with_params vs f t [] inbuf)
]
by_inputs vs f (t0 ∷ t1 ∷ []) = elim (type_is_sock_ptr t0) [
  | some s ↦ ok (λ op inbuf. with_params vs f t1 (s ∷ []) inbuf)
  | none ↦ panic
]
by_inputs vs f (t0 ∷ t1 ∷ t2 ∷ []) = elim (type_is_sock_ptr t0) [
  | some s ↦
      if t1.is_string
      then ok (λ op inbuf. with_params vs f t2 (s ∷ op_arg op ∷ []) inbuf)
      else panic
  | none ↦ panic
]
by_inputs vs f (t0 ∷ t1 ∷ t2 ∷ t3 ∷ ts) = panic

-- `wrapFuncReqHandler`, which panics on a signature that is not allowed.
unfoldable pub wrap_func_req_handler : {V : Type 0} → Values V → GoFunc V → Result ReqHandler
wrap_func_req_handler vs f =
    if not f.type_of.is_func || bad_outs f.type_of.outs then panic else by_inputs vs f f.type_of.ins

abbrev pub NoteHandler : Type 0
NoteHandler = Bytes → Bytes → Result (Unit {0})

unfoldable pub run_note : {V : Type 0} → GoFunc V → List (Arg V) → Result (Unit {0})
run_note f args = f.call args >>= λ r. ok tt

-- The value is used even if it could not be decoded.
unfoldable pub note_args : {V : Type 0} → Values V → GoType → List (Arg V) → Bytes → List (Arg V)
note_args vs t front inbuf = front ++ (param_arg (vs.unmarshal t inbuf).0 ∷ [])

unfoldable pub note_by_inputs :
    {V : Type 0} → Values V → GoFunc V → List GoType → Result NoteHandler
note_by_inputs vs f [] = ok (λ name inbuf. if f.type_of.is_plain_func then run_note f [] else panic)
note_by_inputs vs f (t ∷ []) = ok (λ name inbuf. run_note f (note_args vs t [] inbuf))
note_by_inputs vs f (t0 ∷ t1 ∷ []) =
    if t0.is_string
    then ok (λ name inbuf. run_note f (note_args vs t1 (op_arg name ∷ []) inbuf))
    else panic
note_by_inputs vs f (t0 ∷ t1 ∷ t2 ∷ []) = elim (type_is_sock_ptr t0) [
  | some s ↦
      if t1.is_string
      then ok (λ name inbuf. run_note f (note_args vs t2 (s ∷ op_arg name ∷ []) inbuf))
      else panic
  | none ↦ panic
]
note_by_inputs vs f (t0 ∷ t1 ∷ t2 ∷ t3 ∷ ts) = panic

-- `wrapFuncNotHandler`
unfoldable pub wrap_func_not_handler : {V : Type 0} → Values V → GoFunc V → Result NoteHandler
wrap_func_not_handler vs f =
    if not f.type_of.is_func || ltb 0 (length f.type_of.outs)
    then panic
    else note_by_inputs vs f f.type_of.ins

-- `Handle` and `HandleNotification`; `wrapper` is the number of the handler that was made.
unfoldable pub handle :
    {V : Type 0} → Values V → ℕ → Bytes → GoFunc V → FuncId → Store → Result Store
handle vs a op f wrapper st =
    wrap_func_req_handler vs f >>= λ h. ok (handle_buffer_request a op (some wrapper) st)

unfoldable pub handle_notification :
    {V : Type 0} → Values V → ℕ → Bytes → GoFunc V → FuncId → Store → Result Store
handle_notification vs a name f wrapper st =
    wrap_func_not_handler vs f >>= λ h. ok (handle_buffer_notification a name (some wrapper) st)
