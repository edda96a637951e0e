-- ===== src/Handlers.antt =====
-- handle.go: the registries of request and notification handlers, and their lookup.
pub mod Lookup
pub mod Aliasing
pub mod Defaults
pub mod Wrap
use gotalk.Common.{
  ℕ, suc, Bool, List, [], ◌∷◌, Bytes, length, bytes_eq, ◌==◌, if◌then◌else◌, Option, none, some,
}

-- A Go function value, known by a number: the registries store handlers and compare them with nil,
-- which is `none`, and nothing else.
abbrev pub FuncId : Type 0
FuncId = ℕ

-- A Go map from names to handlers, and the handler for the rest.
pub record Registry : Type 0 where
  pub entries : List (Bytes × Option FuncId)
  pub fallback : Option FuncId

-- `outer` is the address of another object.
pub record Handlers : Type 0 where
  pub buf_req : Registry
  pub stream_req : Registry
  pub notes : Registry
  pub outer : Option ℕ

abbrev pub no_entries : Registry
no_entries = record { entries = []; fallback = none }

-- `m[op]`, which is nil where the key is missing
unfoldable pub lookup : Bytes → List (Bytes × Option FuncId) → Option FuncId
lookup op [] = none
lookup op ((k, v) ∷ m) = if bytes_eq k op then v else lookup op m

-- `m[op] = fn`
unfoldable pub insert :
    Bytes → Option FuncId → List (Bytes × Option FuncId) → List (Bytes × Option FuncId)
insert op fn [] = (op, fn) ∷ []
insert op fn ((k, v) ∷ m) = if bytes_eq k op then (k, fn) ∷ m else (k, v) ∷ insert op fn m

-- An empty name sets the fallback.
unfoldable pub register : Bytes → Option FuncId → Registry → Registry
register op fn r =
    if length op == 0
    then record r { fallback = fn }
    else record r { entries = insert op fn r.entries }

-- The objects made so far, the newest first: an object's address is the number of those before it.
abbrev pub Store : Type 0
Store = List Handlers

abbrev empty_handlers : Option ℕ → Handlers
empty_handlers o = record {
  buf_req = no_entries;
  stream_req = no_entries;
  notes = no_entries;
  outer = o;
}

-- `&Handlers{}` and `h.NewSubHandlers()`; each returns the new object's address.
unfoldable pub new_handlers : Store → Store × ℕ
new_handlers st = (empty_handlers none ∷ st, length st)

unfoldable pub new_sub_handlers : ℕ → Store → Store × ℕ
new_sub_handlers h st = (empty_handlers (some h) ∷ st, length st)

unfoldable pub modify : ℕ → (Handlers → Handlers) → Store → Store
modify a f [] = []
modify a f (h ∷ st) = if a == length st then f h ∷ st else h ∷ modify a f st

unfoldable pub handle_buffer_request : ℕ → Bytes → Option FuncId → Store → Store
handle_buffer_request a op fn = modify a λ h. record h { buf_req = register op fn h.buf_req }

unfoldable pub handle_stream_request : ℕ → Bytes → Option FuncId → Store → Store
handle_stream_request a op fn = modify a λ h. record h { stream_req = register op fn h.stream_req }

unfoldable pub handle_buffer_notification : ℕ → Bytes → Option FuncId → Store → Store
handle_buffer_notification a name fn = modify a λ h. record h { notes = register name fn h.notes }

-- The entry if there is one, else what `outer` finds, else the fallback.
unfoldable pub or_outer :
    Option FuncId → Option ℕ → (ℕ → Option FuncId) → Option FuncId → Option FuncId
or_outer (some f) outer up fallback = some f
or_outer none (some o) up fallback = up o
or_outer none none up fallback = fallback

-- The three lookups differ in the registry that they read. An `outer` is older than its object, so
-- the search goes on among the objects before it.
unfoldable pub find : (Handlers → Registry) → Store → ℕ → Bytes → Option FuncId
find reg [] a op = none
find reg (h ∷ st) a op =
    if a == length st
    then or_outer (lookup op (reg h).entries) h.outer (λ o. find reg st o op) (reg h).fallback
    else find reg st a op

unfoldable pub find_buffer_request_handler : Store → ℕ → Bytes → Option FuncId
find_buffer_request_handler = find λ h. h.buf_req

unfoldable pub find_stream_request_handler : Store → ℕ → Bytes → Option FuncId
find_stream_request_handler = find λ h. h.stream_req

unfoldable pub find_notification_handler : Store → ℕ → Bytes → Option FuncId
find_notification_handler = find λ h. h.notes
