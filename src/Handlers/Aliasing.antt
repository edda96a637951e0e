-- ===== src/Handlers/Aliasing.antt =====
-- What a registration changes, for the object itself and for those that reach it as an `outer`.
use gotalk.Common.{
  ℕ, ap₂, ◌<◌, ◌≡◌, ◌≢◌, inl, inr, refl, sym, ap, ◌∙◌, arith, Bool, true, false, [], ◌∷◌, Bytes,
  length, bytes_eq, ◌==◌, if◌then◌else◌, Option, none, some, Bool-cases, eqb_refl, eqb-eq_false,
}
use gotalk.Handlers.{
  FuncId, Registry, Handlers, Store, lookup, insert, register, or_outer, find, modify,
  new_sub_handlers, handle_buffer_request, find_buffer_request_handler, handle_stream_request,
  find_stream_request_handler, handle_buffer_notification, find_notification_handler,
}
use gotalk.Handlers.Lookup.{IsWellFormed, lookup-insert, or_outer-some}
use mathlib.Core.Path.{fun_ext}

length-modify : (a : ℕ) (f : Handlers → Handlers) (st : Store) → length (modify a f st) ≡ length st
unfolding modify
length-modify a f [] = refl
length-modify a f (h ∷ st) = ground (arith, length-modify a f st)

-- Every object is made and changed in a way that keeps each `outer` older.
pub new_sub_handlers-IsWellFormed :
    (h : ℕ) (st : Store) → h < length st → IsWellFormed st → IsWellFormed (new_sub_handlers h st).0
unfolding new_sub_handlers
new_sub_handlers-IsWellFormed h st lt wf = (lt, wf)

-- The object at an address.
unfoldable pub object : Store → ℕ → Option Handlers
object [] a = none
object (h ∷ st) a = if a == length st then some h else object st a

-- One kind of handler: how its registry is read and replaced.
pub record Kind : Type 0 where
  pub get : Handlers → Registry
  pub put : Registry → Handlers → Handlers
  pub get-put : (r : Registry) (h : Handlers) → get (put r h) ≡ r
  pub outer-put : (r : Registry) (h : Handlers) → (put r h).outer ≡ h.outer

abbrev buffer_kind : Kind
buffer_kind = record {
  get = λ h. h.buf_req;
  put = λ r h. record h { buf_req = r };
  get-put = λ r h. refl;
  outer-put = λ r h. refl;
}

abbrev stream_kind : Kind
stream_kind = record {
  get = λ h. h.stream_req;
  put = λ r h. record h { stream_req = r };
  get-put = λ r h. refl;
  outer-put = λ r h. refl;
}

abbrev note_kind : Kind
note_kind = record {
  get = λ h. h.notes;
  put = λ r h. record h { notes = r };
  get-put = λ r h. refl;
  outer-put = λ r h. refl;
}

abbrev set_handler : Kind → ℕ → Bytes → Option FuncId → Store → Store
set_handler k a op fn = modify a λ h. k.put (register op fn (k.get h)) h

find-cons :
    (reg : Handlers → Registry) (h : Handlers) (st : Store) (a : ℕ) (op : Bytes)
    → find reg (h ∷ st) a op ≡ (
        if a == length st
        then or_outer (lookup op (reg h).entries) h.outer (λ o. find reg st o op) (reg h).fallback
        else find reg st a op)
unfolding find
find-cons reg h st a op = refl

-- A change below an object changes what it finds only through what is found below.
find-below :
    (reg : Handlers → Registry) (h : Handlers) (st st' : Store) (a : ℕ) (op : Bytes)
    → length st' ≡ length st
    → ((b : ℕ) → find reg st' b op ≡ find reg st b op)
    → find reg (h ∷ st') a op ≡ find reg (h ∷ st) a op
find-below reg h st st' a op len same =
    find-cons reg h st' a op
    ∙ ap₂
        (λ (n : ℕ) (up : ℕ → Option FuncId).
          if a == n then or_outer (lookup op (reg h).entries) h.outer up (reg h).fallback else up a)
        len (fun_ext same)
    ∙ sym (find-cons reg h st a op)

or_outer-fallback :
    (e : Option FuncId) (outer : Option ℕ) (o : ℕ) (up : ℕ → Option FuncId) (f g : Option FuncId)
    → outer ≡ some o
    → or_outer e outer up f ≡ or_outer e outer up g
or_outer-fallback e none o up f g h = cc h
or_outer-fallback e (some p) o up f g h = or_outer-some e p up f ∙ sym (or_outer-some e p up g)

-- Setting the fallback of an object with an `outer` changes no lookup.
fallback_here :
    (k : Kind) (x : Handlers) (st : Store) (b o : ℕ) (fn : Option FuncId) (op : Bytes)
    → x.outer ≡ some o
    → find k.get (k.put (register [] fn (k.get x)) x ∷ st) b op ≡ find k.get (x ∷ st) b op
unfolding register
fallback_here k x st b o fn op eo =
    let r : Registry = record (k.get x) { fallback = fn } in
    rw
      (
        find-cons k.get (k.put r x) st b op,
        find-cons k.get x st b op,
        k.get-put r x,
        k.outer-put r x,
      )
      (ap (λ t. if b == length st then t else find k.get st b op)
        (or_outer-fallback (lookup op (k.get x).entries) x.outer o (λ o. find k.get st o op) fn
          (k.get x).fallback eo))

outer_at : Option Handlers → Option ℕ
outer_at none = none
outer_at (some h) = h.outer

outer_same : (x h : Handlers) → some x ≡ some h → x.outer ≡ h.outer
unfolding outer_at
outer_same x h e = ap outer_at e

fallback_unused :
    (k : Kind) (st : Store) (a b o : ℕ) (h : Handlers) (fn : Option FuncId) (op : Bytes)
    → object st a ≡ some h
    → h.outer ≡ some o
    → find k.get (set_handler k a [] fn st) b op ≡ find k.get st b op
unfolding modify object
fallback_unused k [] a b o h fn op e eo = refl
fallback_unused k (x ∷ st) a b o h fn op e eo = elim (Bool-cases (a == length st)) [
  | inl here ↦ rw here (fallback_here k x st b o fn op (outer_same x h (rw here at e) ∙ eo))
  | inr further ↦ rw further (
      find-below k.get x st (set_handler k a [] fn st) b op (length-modify a _ st)
        (λ c. fallback_unused k st a c o h fn op (rw further at e) eo))
]

length-ne_zero : (op : Bytes) → op ≢ [] → (length op == 0) ≡ false
length-ne_zero [] h = absurd (h refl)
length-ne_zero (c ∷ op) h = ground arith

set_here :
    (k : Kind) (x : Handlers) (st : Store) (a : ℕ) (op j : Bytes) (f : FuncId)
    → (a == length st) ≡ true
    → op ≢ []
    → find k.get (k.put (register op (some f) (k.get x)) x ∷ st) a j
      ≡ (if bytes_eq op j then some f else find k.get (x ∷ st) a j)
unfolding register
set_here k x st a op j f here ne =
    let r : Registry = record (k.get x) { entries = insert op (some f) (k.get x).entries } in
    rw
      (
        length-ne_zero op ne,
        find-cons k.get (k.put r x) st a j,
        find-cons k.get x st a j,
        here,
        k.get-put r x,
        k.outer-put r x,
        lookup-insert op j (some f) (k.get x).entries,
      )
      (by_name (bytes_eq op j))
  where
    by_name :
        (b : Bool)
        → or_outer
            (if b then some f else lookup j (k.get x).entries)
            x.outer
            (λ o. find k.get st o j)
            (k.get x).fallback
          ≡ (if b
              then some f
              else or_outer
                  (lookup j (k.get x).entries)
                  x.outer
                  (λ o. find k.get st o j)
                  (k.get x).fallback)
    by_name true = unfold or_outer in refl
    by_name false = refl

-- A handler registered for a name is found at the object for that name, and other names as before.
find-set_handler :
    (k : Kind) (st : Store) (a : ℕ) (op j : Bytes) (f : FuncId)
    → a < length st
    → op ≢ []
    → find k.get (set_handler k a op (some f) st) a j
      ≡ (if bytes_eq op j then some f else find k.get st a j)
unfolding modify
find-set_handler k [] a op j f h ne = absurd (omega arith)
find-set_handler k (x ∷ st) a op j f h ne = elim (Bool-cases (a == length st)) [
  | inl here ↦ rw here (set_here k x st a op j f here ne)
  | inr further ↦
      rw
        (
          further,
          find-cons k.get x (set_handler k a op (some f) st) a j,
          length-modify a _ st,
          find-cons k.get x st a j,
          further,
        )
        (find-set_handler k st a op j f (ground arith) ne)
]

-- After a handler is registered at an existing object under a name that is not empty, the object
-- finds it for that name, and for any other name what it found before: for buffer requests, for
-- stream requests and for notifications.
pub find-handle :
    (st : Store) (a : ℕ) (op j : Bytes) (f : FuncId)
    → a < length st
    → op ≢ []
    → (find_buffer_request_handler (handle_buffer_request a op (some f) st) a j
        ≡ (if bytes_eq op j then some f else find_buffer_request_handler st a j))
      × (find_stream_request_handler (handle_stream_request a op (some f) st) a j
          ≡ (if bytes_eq op j then some f else find_stream_request_handler st a j))
      × (find_notification_handler (handle_buffer_notification a op (some f) st) a j
          ≡ (if bytes_eq op j then some f else find_notification_handler st a j))
unfolding handle_buffer_request handle_stream_request handle_buffer_notification
    find_buffer_request_handler find_stream_request_handler find_notification_handler
find-handle st a op j f h ne = (
  find-set_handler buffer_kind st a op j f h ne,
  find-set_handler stream_kind st a op j f h ne,
  find-set_handler note_kind st a op j f h ne,
)

-- Registering a handler under the empty name, which sets an object's fallback, changes no lookup at
-- any object when the object has an `outer`: for buffer requests, for stream requests and for
-- notifications.
pub handle-fallback_unused :
    (st : Store) (a b o : ℕ) (h : Handlers) (fn : Option FuncId) (op : Bytes)
    → object st a ≡ some h
    → h.outer ≡ some o
    → (find_buffer_request_handler (handle_buffer_request a [] fn st) b op
        ≡ find_buffer_request_handler st b op)
      × (find_stream_request_handler (handle_stream_request a [] fn st) b op
          ≡ find_stream_request_handler st b op)
      × (find_notification_handler (handle_buffer_notification a [] fn st) b op
          ≡ find_notification_handler st b op)
unfolding handle_buffer_request handle_stream_request handle_buffer_notification
    find_buffer_request_handler find_stream_request_handler find_notification_handler
handle-fallback_unused st a b o h fn op e eo = (
  fallback_unused buffer_kind st a b o h fn op e eo,
  fallback_unused stream_kind st a b o h fn op e eo,
  fallback_unused note_kind st a b o h fn op e eo,
)

-- New sub-handlers find for every name what their `outer` finds, and the lookups at every object
-- that existed are unchanged, in the three registries.
pub find-new_sub_handlers :
    (st : Store) (h b : ℕ) (op : Bytes)
    → b < length st
    → (find_buffer_request_handler (new_sub_handlers h st).0 (new_sub_handlers h st).1 op
        ≡ find_buffer_request_handler st h op)
      × (find_stream_request_handler (new_sub_handlers h st).0 (new_sub_handlers h st).1 op
          ≡ find_stream_request_handler st h op)
      × (find_notification_handler (new_sub_handlers h st).0 (new_sub_handlers h st).1 op
          ≡ find_notification_handler st h op)
      × (find_buffer_request_handler (new_sub_handlers h st).0 b op
          ≡ find_buffer_request_handler st b op)
      × (find_stream_request_handler (new_sub_handlers h st).0 b op
          ≡ find_stream_request_handler st b op)
      × (find_notification_handler (new_sub_handlers h st).0 b op
          ≡ find_notification_handler st b op)
unfolding new_sub_handlers find find_buffer_request_handler find_stream_request_handler
    find_notification_handler lookup or_outer
find-new_sub_handlers st h b op lt =
    rw (eqb_refl (length st), eqb-eq_false b (length st) (omega arith))
      (refl, refl, refl, refl, refl, refl)
