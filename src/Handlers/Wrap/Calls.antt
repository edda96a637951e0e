-- ===== src/Handlers/Wrap/Calls.antt =====
-- The arguments that a wrapped function is called with.
use gotalk.Handlers.Wrap.Arguments.{
  TakesSock, decode_flagged, decoded, Front, last_input, Ensures-sock_ptr, Ensures-string,
}
use gotalk.Common.{
  Bool, Result, Bytes, Ensures, ◌≡◌, List, ok, some, true, if◌then◌else◌, none, ◌++◌, ◌∷◌, [],
  false, panic, ap, refl, ◌⊎◌, inl, inr, Ensures-if, length, not, ◌==◌, ◌||◌, ltb, Ensures-ok,
}
use gotalk.Handlers.Wrap.{
  GoType, Values, GoFunc, Arg, with_params, HandlerResult, call_with, op_arg, param_arg,
  gives_error, unexpected_param_text, run_direct, by_inputs, note_args, note_by_inputs, run_note,
  wrap_func_not_handler, wrap_func_req_handler, NoteHandler, ReqHandler, no_inputs, bad_outs,
}

-- What a request's function does. Without inputs it is called with nothing, where it has two outputs, or
-- as the `func() error` that it is. Its only input may be a socket. Otherwise the last input is the
-- parameter, and the function is called just where this can be decoded.
abbrev pub Called :
    {V : Type 0} → Values V → GoFunc V → Bytes → Bytes → List GoType → Result HandlerResult → Type 0
Called {V = V} vs f op inbuf ts r =
    ((ts ≡ []) × ((length f.type_of.outs == 2) ≡ true) × (r ≡ call_with vs f []))
    ⊎ (((ts ≡ [])
          × ((length f.type_of.outs == 2) ≡ false)
          × (f.type_of.is_error_func ≡ true)
          × (r ≡ run_direct f))
        ⊎ (((a : Arg V) × (t : GoType) × ((ts ≡ t ∷ [])
                × (TakesSock a t × (r ≡ call_with vs f (a ∷ [])))))
            ⊎ ((front : List (Arg V)) × (t : GoType) × (Front op front ts
                  × ((last_input ts ≡ some t)
                      × (((v : V) × ((decoded vs inbuf t ≡ some v)
                              × (r ≡ call_with vs f (front ++ (param_arg v ∷ [])))))
                          ⊎ ((decoded vs inbuf t ≡ none)
                              × (r ≡ ok (gives_error unexpected_param_text)))))))))

module _ {V : Type 0} (vs : Values V) (f : GoFunc V) (op inbuf : Bytes) where
  with_params-Called :
      (front : List (Arg V)) (ts : List GoType) (t : GoType)
      → Front op front ts
      → last_input ts ≡ some t
      → Called vs f op inbuf ts (with_params vs f t front inbuf)
  unfolding with_params
  with_params-Called front ts t fit last =
      inr (inr (inr (front, t, (fit, (last, decoding (vs.unmarshal t inbuf) refl)))))
    where
      decoding :
          (d : V × Bool)
          → vs.unmarshal t inbuf ≡ d
          → ((v : V) × ((decoded vs inbuf t ≡ some v)
                × ((if d.1
                      then call_with vs f (front ++ (param_arg d.0 ∷ []))
                      else ok (gives_error unexpected_param_text))
                    ≡ call_with vs f (front ++ (param_arg v ∷ [])))))
            ⊎ ((decoded vs inbuf t ≡ none)
                × ((if d.1
                      then call_with vs f (front ++ (param_arg d.0 ∷ []))
                      else ok (gives_error unexpected_param_text))
                    ≡ ok (gives_error unexpected_param_text)))
      decoding (v, true) e = inl (v, (ap decode_flagged e, refl))
      decoding (v, false) e = inr (ap decode_flagged e, refl)

  no_inputs-Called : Ensures (λ h. Called vs f op inbuf [] (h op inbuf)) (no_inputs vs f)
  unfolding no_inputs
  no_inputs-Called = outputs (length f.type_of.outs == 2) f.type_of.is_error_func refl refl
    where
      outputs :
          (two exact : Bool)
          → (length f.type_of.outs == 2) ≡ two
          → f.type_of.is_error_func ≡ exact
          → Ensures
              (λ (h : ReqHandler). Called vs f op inbuf [] (h op inbuf))
              (if two
                then ok (λ op inbuf. call_with vs f [])
                else if exact
                then ok (λ op inbuf. run_direct f)
                else panic)
      outputs true exact e e' = inl (refl, e, refl)
      outputs false true e e' = inr (inl (refl, e, e', refl))
      outputs false false e e' = tt

  by_inputs-Called :
      (ts : List GoType) → Ensures (λ h. Called vs f op inbuf ts (h op inbuf)) (by_inputs vs f ts)
  unfolding by_inputs
  by_inputs-Called [] = no_inputs-Called
  by_inputs-Called (t ∷ []) =
      Ensures-sock_ptr (λ h. Called vs f op inbuf (t ∷ []) (h op inbuf)) t _ _
        (λ a fit. inr (inr (inl (a, t, (refl, (fit, refl))))))
        (λ none_taken. with_params-Called [] (t ∷ []) t (none_taken, refl) refl)
  by_inputs-Called (t0 ∷ t1 ∷ []) =
      Ensures-sock_ptr (λ h. Called vs f op inbuf (t0 ∷ t1 ∷ []) (h op inbuf)) t0 _ _
        (λ a fit. with_params-Called (a ∷ []) (t0 ∷ t1 ∷ []) t1 (a, (fit, refl)) refl)
        (λ none_taken. tt)
  by_inputs-Called (t0 ∷ t1 ∷ t2 ∷ []) =
      Ensures-sock_ptr (λ h. Called vs f op inbuf (t0 ∷ t1 ∷ t2 ∷ []) (h op inbuf)) t0 _ _
        (λ a fit.
          Ensures-string (λ h. Called vs f op inbuf (t0 ∷ t1 ∷ t2 ∷ []) (h op inbuf)) t1.is_string _
            (λ e.
              with_params-Called (a ∷ op_arg op ∷ []) (t0 ∷ t1 ∷ t2 ∷ []) t2 (a, (fit, (e, refl)))
                refl))
        (λ none_taken. tt)
  by_inputs-Called (t0 ∷ t1 ∷ t2 ∷ t3 ∷ ts) = tt

  -- A handler that `wrapFuncReqHandler` made of a function calls it with one argument for each
  -- input, in order. Without inputs it is called with nothing if it has two outputs, and otherwise
  -- as the `func() error` that it is. A single input that is a pointer to a `Sock`, or that a
  -- `Sock` converts to, gets the socket, as it is or converted. Otherwise the last input is the
  -- parameter and gets what was decoded of the payload; in front of it a function of two inputs
  -- gets the socket, and one of three the socket and the operation's name, for a string; and where
  -- the payload cannot be decoded for it the function is not called, and the handler returns the
  -- error of an unexpected parameter type.
  pub wrap_func_req_handler-Called :
      (h : ReqHandler)
      → wrap_func_req_handler vs f ≡ ok h
      → Called vs f op inbuf f.type_of.ins (h op inbuf)
  unfolding wrap_func_req_handler
  wrap_func_req_handler-Called h e =
      Ensures-ok (λ g. Called vs f op inbuf f.type_of.ins (g op inbuf)) _ h
        (Ensures-if _ (not f.type_of.is_func || bad_outs f.type_of.outs) _ _ tt
          (by_inputs-Called f.type_of.ins))
        e

  -- The arguments in front of a notification's parameter: none, or the name, or a socket and the name.
  abbrev pub NoteFront : List (Arg V) → List GoType → Type 0
  NoteFront front (t ∷ []) = front ≡ []
  NoteFront front (t0 ∷ t1 ∷ []) = (t0.is_string ≡ true) × (front ≡ op_arg op ∷ [])
  NoteFront front (t0 ∷ t1 ∷ t2 ∷ []) =
      (a : Arg V) × (TakesSock a t0 × ((t1.is_string ≡ true) × (front ≡ a ∷ op_arg op ∷ [])))
  NoteFront front _ = ⊥

  -- What a notification's function does: without inputs it is called with nothing if it is a `func()`,
  -- and is nil otherwise; with inputs the last is the parameter, which is what decoding left.
  abbrev pub NoteCalled : List GoType → Result (Unit {0}) → Type 0
  NoteCalled ts r =
      ((ts ≡ []) × ((f.type_of.is_plain_func ≡ true) × (r ≡ run_note f [])))
      ⊎ (((ts ≡ []) × ((f.type_of.is_plain_func ≡ false) × (r ≡ panic)))
          ⊎ ((front : List (Arg V)) × (t : GoType) × (NoteFront front ts
                × ((last_input ts ≡ some t)
                    × (r ≡ run_note f (front ++ (param_arg (vs.unmarshal t inbuf).0 ∷ [])))))))

  note_args-Called :
      (front : List (Arg V)) (ts : List GoType) (t : GoType)
      → NoteFront front ts
      → last_input ts ≡ some t
      → NoteCalled ts (run_note f (note_args vs t front inbuf))
  unfolding note_args
  note_args-Called front ts t fit last = inr (inr (front, t, (fit, (last, refl))))

  note_by_inputs-Called :
      (ts : List GoType) → Ensures (λ h. NoteCalled ts (h op inbuf)) (note_by_inputs vs f ts)
  unfolding note_by_inputs
  note_by_inputs-Called [] = plain f.type_of.is_plain_func refl
    where
      plain :
          (b : Bool)
          → f.type_of.is_plain_func ≡ b
          → NoteCalled [] (if b then run_note f [] else panic)
      plain true e = inl (refl, (e, refl))
      plain false e = inr (inl (refl, (e, refl)))
  note_by_inputs-Called (t ∷ []) = note_args-Called [] (t ∷ []) t refl refl
  note_by_inputs-Called (t0 ∷ t1 ∷ []) =
      Ensures-string (λ h. NoteCalled (t0 ∷ t1 ∷ []) (h op inbuf)) t0.is_string _
        (λ e. note_args-Called (op_arg op ∷ []) (t0 ∷ t1 ∷ []) t1 (e, refl) refl)
  note_by_inputs-Called (t0 ∷ t1 ∷ t2 ∷ []) =
      Ensures-sock_ptr (λ h. NoteCalled (t0 ∷ t1 ∷ t2 ∷ []) (h op inbuf)) t0 _ _
        (λ a fit.
          Ensures-string (λ h. NoteCalled (t0 ∷ t1 ∷ t2 ∷ []) (h op inbuf)) t1.is_string _
            (λ e.
              note_args-Called (a ∷ op_arg op ∷ []) (t0 ∷ t1 ∷ t2 ∷ []) t2 (a, (fit, (e, refl)))
                refl))
        (λ none_taken. tt)
  note_by_inputs-Called (t0 ∷ t1 ∷ t2 ∷ t3 ∷ ts) = tt

  -- A handler that `wrapFuncNotHandler` made of a function calls it with one argument for each
  -- input, in order. The last input is the parameter and gets what decoding left, even if the
  -- payload could not be decoded; a single input is that, whatever its type; in front of it a
  -- function of two inputs gets the notification's name, for a string, and one of three the socket,
  -- as it is or converted, and the name. Without inputs it is called with nothing if its type is
  -- `func()`, and otherwise the handler panics.
  pub wrap_func_not_handler-Called :
      (h : NoteHandler) → wrap_func_not_handler vs f ≡ ok h → NoteCalled f.type_of.ins (h op inbuf)
  unfolding wrap_func_not_handler
  wrap_func_not_handler-Called h e =
      Ensures-ok (λ g. NoteCalled f.type_of.ins (g op inbuf)) _ h
        (Ensures-if _ (not f.type_of.is_func || ltb 0 (length f.type_of.outs)) _ _ tt
          (note_by_inputs-Called f.type_of.ins))
        e
