-- ===== src/Examples/Wrapping.antt =====
-- A function of a socket, an operation's name and a parameter, as a handler. Its values are texts.
use gotalk.Common.{
  Bytes, [], false, true, not, ◌↔◌, ◌∷◌, length, ok, panic, ◌==◌, inl, some, none, refl,
}
use gotalk.Handlers.Wrap.Signatures.{Accepts, IsReqSignature, IsNoteSignature, wrap-Accepts}
use gotalk.Handlers.Wrap.Calls.{
  Called, NoteCalled, wrap_func_not_handler-Called, wrap_func_req_handler-Called,
}
use gotalk.Handlers.Wrap.{
  GoFunc, GoType, Values, with_params, wrap_func_req_handler, run_note, sock_arg, note_args, op_arg,
  wrap_func_not_handler, bad_outs, note_by_inputs, by_inputs, type_is_sock_ptr,
}
use gotalk.Examples.Sockets.{echo, hi}

abbrev text_type : GoType
text_type = record {
  number = 0;
  is_ptr = false;
  elem_assignable = false;
  elem_convertible = false;
  is_string = true;
  is_error = false;
}

abbrev sock_type : GoType
sock_type = record {
  number = 1;
  is_ptr = true;
  elem_assignable = true;
  elem_convertible = true;
  is_string = false;
  is_error = false;
}

abbrev error_type : GoType
error_type = record text_type { number = 2; is_string = false; is_error = true }

-- The empty text decodes to nothing, and is the nil error.
abbrev texts : Values Bytes
texts = record {
  unmarshal = λ t b. (b, not (length b == 0));
  marshal = λ v. inl v;
  is_nil = λ v. ok (length v == 0);
  as_error = λ v. some v;
  as_string = λ v. none;
}

abbrev reply : GoFunc Bytes
reply = record {
  type_of = record {
    is_func = true;
    ins = sock_type ∷ text_type ∷ text_type ∷ [];
    outs = text_type ∷ error_type ∷ [];
    is_error_func = false;
    is_plain_func = false;
  };
  call = λ args. ok (hi ∷ [] ∷ []);
  direct = panic;
}

abbrev hear : GoFunc Bytes
hear = record {
  type_of = record {
    is_func = true;
    ins = sock_type ∷ text_type ∷ text_type ∷ [];
    outs = [];
    is_error_func = false;
    is_plain_func = false;
  };
  call = λ args. ok [];
  direct = panic;
}

wrap-Accepts_example :
    (Accepts (wrap_func_req_handler texts reply) ↔ IsReqSignature reply.type_of)
    × (Accepts (wrap_func_not_handler texts reply) ↔ IsNoteSignature reply.type_of)
wrap-Accepts_example = wrap-Accepts texts reply

wrap_func_req_handler-Called_example :
    Called texts reply echo hi reply.type_of.ins
      (with_params texts reply text_type (sock_arg ∷ op_arg echo ∷ []) hi)
wrap_func_req_handler-Called_example =
    wrap_func_req_handler-Called texts reply echo hi
      (λ op inbuf. with_params texts reply text_type (sock_arg ∷ op_arg op ∷ []) inbuf)
      (unfold wrap_func_req_handler bad_outs by_inputs type_is_sock_ptr in refl)

wrap_func_not_handler-Called_example :
    NoteCalled texts hear echo [] hear.type_of.ins
      (run_note hear (note_args texts text_type (sock_arg ∷ op_arg echo ∷ []) []))
wrap_func_not_handler-Called_example =
    wrap_func_not_handler-Called texts hear echo []
      (λ name inbuf. run_note hear (note_args texts text_type (sock_arg ∷ op_arg name ∷ []) inbuf))
      (unfold wrap_func_not_handler note_by_inputs type_is_sock_ptr in refl)
