-- ===== src/Examples/Lookups.antt =====
-- A set of handlers with "echo" and a fallback, and sub-handlers of it.
use gotalk.Common.{◌≡◌, refl, arith, [], ◌∷◌, Bytes, bytes_eq, if◌then◌else◌, none, some}
use gotalk.Handlers.{
  Handlers, Store, no_entries, new_sub_handlers, handle_buffer_request, handle_stream_request,
  handle_buffer_notification, find_buffer_request_handler, find_stream_request_handler,
  find_notification_handler, find,
}
use gotalk.Handlers.Lookup.{chain, resolve, find-resolve}
use gotalk.Handlers.Aliasing.{object, find-handle, handle-fallback_unused, find-new_sub_handlers}

abbrev echo_name : Bytes
echo_name = b'e' ∷ b'c' ∷ b'h' ∷ b'o' ∷ []

abbrev greet_name : Bytes
greet_name = b'g' ∷ b'r' ∷ b'e' ∷ b'e' ∷ b't' ∷ []

abbrev hi_name : Bytes
hi_name = b'h' ∷ b'i' ∷ []

abbrev base : Handlers
base = record {
  buf_req = record { entries = (echo_name, some 1) ∷ []; fallback = some 2 };
  stream_req = no_entries;
  notes = no_entries;
  outer = none;
}

abbrev sub : Handlers
sub = record {
  buf_req = record { entries = (greet_name, some 3) ∷ []; fallback = none };
  stream_req = no_entries;
  notes = no_entries;
  outer = some 0;
}

abbrev handlers : Store
handlers = sub ∷ base ∷ []

find-resolve_example :
    find (λ h. h.buf_req) handlers 1 echo_name
    ≡ resolve (λ h. h.buf_req) echo_name (chain handlers 1)
find-resolve_example =
    find-resolve (λ h. h.buf_req) handlers 1 echo_name (omega arith, (tt, tt)) (omega arith)

find-handle_example :
    (find_buffer_request_handler (handle_buffer_request 1 echo_name (some 9) handlers) 1 greet_name
      ≡ (if bytes_eq echo_name greet_name
          then some 9
          else find_buffer_request_handler handlers 1 greet_name))
    × (find_stream_request_handler
          (handle_stream_request 1 echo_name (some 9) handlers)
          1
          greet_name
        ≡ (if bytes_eq echo_name greet_name
            then some 9
            else find_stream_request_handler handlers 1 greet_name))
    × (find_notification_handler
          (handle_buffer_notification 1 echo_name (some 9) handlers)
          1
          greet_name
        ≡ (if bytes_eq echo_name greet_name
            then some 9
            else find_notification_handler handlers 1 greet_name))
find-handle_example = find-handle handlers 1 echo_name greet_name 9 (omega arith) (λ e. cc e)

handle-fallback_unused_example :
    (find_buffer_request_handler (handle_buffer_request 1 [] (some 9) handlers) 1 hi_name
      ≡ find_buffer_request_handler handlers 1 hi_name)
    × (find_stream_request_handler (handle_stream_request 1 [] (some 9) handlers) 1 hi_name
        ≡ find_stream_request_handler handlers 1 hi_name)
    × (find_notification_handler (handle_buffer_notification 1 [] (some 9) handlers) 1 hi_name
        ≡ find_notification_handler handlers 1 hi_name)
unfolding object
handle-fallback_unused_example =
    handle-fallback_unused handlers 1 1 0 sub (some 9) hi_name refl refl

find-new_sub_handlers_example :
    (find_buffer_request_handler
        (new_sub_handlers 1 handlers).0
        (new_sub_handlers 1 handlers).1
        echo_name
      ≡ find_buffer_request_handler handlers 1 echo_name)
    × (find_stream_request_handler
          (new_sub_handlers 1 handlers).0
          (new_sub_handlers 1 handlers).1
          echo_name
        ≡ find_stream_request_handler handlers 1 echo_name)
    × (find_notification_handler
          (new_sub_handlers 1 handlers).0
          (new_sub_handlers 1 handlers).1
          echo_name
        ≡ find_notification_handler handlers 1 echo_name)
    × (find_buffer_request_handler (new_sub_handlers 1 handlers).0 0 echo_name
        ≡ find_buffer_request_handler handlers 0 echo_name)
    × (find_stream_request_handler (new_sub_handlers 1 handlers).0 0 echo_name
        ≡ find_stream_request_handler handlers 0 echo_name)
    × (find_notification_handler (new_sub_handlers 1 handlers).0 0 echo_name
        ≡ find_notification_handler handlers 0 echo_name)
find-new_sub_handlers_example = find-new_sub_handlers handlers 1 0 echo_name (omega arith)
