-- ===== src/Handlers/Defaults.antt =====
-- handle.go: `DefaultHandlers`, the first object, and the functions of the package that register at it.
use gotalk.Common.{Bytes, [], ℕ, Option, Result}
use gotalk.Handlers.{
  Store, FuncId, handle_buffer_request, handle_stream_request, handle_buffer_notification,
  new_handlers,
}
use gotalk.Handlers.Wrap.{handle, handle_notification, Values, GoFunc}

abbrev pub default_handlers : ℕ
default_handlers = 0

unfoldable pub first_store : Store
first_store = (new_handlers []).0

unfoldable pub default_handle :
    {V : Type 0} → Values V → Bytes → GoFunc V → FuncId → Store → Result Store
default_handle vs op f wrapper st = handle vs default_handlers op f wrapper st

unfoldable pub default_handle_buffer_request : Bytes → Option FuncId → Store → Store
default_handle_buffer_request op fn st = handle_buffer_request default_handlers op fn st

unfoldable pub default_handle_stream_request : Bytes → Option FuncId → Store → Store
default_handle_stream_request op fn st = handle_stream_request default_handlers op fn st

unfoldable pub default_handle_notification :
    {V : Type 0} → Values V → Bytes → GoFunc V → FuncId → Store → Result Store
default_handle_notification vs name f wrapper st =
    handle_notification vs default_handlers name f wrapper st

unfoldable pub default_handle_buffer_notification : Bytes → Option FuncId → Store → Store
default_handle_buffer_notification name fn st =
    handle_buffer_notification default_handlers name fn st
