-- ===== src/Protocol/AsyncHandlers.antt =====
-- rpyc_async/core/async_handlers.py: `_handle_async_call` and `_handle_async_callattr`. What an object
-- does when it is called with the arguments of the request comes with the object; plain values,
-- coroutines and pending results are numbers.
pub mod Settled
use rpyc_async.Prelude.{ℕ, Bool, true, false, List, [], ◌∷◌, Option, none, some}
use rpyc_async.Outcome.{Exc, Outcome, ok, raise, out_of_fuel, ◌>>=◌}

pub data Value : Type 0 where
  plain coroutine async_result : ℕ → Value

-- What an `await` gives.
pub record Awaits : Type 0 where
  pub await_coroutine : ℕ → Outcome Value
  pub await_result : ℕ → Outcome Value

-- A coroutine; a netref with `____is_async__`, where it has that slot; or a local object with the
-- answer of `iscoroutinefunction`, unless that raises.
pub data Callee : Type 0 where
  a_coroutine : ℕ → Callee
  a_netref : Option Bool → Outcome Value → Callee
  a_local : Option Bool → Outcome Value → Callee

-- The requests to the peer of a netref that the handler makes itself.
pub data Asked : Type 0 where
  asks_call asks_getattr : Asked

abbrev pub flag : Option Bool → Bool
flag none = false
flag (some b) = b

-- `await result` for what is awaited whatever it is: a plain value raises TypeError.
abbrev pub await_value : Awaits → Value → Outcome Value
await_value w (plain v) = raise Exc.type_error
await_value w (coroutine c) = w.await_coroutine c
await_value w (async_result r) = w.await_result r

-- `if inspect.iscoroutine(result): result = await result`
abbrev pub await_coroutine_only : Awaits → Value → Outcome Value
await_coroutine_only w (plain v) = ok (plain v)
await_coroutine_only w (coroutine c) = w.await_coroutine c
await_coroutine_only w (async_result r) = ok (async_result r)

abbrev pub call_flagged : Awaits → Bool → Outcome Value → Outcome Value
call_flagged w true called = called >>= await_value w
call_flagged w false called = called >>= await_coroutine_only w

unfoldable pub handle_async_call : Awaits → Callee → List Asked × Outcome Value
handle_async_call w (a_coroutine c) = ([], w.await_coroutine c)
handle_async_call w (a_netref is_async called) =
    (asks_call ∷ [], call_flagged w (flag is_async) called)
handle_async_call w (a_local is_coro_func called) = ([], call_flagged w (flag is_coro_func) called)

-- `_handle_getattr` gives the attribute, or raises.
unfoldable pub handle_async_callattr : Awaits → Outcome Callee → List Asked × Outcome Value
unfolding handle_async_call
handle_async_callattr w (ok attr) = handle_async_call w attr
handle_async_callattr w (raise e) = ([], raise e)
handle_async_callattr w out_of_fuel = ([], out_of_fuel)
