-- ===== src/Protocol/AsyncHandlers/Settled.antt =====
-- What the handler sends back.
use rpyc_async.Prelude.{ℕ, true, false, none, some}
use rpyc_async.Outcome.{Outcome, ok, raise, out_of_fuel}
use rpyc_async.Protocol.AsyncHandlers.{
  Value, plain, coroutine, async_result, Awaits, Callee, a_coroutine, a_netref, a_local,
  call_flagged, handle_async_call,
}

-- A call that returned a plain value.
abbrev pub Plain : Outcome Value → Type 0
Plain (ok (plain v)) = Unit
Plain (ok (coroutine c)) = ⊥
Plain (ok (async_result r)) = ⊥
Plain (raise e) = Unit
Plain out_of_fuel = Unit

-- A call that did not return a pending result.
abbrev pub NoResult : Outcome Value → Type 0
NoResult (ok (plain v)) = Unit
NoResult (ok (coroutine c)) = Unit
NoResult (ok (async_result r)) = ⊥
NoResult (raise e) = Unit
NoResult out_of_fuel = Unit

-- Only what is called as an asynchronous function returns pending results.
abbrev pub Declares : Callee → Type 0
Declares (a_coroutine c) = Unit
Declares (a_netref (some true) called) = Unit
Declares (a_netref (some false) called) = NoResult called
Declares (a_netref none called) = NoResult called
Declares (a_local (some true) called) = Unit
Declares (a_local (some false) called) = NoResult called
Declares (a_local none called) = NoResult called

module _ (w : Awaits) (coroutines : (c : ℕ) → Plain (w.await_coroutine c))
    (results : (r : ℕ) → Plain (w.await_result r)) where
  flagged-Plain : (called : Outcome Value) → Plain (call_flagged w true called)
  flagged-Plain (ok (plain v)) = tt
  flagged-Plain (ok (coroutine c)) = coroutines c
  flagged-Plain (ok (async_result r)) = results r
  flagged-Plain (raise e) = tt
  flagged-Plain out_of_fuel = tt

  unflagged-Plain : (called : Outcome Value) → NoResult called → Plain (call_flagged w false called)
  unflagged-Plain (ok (plain v)) h = tt
  unflagged-Plain (ok (coroutine c)) h = coroutines c
  unflagged-Plain (ok (async_result r)) h = absurd h
  unflagged-Plain (raise e) h = tt
  unflagged-Plain out_of_fuel h = tt

  -- Where what is awaited gives plain values or raises, and a call returns a pending result only
  -- for an object that is flagged as an asynchronous function, _handle_async_call returns a plain
  -- value or raises: for coroutines, netrefs with and without the flag, and local objects, also
  -- where iscoroutinefunction raises.
  pub handle_async_call-Plain : (obj : Callee) → Declares obj → Plain (handle_async_call w obj).1
  unfolding handle_async_call
  handle_async_call-Plain (a_coroutine c) h = coroutines c
  handle_async_call-Plain (a_netref (some true) called) h = flagged-Plain called
  handle_async_call-Plain (a_netref (some false) called) h = unflagged-Plain called h
  handle_async_call-Plain (a_netref none called) h = unflagged-Plain called h
  handle_async_call-Plain (a_local (some true) called) h = flagged-Plain called
  handle_async_call-Plain (a_local (some false) called) h = unflagged-Plain called h
  handle_async_call-Plain (a_local none called) h = unflagged-Plain called h
