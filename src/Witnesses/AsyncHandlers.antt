-- ===== src/Witnesses/AsyncHandlers.antt =====
-- Asynchronous calls of a netref and of a local function.
use rpyc_async.Prelude.{◌≡◌, refl, true, false, [], ◌∷◌, some}
use rpyc_async.Outcome.{ok}
use rpyc_async.Protocol.AsyncHandlers.{
  Awaits, plain, async_result, a_netref, a_local, asks_call, handle_async_call,
}

abbrev world : Awaits
world = record { await_coroutine = λ c. ok (plain c); await_result = λ r. ok (plain r) }

netref_awaited :
    handle_async_call world (a_netref (some true) (ok (async_result 5)))
    ≡ (asks_call ∷ [], ok (plain 5))
unfolding handle_async_call
netref_awaited = refl

-- A plain function that returns a pending result sends it back as it is.
local_unawaited :
    handle_async_call world (a_local (some false) (ok (async_result 5))) ≡ ([], ok (async_result 5))
unfolding handle_async_call
local_unawaited = refl
