-- ===== src/Witnesses/Serving.antt =====
-- Calls of `serve` that receive a request and a frame of no type, and waits for a result.
use rpyc_async.Prelude.{true, false, [], ◌∷◌, some, ◌≡◌, refl}
use rpyc_async.Outcome.{eof_error, ok, raise, timeout_error, value_error, runtime_error}
use rpyc_async.Protocol.Results.{fresh_result, call, expired}
use rpyc_async.Protocol.Serving.{
  fails, Frame, request, invalid, dispatch, frame, Call, receive, serve,
}
use rpyc_async.Protocol.Serving.Balanced
use rpyc_async.Protocol.Serving.Balanced.{leaves_lock, is_left, failed}
use rpyc_async.Protocol.Serving.Waiting.{
  quiet, replies, echoed, ping_error, wait, value, sync_request, ping,
}

abbrev receiving : Frame → Call
receiving f = record {
  taken = false;
  wait_for_lock = true;
  waiting_outside = true;
  waiting_inside = true;
  woken = false;
  received = frame f;
  is_closed = false;
}

-- A request gives the lock back, whatever its handler does.
request_released :
    (serve false
      (receiving (request (record { outcome = raise value_error; cleans_up = false })))
      0).depth
    ≡ 0
unfolding serve receive dispatch
request_released = refl

-- A nested call that meets the end of the stream takes the lock away from the call around it.
end_of_stream :
    (serve false (record (receiving invalid) { received = fails eof_error }) 1).depth ≡ 0
unfolding serve receive
end_of_stream = refl

-- A reply behind one round in which nothing comes.
echo : ping 5 (quiet false ∷ replies false false 5 false ∷ []) ≡ some (ok echoed)
unfolding ping value wait fresh_result call expired
echo = refl

echo_differs : ping 5 (replies false false 6 false ∷ []) ≡ some (ok ping_error)
unfolding ping value wait fresh_result call expired
echo_differs = refl

-- On its own loop, a call is refused, and another request times out.
call_refused : sync_request true true 7 (quiet true ∷ []) ≡ some (raise runtime_error)
unfolding sync_request value wait fresh_result
call_refused = refl

getattr_waits : sync_request true true 4 (quiet true ∷ []) ≡ some (raise timeout_error)
unfolding sync_request value wait fresh_result
getattr_waits = refl
