-- ===== src/Protocol/Serving/Balanced.antt =====
-- The lock that a call of `serve` takes and gives back.
use rpyc_async.Prelude.{ℕ, Bool, true, false, not, ◌&&◌, ◌||◌, if◌then◌else◌}
use rpyc_async.Outcome.{Outcome, ok, raise, out_of_fuel}
use rpyc_async.Protocol.Serving.{
  Frame, request, reply, exception, async_reply, async_exception, invalid, is_eof, Received,
  nothing, fails, frame,
}

abbrev pub failed : Outcome (Unit {0}) → Bool
failed (ok u) = false
failed (raise e) = true
failed out_of_fuel = true

-- A frame behind which nothing releases the lock: one of no type, and a reply that cannot be loaded
-- or unboxed, or whose callback raises.
abbrev pub is_left : Frame → Bool
is_left (request body) = false
is_left (reply body) = failed body.outcome
is_left (exception body) = false
is_left (async_reply body) = failed body.outcome
is_left (async_exception body) = false
is_left invalid = true

abbrev pub body_cleans : Frame → Bool
body_cleans (request body) = body.cleans_up
body_cleans (reply body) = body.cleans_up
body_cleans (exception body) = body.cleans_up
body_cleans (async_reply body) = body.cleans_up
body_cleans (async_exception body) = body.cleans_up
body_cleans invalid = false

-- The connection is cleaned up in the call: at the end of the stream, where it was not closed yet,
-- or by what the frame runs.
abbrev pub cleans : Bool → Received → Bool
cleans is_closed nothing = false
cleans is_closed (fails e) = is_eof e && not is_closed
cleans is_closed (frame f) = body_cleans f

-- The call receives a frame behind which nothing releases the lock.
abbrev pub leaves_lock : Bool → Received → Bool
leaves_lock asyncio_enabled nothing = false
leaves_lock asyncio_enabled (fails e) = false
leaves_lock asyncio_enabled (frame f) = asyncio_enabled || is_left f

abbrev pub one : Bool → ℕ
one b = if b then 1 else 0
