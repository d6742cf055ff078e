-- ===== src/Protocol/Serving.antt =====
-- `serve`, the lock in `_dispatch`, `poll_all`, `serve_all`, and the wait for a result
-- (`AsyncResult.wait` and `value` of rpyc_async/core/async_.py), with threads not bound. The handlers that
-- a request runs are as good as the lock they leave: nested calls of `serve` give back what they take.
pub mod Balanced
pub mod Loops
pub mod Waiting
use rpyc_async.Prelude.{
  ℕ, zero, suc, ◌+◌, Bool, true, false, List, [], ◌∷◌, Option, none, some, not, ◌&&◌, ◌||◌,
  if◌then◌else◌,
}
use rpyc_async.Outcome.{
  Exc, Outcome, ok, raise, out_of_fuel, value_error, runtime_error, eof_error, os_error,
  timeout_error, ◌>>=◌,
}

-- What becomes of a frame's body: loading, unboxing and the call of the callback, or the dispatch of
-- the request. It may run `_cleanup`, as the handler of HANDLE_CLOSE does. Calls of `serve` inside it
-- count for themselves.
pub record Body : Type 0 where
  pub outcome : Outcome (Unit {0})
  pub cleans_up : Bool

-- A frame by its type.
pub data Frame : Type 0 where
  request reply exception async_reply async_exception : Body → Frame
  invalid : Frame

-- `_recvlock.release()`, where the thread holds the lock as often as the number says.
abbrev pub release : ℕ → Outcome ℕ
release zero = raise runtime_error
release (suc n) = ok n

abbrev pub release_unless : Bool → ℕ → Outcome ℕ
release_unless true n = ok n
release_unless false n = release n

-- `_cleanup` releases the lock, and passes over that the thread does not hold it.
abbrev pub cleanup : Bool → ℕ → ℕ
cleanup true zero = zero
cleanup true (suc n) = n
cleanup false n = n

abbrev pub first_release : ℕ → Outcome ℕ → Body → Outcome (Unit {0}) × ℕ
first_release n (ok m) body = (body.outcome, cleanup body.cleans_up m)
first_release n (raise e) body = (raise e, n)
first_release n out_of_fuel body = (out_of_fuel, n)

abbrev pub last_release : ℕ → Outcome ℕ → Outcome (Unit {0}) × ℕ
last_release n (ok m) = (ok tt, m)
last_release n (raise e) = (raise e, n)
last_release n out_of_fuel = (out_of_fuel, n)

-- `n` is how often the thread holds the lock behind the body.
abbrev pub then_release : Bool → ℕ → Outcome (Unit {0}) → Outcome (Unit {0}) × ℕ
then_release asyncio_enabled n (ok u) = last_release n (release_unless asyncio_enabled n)
then_release asyncio_enabled n (raise e) = (raise e, n)
then_release asyncio_enabled n out_of_fuel = (out_of_fuel, n)

-- `_dispatch`: a request and an exception release the lock first, a reply releases it last.
unfoldable pub dispatch : Bool → Frame → ℕ → Outcome (Unit {0}) × ℕ
dispatch asyncio_enabled (request body) n = first_release n (release_unless asyncio_enabled n) body
dispatch asyncio_enabled (reply body) n =
    then_release asyncio_enabled (cleanup body.cleans_up n) body.outcome
dispatch asyncio_enabled (exception body) n =
    first_release n (release_unless asyncio_enabled n) body
dispatch asyncio_enabled (async_reply body) n =
    then_release asyncio_enabled (cleanup body.cleans_up n) body.outcome
dispatch asyncio_enabled (async_exception body) n =
    first_release n (release_unless asyncio_enabled n) body
dispatch asyncio_enabled invalid n = (raise value_error, n)

-- What `poll` and `recv` of the channel give.
pub data Received : Type 0 where
  nothing : Received
  fails : Exc → Received
  frame : Frame → Received

-- A call of `serve`: whether another thread holds the lock, `wait_for_lock`, what `waiting()` says
-- before and behind the acquisition, what the wait on the condition returns, what is received, and whether `close`
-- has been called already. The calls of `serve` in which `close` waits for the peer count for themselves.
pub record Call : Type 0 where
  pub taken : Bool
  pub wait_for_lock : Bool
  pub waiting_outside : Bool
  pub waiting_inside : Bool
  pub woken : Bool
  pub received : Received
  pub is_closed : Bool

-- How a call of `serve` ends, how often its thread then holds the lock, and whether it has closed
-- the connection and told the waiting threads.
pub record Served : Type 0 where
  pub result : Outcome Bool
  pub depth : ℕ
  pub closes : Bool
  pub notifies : Bool

abbrev pub is_eof : Exc → Bool
is_eof eof_error = true
is_eof e = false

abbrev pub served_frame : Outcome (Unit {0}) × ℕ → Served
served_frame (ok u, n) = record { result = ok true; depth = n; closes = false; notifies = true }
served_frame (raise e, n) = record { result = raise e; depth = n; closes = false; notifies = true }
served_frame (out_of_fuel, n) = record {
  result = out_of_fuel;
  depth = n;
  closes = false;
  notifies = true;
}

-- The part under the lock, which the thread now holds `suc n` times.
unfoldable pub receive : Bool → Bool → Received → ℕ → Served
unfolding dispatch
receive is_closed asyncio_enabled nothing n = record {
  result = ok false;
  depth = n;
  closes = false;
  notifies = true;
}
receive is_closed asyncio_enabled (fails e) n = record {
  result = raise e;
  depth = cleanup (is_eof e && not is_closed) n;
  closes = is_eof e && not is_closed;
  notifies = true;
}
receive is_closed asyncio_enabled (frame f) n = served_frame (dispatch asyncio_enabled f (suc n))

unfoldable pub serve : Bool → Call → ℕ → Served
unfolding receive
serve asyncio_enabled c n =
    if c.taken
    then record {
      result = ok (c.wait_for_lock && (c.waiting_outside && c.woken));
      depth = n;
      closes = false;
      notifies = false;
    }
    else if not c.waiting_inside
    then record { result = ok false; depth = n; closes = false; notifies = true }
    else receive c.is_closed asyncio_enabled c.received n

-- `poll_all`: the results of `poll`, each with whether the time was up behind it.
unfoldable pub poll_all : Bool → List (Outcome Bool × Bool) → Option (Outcome Bool)
poll_all at_least_once [] = none
poll_all at_least_once ((ok served, up) ∷ polls) =
    let once = at_least_once || served in
    let rest = poll_all once polls in if up then some (ok once) else rest
poll_all at_least_once ((raise e, up) ∷ polls) =
    some (if is_eof e then ok at_least_once else raise e)
poll_all at_least_once ((out_of_fuel, up) ∷ polls) = some out_of_fuel

-- A round of `serve_all`: whether the connection is closed at its head, what `serve` does, and
-- whether it is closed behind it.
pub record Round : Type 0 where
  pub closed_before : Bool
  pub outcome : Outcome Bool
  pub closed_after : Bool

abbrev pub passes : Exc → Bool → Outcome (Unit {0})
passes eof_error closed = ok tt
passes os_error closed = if closed then ok tt else raise os_error
passes e closed = raise e

-- `serve_all`: how the loop ends, if it does; `close` follows in any case.
unfoldable pub serve_loop : List Round → Option (Outcome (Unit {0}))
serve_loop [] = none
serve_loop (r ∷ rounds) =
    let rest = serve_loop rounds in
    if r.closed_before then some (ok tt) else elim r.outcome [
      | ok served ↦ rest
      | raise e ↦ some (passes e r.closed_after)
      | out_of_fuel ↦ some out_of_fuel
    ]
