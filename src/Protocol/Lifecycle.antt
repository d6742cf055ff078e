-- ===== src/Protocol/Lifecycle.antt =====
-- How a connection ends: `close`, `aclose`, `_cleanup`, the close callbacks and waiters, and the
-- reader on the event loop. Threads, locks and the logger are left out; event loops stay open.
pub mod Steps
pub mod Ends
pub mod Keeps
pub mod Fires
pub mod Once
pub mod Abandoned
use rpyc_async.Prelude.{
  ℕ, zero, suc, ◌-◌, Bool, true, false, ◌&&◌, ◌||◌, not, List, [], ◌∷◌, ◌++◌, ltb, ◌==◌,
  if◌then◌else◌,
}
use rpyc_async.Outcome.{
  Exc, system_exit, keyboard_interrupt, Exc, eof_error, timeout_error, attribute_error, Outcome, ok,
  raise, out_of_fuel, ◌>>=◌,
}
use rpyc_async.Protocol.Dispatch.{Inbound, drain}
use rpyc_async.Protocol.Cleanup.{
  Connection, Service, new_connection, unregister_reader, channel_close, fire_close_notifications,
  tear_down, followed_by, cleanup, disable_asyncio_serving,
}

-- What one call of `close` or `aclose` meets: how the queued deletions and the request
-- HANDLE_CLOSE end, and whether the peer's own HANDLE_CLOSE is served while `close` waits.
pub record Farewell : Type 0 where
  pub deletions : Outcome (Unit {0})
  pub request : Outcome (Unit {0})
  pub crosses : Bool

-- `except Exception`, where `close_catchall` is set.
abbrev pub swallows : Bool → Exc → Bool
swallows catchall system_exit = false
swallows catchall keyboard_interrupt = false
swallows catchall e = catchall

-- The `except` clauses of `close`.
unfoldable pub catch : Bool → Outcome (Unit {0}) → Outcome (Unit {0})
catch catchall (ok u) = ok u
catch catchall (raise eof_error) = ok tt
catch catchall (raise timeout_error) = ok tt
catch catchall (raise e) = if swallows catchall e then ok tt else raise e
catch catchall out_of_fuel = out_of_fuel

-- The body of the `try` of `close`.
unfoldable pub say_goodbye : Service → Farewell → Connection → Outcome (Unit {0}) × Connection
unfolding disable_asyncio_serving cleanup followed_by
say_goodbye c f s =
    let s1 = disable_asyncio_serving s in
    let s2 = if f.crosses then (cleanup c true s1).1 else s1 in
    followed_by f.deletions s (followed_by c.before_closed s1 (f.request, s2))

-- What the `finally` clause raises goes first.
unfoldable pub close : Service → Farewell → Connection → Outcome (Unit {0}) × Connection
unfolding say_goodbye cleanup catch
close c f s =
    if s.closed
    then (ok tt, s)
    else (let (r, s1) = say_goodbye c f (record s { closed = true }) in
        let (q, s2) = cleanup c true s1 in (q >>= λ u. catch c.close_catchall r, s2))

-- A request that raises EOFError has closed the stream.
unfoldable pub after_error : Exc → Connection → Connection
unfolding channel_close
after_error eof_error s = channel_close s
after_error e s = s

-- `_async_request(HANDLE_CLOSE)` in `aclose`, which then waits.
unfoldable pub ask_aclose : Bool → Outcome (Unit {0}) → Connection → Outcome (Unit {0}) × Connection
unfolding after_error
ask_aclose catchall (ok u) s = (ok tt, record s { closing = suc s.closing })
ask_aclose catchall (raise e) s =
    let s' = after_error e s in
    if swallows catchall e then (ok tt, record s' { closing = suc s'.closing }) else (raise e, s')
ask_aclose catchall out_of_fuel s = (out_of_fuel, s)

-- `aclose` until it waits.
unfoldable pub aclose : Service → Farewell → Connection → Outcome (Unit {0}) × Connection
unfolding ask_aclose
aclose c f s = if s.closed then (ok tt, s) else ask_aclose c.close_catchall f.request s

-- `aclose` after `await asyncio.sleep(0)`.
unfoldable pub resume_aclose : Service → Connection → Outcome (Unit {0}) × Connection
unfolding disable_asyncio_serving cleanup
resume_aclose c s =
    if ltb 0 s.closing
    then cleanup c true
        (disable_asyncio_serving (record s { closing = s.closing - 1; closed = true }))
    else (ok tt, s)

unfoldable pub close_and_remove_reader : Service → Farewell → Connection → Connection
unfolding unregister_reader close
close_and_remove_reader c f s = (close c f (unregister_reader s)).1

-- What boxing adds to `_local_objects` and unboxing to `_proxy_cache`; neither asks whether the
-- connection has ended.
unfoldable pub hold : List ℕ → List ℕ → Connection → Connection
hold objects proxies s = record s {
  local_objects = objects ++ s.local_objects;
  proxies = proxies ++ s.proxies;
  late_objects = if s.root then s.late_objects else objects ++ s.late_objects;
  late_proxies = if s.root then s.late_proxies else proxies ++ s.late_proxies;
}

-- A frame: the peer's HANDLE_CLOSE with what its reply boxes, one whose dispatch raises EOFError, or
-- any other with what its dispatch boxes and unboxes.
pub data Frame : Type 0 where
  dies : Frame
  closes serves : List ℕ → List ℕ → Frame

-- The handler of HANDLE_CLOSE ends the connection; its reply then raises EOFError.
unfoldable pub dispatch_frames : Service → Farewell → List Frame → Connection → Connection
unfolding cleanup close_and_remove_reader hold
dispatch_frames c f [] s = s
dispatch_frames c f (closes objects proxies ∷ frames) s =
    close_and_remove_reader c f (hold objects proxies (cleanup c true s).1)
dispatch_frames c f (dies ∷ frames) s = close_and_remove_reader c f s
dispatch_frames c f (serves objects proxies ∷ frames) s =
    dispatch_frames c f frames (hold objects proxies s)

-- What `recv_available` gives. A hard error closes the stream.
pub data Chunk : Type 0 where
  hard_error nothing end_of_stream : Chunk
  carries : List Frame → Chunk

unfoldable pub receive : Service → Farewell → Chunk → Connection → Connection
unfolding channel_close close_and_remove_reader dispatch_frames
receive c f hard_error s = close_and_remove_reader c f (channel_close s)
receive c f nothing s = s
receive c f end_of_stream s = close_and_remove_reader c f s
receive c f (carries frames) s = dispatch_frames c f frames s

-- The loop calls it only while the reader is registered.
unfoldable pub on_readable : Service → Farewell → Chunk → Connection → Connection
unfolding unregister_reader receive
on_readable c f chunk s =
    if not s.reader
    then s
    else if s.closed || s.channel_closed
    then unregister_reader s
    else receive c f chunk s

-- On a closed channel `fileno` raises, when the connection is already marked.
unfoldable pub enable_asyncio_serving : Connection → Outcome (Unit {0}) × Connection
enable_asyncio_serving s =
    if s.asyncio_enabled
    then (ok tt, s)
    else if s.channel_closed
    then (raise eof_error, record s { asyncio_enabled = true })
    else (ok tt, record s { asyncio_enabled = true; reader = true; hooked = true })

-- `_send_async_result_safe` where the send raises: the stream closes, and the flag is set.
unfoldable pub send_async_result_safe : Bool → Connection → Connection
unfolding channel_close
send_async_result_safe sends s =
    if s.closed then s else if sends then s else record (channel_close s) { closed = true }

unfoldable pub add_close_callback : ℕ → Connection → Connection
add_close_callback callback s =
    if s.closed
    then record s { fired = s.fired ++ callback ∷ [] }
    else record s { callbacks = s.callbacks ++ callback ∷ [] }

unfoldable pub wait_closed : ℕ → Connection → Connection
wait_closed waiter s =
    if s.closed
    then record s { resolved = s.resolved ++ waiter ∷ [] }
    else record s { waiters = s.waiters ++ waiter ∷ [] }

pub data Event : Type 0 where
  adds waits : ℕ → Event
  calls_close calls_aclose : Farewell → Event
  resumes enables : Event
  readable : Farewell → Chunk → Event
  replies : Bool → Event
  holds : List ℕ → List ℕ → Event

unfoldable pub happen : Service → Event → Connection → Connection
unfolding add_close_callback wait_closed close aclose resume_aclose enable_asyncio_serving
    on_readable send_async_result_safe hold
happen c (adds callback) s = add_close_callback callback s
happen c (waits waiter) s = wait_closed waiter s
happen c (calls_close f) s = (close c f s).1
happen c (calls_aclose f) s = (aclose c f s).1
happen c (holds objects proxies) s = hold objects proxies s
happen c resumes s = (resume_aclose c s).1
happen c enables s = (enable_asyncio_serving s).1
happen c (readable f chunk) s = on_readable c f chunk s
happen c (replies sends) s = send_async_result_safe sends s

unfoldable pub run : Service → List Event → Connection → Connection
unfolding happen
run c [] s = s
run c (e ∷ events) s = run c events (happen c e s)
