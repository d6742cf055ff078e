-- ===== src/Protocol/Requests.antt =====
-- `_dispatch_request`, `_dispatch_request_async` and the tasks that await a coroutine: what is sent
-- for a request. Threads are not bound, and the logger is left out.
pub mod Accounts
pub mod Answered
use rpyc_async.Prelude.{
  ℕ, zero, suc, Bool, true, false, ◌&&◌, List, [], ◌∷◌, ◌++◌, Option, none, some, ltb, leb,
  if◌then◌else◌,
}
use rpyc_async.Outcome.{
  Exc, runtime_error, eof_error, os_error, system_exit, keyboard_interrupt, Outcome, ok, raise,
  out_of_fuel, ◌>>=◌,
}
use rpyc_async.Protocol.Dispatch.{Inbound, enter_quarantine, schedule, on_done}

pub data Kind : Type 0 where
  reply exception async_reply async_exception : Kind

-- How unboxing, finding the handler and calling it end, and what boxing gives for the value or the
-- exception.
pub data Final : Type 0 where
  value : Outcome (Unit {0}) → Final
  throws : Exc → Outcome (Unit {0}) → Final

-- What a handler gives at once: an end, or a coroutine.
pub data Call : Type 0 where
  final : Final → Call
  coroutine : Call

pub record Limits : Type 0 where
  pub asyncio_enabled : Bool
  pub max_inbound_inflight : ℕ
  pub propagate_system_exit : Bool
  pub propagate_keyboard_interrupt : Bool

-- A task: whether it awaits the coroutine of a synchronous handler, and its request.
pub record Task : Type 0 where
  pub late : Bool
  pub seq : ℕ

-- `waiting` are the calls of `_schedule` in the event loop, `tasks` those that run; `silent` are the
-- requests whose work ended and for which nothing was sent.
pub record State : Type 0 where
  pub closed : Bool
  pub inbound : Inbound
  pub waiting : List Task
  pub tasks : List Task
  pub sent : List (Kind × ℕ)
  pub silent : List ℕ

unfoldable pub propagates : Limits → Exc → Bool
propagates c system_exit = c.propagate_system_exit
propagates c keyboard_interrupt = c.propagate_keyboard_interrupt
propagates c e = false

unfoldable pub say : Kind → ℕ → State → State
say kind seq s = record s { sent = s.sent ++ (kind, seq) ∷ [] }

unfoldable pub say_nothing : ℕ → State → State
say_nothing seq s = record s { silent = s.silent ++ seq ∷ [] }

-- `_send` of what was boxed; `wire` says how dumping and the channel end.
unfoldable pub send :
    Kind → ℕ → Outcome (Unit {0}) → Outcome (Unit {0}) → State → Outcome (Unit {0}) × State
unfolding say say_nothing
send kind seq (ok u) (ok v) s = (ok tt, say kind seq s)
send kind seq (ok u) (raise e) s = (raise e, say_nothing seq s)
send kind seq (ok u) out_of_fuel s = (out_of_fuel, say_nothing seq s)
send kind seq (raise e) wire s = (raise e, say_nothing seq s)
send kind seq out_of_fuel wire s = (out_of_fuel, say_nothing seq s)

-- The `except` clause of `_send_async_result_safe`.
unfoldable pub is_dead : Exc → Bool
is_dead eof_error = true
is_dead os_error = true
is_dead e = false

unfoldable pub try_send : Kind → ℕ → Outcome (Unit {0}) → State → Outcome (Unit {0}) × State
unfolding say say_nothing is_dead
try_send kind seq (ok u) s = (ok tt, say kind seq s)
try_send kind seq (raise e) s =
    if is_dead e
    then (ok tt, record (say_nothing seq s) { closed = true })
    else (raise e, say_nothing seq s)
try_send kind seq out_of_fuel s = (out_of_fuel, say_nothing seq s)

-- `_send_async_result_safe`: the payload is made and sent in one `try`.
unfoldable pub send_safe :
    Kind → ℕ → Outcome (Unit {0}) → Outcome (Unit {0}) → State → Outcome (Unit {0}) × State
unfolding say_nothing try_send
send_safe kind seq boxed wire s =
    if s.closed then (ok tt, say_nothing seq s) else try_send kind seq (boxed >>= λ u. wire) s

-- The gate of both paths that make a task.
unfoldable pub admit : Limits → Task → State → State
unfolding enter_quarantine say_nothing
admit c t s =
    if s.inbound.quarantined
    then say_nothing t.seq s
    else if ltb 0 c.max_inbound_inflight && leb c.max_inbound_inflight s.inbound.inflight
    then say_nothing t.seq (record s { inbound = enter_quarantine s.inbound })
    else record s {
      waiting = s.waiting ++ t ∷ [];
      inbound = record s.inbound { scheduled = suc s.inbound.scheduled };
    }

-- `_dispatch_request`
unfoldable pub dispatch_request :
    Limits → ℕ → Call → Outcome (Unit {0}) → State → Outcome (Unit {0}) × State
unfolding propagates say_nothing send admit
dispatch_request c seq (final (value boxed)) wire s = send reply seq boxed wire s
dispatch_request c seq (final (throws e boxed)) wire s =
    if propagates c e then (raise e, say_nothing seq s) else send exception seq boxed wire s
dispatch_request c seq coroutine wire s =
    if c.asyncio_enabled
    then (ok tt, admit c (record { late = true; seq = seq }) s)
    else send exception seq (ok tt) wire s

-- A request for a coroutine handler, in `_dispatch`.
unfoldable pub dispatch_async : Limits → ℕ → State → Outcome (Unit {0}) × State
unfolding say_nothing admit
dispatch_async c seq s =
    if c.asyncio_enabled
    then (ok tt, admit c (record { late = false; seq = seq }) s)
    else (raise runtime_error, say_nothing seq s)

unfoldable pub start_first : List Task → State → State
unfolding schedule
start_first [] s = s
start_first (t ∷ waiting) s = record s {
  waiting = waiting;
  tasks = s.tasks ++ t ∷ [];
  inbound = schedule s.inbound;
}

-- `_schedule`, in the order of the calls.
unfoldable pub start_task : State → State
unfolding start_first
start_task s = start_first s.waiting s

-- The exception is boxed before `_send_async_result_safe`. `_dispatch_request_async` boxes a second
-- one where that raises, whose text may raise again, and `boxed` says how that ends.
unfoldable pub finish_late :
    Kind → ℕ → Outcome (Unit {0}) → Outcome (Unit {0}) → State → Outcome (Unit {0}) × State
unfolding say_nothing send_safe
finish_late kind seq (ok u) wire s = send_safe kind seq (ok u) wire s
finish_late kind seq (raise e) wire s = (raise e, say_nothing seq s)
finish_late kind seq out_of_fuel wire s = (out_of_fuel, say_nothing seq s)

-- The end of `_dispatch_request_async` or of `_await_and_reply`.
unfoldable pub finish_task :
    Limits → Task → Final → Outcome (Unit {0}) → State → Outcome (Unit {0}) × State
unfolding propagates say_nothing send_safe finish_late
finish_task c t (value boxed) wire s =
    send_safe (if t.late then reply else async_reply) t.seq boxed wire s
finish_task c t (throws e boxed) wire s =
    if propagates c e
    then (raise e, say_nothing t.seq s)
    else finish_late (if t.late then exception else async_exception) t.seq boxed wire s

unfoldable pub past : Task → Option (Task × List Task) → Option (Task × List Task)
past t none = none
past t (some (u, rest)) = some (u, t ∷ rest)

-- The task at a place in `tasks`, and the others.
unfoldable pub take_task : ℕ → List Task → Option (Task × List Task)
unfolding past
take_task n [] = none
take_task zero (t ∷ tasks) = some (t, tasks)
take_task (suc n) (t ∷ tasks) = past t (take_task n tasks)

-- A task that is cancelled before it starts runs nothing.
unfoldable pub close_task :
    Limits → Task → Option Final → Outcome (Unit {0}) → State → Outcome (Unit {0}) × State
unfolding say_nothing finish_task
close_task c t none wire s = (ok tt, say_nothing t.seq s)
close_task c t (some end) wire s = finish_task c t end wire s

unfoldable pub end_task : Limits → ℕ → Option Final → Outcome (Unit {0}) → State → State
unfolding take_task close_task on_done
end_task c n end wire s = elim (take_task n s.tasks) [
  | none ↦ s
  | some (t, rest) ↦
      (close_task c t end wire (record s { tasks = rest; inbound = on_done s.inbound })).1
]

-- A request, for a synchronous handler or a coroutine handler; a call of `_schedule`; the end of a
-- task; the end of the connection.
pub data Event : Type 0 where
  arrives : ℕ → Call → Outcome (Unit {0}) → Event
  arrives_async : ℕ → Event
  starts : Event
  ends : ℕ → Option Final → Outcome (Unit {0}) → Event
  shuts : Event

unfoldable pub happen : Limits → Event → State → State
unfolding dispatch_request dispatch_async start_task end_task
happen c (arrives seq call wire) s = (dispatch_request c seq call wire s).1
happen c (arrives_async seq) s = (dispatch_async c seq s).1
happen c starts s = start_task s
happen c (ends n end wire) s = end_task c n end wire s
happen c shuts s = record s { closed = true }

unfoldable pub run : Limits → List Event → State → State
unfolding happen
run c [] s = s
run c (e ∷ events) s = run c events (happen c e s)
