-- ===== src/Helpers/Background.antt =====
-- `fire_and_forget` of rpyc_async/utils/helpers.py and its kin: what a task does with its callbacks,
-- and the strong references that keep a task alive. Values and exceptions are numbers.
pub mod Callbacks
pub mod Pinned
use rpyc_async.Prelude.{
  ℕ, suc, Bool, true, false, List, [], ◌∷◌, Option, none, some, ◌==◌, ◌||◌, not, if◌then◌else◌,
}
use rpyc_async.Outcome.{Outcome, ok, raise, type_error, runtime_error}

-- How an awaitable or a callback ends: with a value, an `Exception`, a CancelledError or another
-- `BaseException`.
pub data Ending : Type 0 where
  value exception : ℕ → Ending
  cancelled aborted : Ending

pub data Note : Type 0 where
  succeeds fails_with : ℕ → Note
  prints_success_error prints_error_error prints_unhandled : Note

-- How a task ends: it returns None, or it raises.
pub data End : Type 0 where
  returned cancels aborts : End

-- The awaitable gives what `wait_for` makes of it under a timeout.
pub record Job : Type 0 where
  pub awaitable : Option ℕ → Ending
  pub timeout : Option ℕ
  pub success_callback : Option (ℕ → Ending)
  pub error_callback : Option (ℕ → Ending)

-- A callback was called, and ended; its `Exception` is printed.
abbrev pub after : Note → Note → Ending → List Note × End
after call print (value v) = (call ∷ [], returned)
after call print (exception e) = (call ∷ print ∷ [], returned)
after call print cancelled = (call ∷ [], cancels)
after call print aborted = (call ∷ [], aborts)

abbrev pub on_success : ℕ → Option (ℕ → Ending) → List Note × End
on_success result none = ([], returned)
on_success result (some success_callback) =
    after (succeeds result) prints_success_error (success_callback result)

abbrev pub on_error : ℕ → Option (ℕ → Ending) → List Note × End
on_error exc none = (prints_unhandled ∷ [], returned)
on_error exc (some error_callback) = after (fails_with exc) prints_error_error (error_callback exc)

abbrev pub on_awaited : Ending → Job → List Note × End
on_awaited (value result) job = on_success result job.success_callback
on_awaited (exception exc) job = on_error exc job.error_callback
on_awaited cancelled job = ([], cancels)
on_awaited aborted job = ([], aborts)

unfoldable pub run_with_callbacks : Job → List Note × End
run_with_callbacks job = on_awaited (job.awaitable job.timeout) job

-- The same with callbacks that are awaited.
unfoldable pub run_with_async_callbacks : Job → List Note × End
run_with_async_callbacks job = on_awaited (job.awaitable job.timeout) job

-- A task by its number, with whether `fire_and_forget_async` made it: it runs, is done, its done
-- callback has run, or it was collected while it ran.
pub data Task : Type 0 where
  absent : Task
  running done discarded lost : Bool → Task

-- The tasks and `_INFLIGHT`.
pub record Loop : Type 0 where
  pub tasks : ℕ → Task
  pub inflight : ℕ → Bool
  pub next_task : ℕ

abbrev pub update {ℓ} : {A : Type ℓ} → (ℕ → A) → ℕ → A → ℕ → A
update f i a j = if i == j then a else f j

abbrev pub create_task : Bool → Loop → Loop
create_task pinned s = record s {
  tasks = update s.tasks s.next_task (running pinned);
  next_task = suc s.next_task;
}

unfoldable pub fire_and_forget : Bool → Loop → Outcome ℕ × Loop
fire_and_forget has_loop s =
    if has_loop then (ok s.next_task, create_task false s) else (raise runtime_error, s)

unfoldable pub fire_and_forget_async : Bool → Loop → Outcome ℕ × Loop
fire_and_forget_async has_loop s =
    if has_loop
    then (
      ok s.next_task,
      record (create_task true s) { inflight = update s.inflight s.next_task true },
    )
    else (raise runtime_error, s)

-- Whether the coroutine of the call was closed unawaited.
abbrev pub closing : Outcome ℕ × Loop → (Outcome ℕ × Bool) × Loop
closing (ok task, s) = ((ok task, false), s)
closing (raise e, s) = ((raise e, true), s)
closing (Outcome.out_of_fuel, s) = ((Outcome.out_of_fuel, true), s)

unfoldable pub fire_and_forget_call : Bool → Bool → Bool → Loop → (Outcome ℕ × Bool) × Loop
unfolding fire_and_forget_async
fire_and_forget_call awaitable callable has_loop s =
    if awaitable || not callable
    then ((raise type_error, false), s)
    else closing (fire_and_forget_async has_loop s)

abbrev pub end_task : ℕ → Task → Loop → Loop
end_task i absent s = s
end_task i (running pinned) s = record s { tasks = update s.tasks i (done pinned) }
end_task i (done pinned) s = s
end_task i (discarded pinned) s = s
end_task i (lost pinned) s = s

-- `_INFLIGHT.discard`, the done callback of a pinned task.
abbrev pub discard : ℕ → Task → Loop → Loop
discard i (done pinned) s = record s {
  tasks = update s.tasks i (discarded pinned);
  inflight = update s.inflight i false;
}
discard i absent s = s
discard i (running pinned) s = s
discard i (discarded pinned) s = s
discard i (lost pinned) s = s

-- The event loop has weak references only: a running task that nothing else holds may go.
abbrev pub collect : ℕ → Bool → Task → Loop → Loop
collect i false (running pinned) s = record s { tasks = update s.tasks i (lost pinned) }
collect i true task s = s
collect i false absent s = s
collect i false (done pinned) s = s
collect i false (discarded pinned) s = s
collect i false (lost pinned) s = s

pub data Event : Type 0 where
  forgets forgets_async : Bool → Event
  forgets_call : Bool → Bool → Bool → Event
  ends calls_back collects : ℕ → Event

unfoldable pub happen : Event → Loop → Loop
unfolding fire_and_forget fire_and_forget_async fire_and_forget_call
happen (forgets has_loop) s = (fire_and_forget has_loop s).1
happen (forgets_async has_loop) s = (fire_and_forget_async has_loop s).1
happen (forgets_call awaitable callable has_loop) s =
    (fire_and_forget_call awaitable callable has_loop s).1
happen (ends i) s = end_task i (s.tasks i) s
happen (calls_back i) s = discard i (s.tasks i) s
happen (collects i) s = collect i (s.inflight i) (s.tasks i) s

unfoldable pub run : List Event → Loop → Loop
unfolding happen
run [] s = s
run (e ∷ events) s = run events (happen e s)

abbrev pub new_loop : Loop
new_loop = record { tasks = λ i. absent; inflight = λ i. false; next_task = 0 }
