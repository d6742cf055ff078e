-- ===== src/Protocol/Requests/Answered.antt =====
-- Where nothing fails on the way, each request is answered.
use rpyc_async.Prelude.{
  ℕ, ◌+◌, Bool, true, false, List, [], ◌∷◌, none, some, ◌==◌, ◌≡◌, refl, arith, if◌then◌else◌,
  Option-cases, inl, inr, sym, ap, subst,
}
use rpyc_async.Outcome.{Outcome, ok, raise, out_of_fuel, runtime_error}
use rpyc_async.Protocol.Dispatch.{schedule, on_done}
use rpyc_async.Protocol.Requests.{
  Kind, Kind, reply, exception, async_reply, async_exception, Final, value, throws, Call, final,
  coroutine, Limits, Task, State, propagates, say, say_nothing, send, try_send, send_safe, admit,
  dispatch_request, dispatch_async, start_first, start_task, finish_late, finish_task, take_task,
  close_task, end_task, Event, arrives, arrives_async, starts, ends, shuts, happen, run,
}
use rpyc_async.Protocol.Requests.Accounts.{count, answers, in_work, asked, given_up, run-total}

-- The value, or an exception that is not raised here, can be boxed.
abbrev pub FairEnd : Limits → Final → Type 0
FairEnd c (value boxed) = boxed ≡ ok tt
FairEnd c (throws e boxed) = (propagates c e ≡ false) × (boxed ≡ ok tt)

abbrev pub FairCall : Limits → Call → Type 0
FairCall c (final end) = FairEnd c end
FairCall c coroutine = Unit {0}

-- What is sent gets through, and the connection stays open.
abbrev pub Fair : Limits → Event → Type 0
Fair c (arrives seq call wire) = FairCall c call × (wire ≡ ok tt)
Fair c (arrives_async seq) = c.asyncio_enabled ≡ true
Fair c starts = Unit {0}
Fair c (ends n none wire) = ⊥
Fair c (ends n (some end) wire) = FairEnd c end × (wire ≡ ok tt)
Fair c shuts = ⊥

abbrev pub AllFair : Limits → List Event → Type 0
AllFair c [] = Unit {0}
AllFair c (e ∷ events) = Fair c e × AllFair c events

-- Open, out of quarantine, and with the requests given up so far.
abbrev pub Serves : List ℕ → State → Type 0
Serves silent s = (s.closed ≡ false) × (s.inbound.quarantined ≡ false) × (s.silent ≡ silent)

module _ (silent : List ℕ) where
  unless-Serves :
      (b : Bool) (x y : Outcome (Unit {0}) × State)
      → b ≡ false
      → Serves silent y.1
      → Serves silent (if b then x else y).1
  unless-Serves true x y e v = cc
  unless-Serves false x y e v = v

  when-Serves :
      (b : Bool) (x y : Outcome (Unit {0}) × State)
      → Serves silent x.1
      → Serves silent y.1
      → Serves silent (if b then x else y).1
  when-Serves true x y v w = v
  when-Serves false x y v w = w

  given-Serves :
      (b : Bool) (x y : Outcome (Unit {0}) × State)
      → b ≡ true
      → Serves silent x.1
      → Serves silent (if b then x else y).1
  given-Serves true x y e v = v
  given-Serves false x y e v = cc

  send-Serves :
      (kind : Kind) (q : ℕ) (boxed wire : Outcome (Unit {0})) (s : State)
      → boxed ≡ ok tt
      → wire ≡ ok tt
      → Serves silent s
      → Serves silent (send kind q boxed wire s).1
  unfolding send say
  send-Serves kind q (ok u) (ok w) s b e v = v
  send-Serves kind q (ok u) (raise x) s b e v = cc
  send-Serves kind q (ok u) out_of_fuel s b e v = cc
  send-Serves kind q (raise x) wire s b e v = cc
  send-Serves kind q out_of_fuel wire s b e v = cc

  send_safe-Serves :
      (kind : Kind) (q : ℕ) (boxed wire : Outcome (Unit {0})) (s : State)
      → boxed ≡ ok tt
      → wire ≡ ok tt
      → Serves silent s
      → Serves silent (send_safe kind q boxed wire s).1
  unfolding send_safe try_send say
  send_safe-Serves kind q (ok u) (ok w) s b e v =
      unless-Serves s.closed (ok tt, say_nothing q s) (ok tt, say kind q s) v.0 v
  send_safe-Serves kind q (ok u) (raise x) s b e v = cc
  send_safe-Serves kind q (ok u) out_of_fuel s b e v = cc
  send_safe-Serves kind q (raise x) wire s b e v = cc
  send_safe-Serves kind q out_of_fuel wire s b e v = cc

  admit-Serves :
      (c : Limits) (t : Task) (s : State)
      → c.max_inbound_inflight ≡ 0
      → Serves silent s
      → Serves silent (admit c t s)
  unfolding admit
  admit-Serves c t s free v = ground arith

  dispatch_request-Serves :
      (c : Limits) (q : ℕ) (call : Call) (wire : Outcome (Unit {0})) (s : State)
      → c.max_inbound_inflight ≡ 0
      → FairCall c call
      → wire ≡ ok tt
      → Serves silent s
      → Serves silent (dispatch_request c q call wire s).1
  unfolding dispatch_request
  dispatch_request-Serves c q (final (value boxed)) wire s free fair e v =
      send-Serves reply q boxed wire s fair e v
  dispatch_request-Serves c q (final (throws x boxed)) wire s free fair e v =
      unless-Serves (propagates c x) (raise x, say_nothing q s) (send exception q boxed wire s)
        fair.0 (send-Serves exception q boxed wire s fair.1 e v)
  dispatch_request-Serves c q coroutine wire s free fair e v =
      let t : Task = record { late = true; seq = q } in
      when-Serves c.asyncio_enabled (ok tt, admit c t s) (send exception q (ok tt) wire s)
        (admit-Serves c t s free v) (send-Serves exception q (ok tt) wire s refl e v)

  dispatch_async-Serves :
      (c : Limits) (q : ℕ) (s : State)
      → c.max_inbound_inflight ≡ 0
      → c.asyncio_enabled ≡ true
      → Serves silent s
      → Serves silent (dispatch_async c q s).1
  unfolding dispatch_async
  dispatch_async-Serves c q s free enabled v =
      let t : Task = record { late = false; seq = q } in
      given-Serves c.asyncio_enabled (ok tt, admit c t s) (raise runtime_error, say_nothing q s)
        enabled (admit-Serves c t s free v)

  finish_late-Serves :
      (kind : Kind) (q : ℕ) (boxed wire : Outcome (Unit {0})) (s : State)
      → boxed ≡ ok tt
      → wire ≡ ok tt
      → Serves silent s
      → Serves silent (finish_late kind q boxed wire s).1
  unfolding finish_late
  finish_late-Serves kind q (ok u) wire s b e v = send_safe-Serves kind q (ok u) wire s b e v
  finish_late-Serves kind q (raise x) wire s b e v = cc
  finish_late-Serves kind q out_of_fuel wire s b e v = cc

  finish_task-Serves :
      (c : Limits) (t : Task) (end : Final) (wire : Outcome (Unit {0})) (s : State)
      → FairEnd c end
      → wire ≡ ok tt
      → Serves silent s
      → Serves silent (finish_task c t end wire s).1
  unfolding finish_task
  finish_task-Serves c t (value boxed) wire s fair e v =
      send_safe-Serves (if t.late then reply else async_reply) t.seq boxed wire s fair e v
  finish_task-Serves c t (throws x boxed) wire s fair e v =
      unless-Serves (propagates c x) (raise x, say_nothing t.seq s)
        (finish_late (if t.late then exception else async_exception) t.seq boxed wire s) fair.0
        (finish_late-Serves (if t.late then exception else async_exception) t.seq boxed wire s
          fair.1 e v)

  end_task-Serves :
      (c : Limits) (n : ℕ) (end : Final) (wire : Outcome (Unit {0})) (s : State)
      → FairEnd c end
      → wire ≡ ok tt
      → Serves silent s
      → Serves silent (end_task c n (some end) wire s)
  unfolding end_task close_task on_done
  end_task-Serves c n end wire s fair e v = elim (Option-cases (take_task n s.tasks)) [
    | inl missing ↦
        let result : end_task c n (some end) wire s ≡ s = rw (missing, end_task) refl in
        subst (Serves silent) (sym result) v
    | inr ((t, rest), found) ↦
        let s' = record s { tasks = rest; inbound = on_done s.inbound } in
        let result : end_task c n (some end) wire s ≡ (finish_task c t end wire s').1 =
          rw (found, end_task) refl in
        subst (Serves silent) (sym result) (finish_task-Serves c t end wire s' fair e v)
  ]

  start_first-Serves :
      (waiting : List Task) (s : State) → Serves silent s → Serves silent (start_first waiting s)
  unfolding start_first schedule
  start_first-Serves [] s v = v
  start_first-Serves (t ∷ waiting) s v = ground arith

  happen-Serves :
      (c : Limits) (e : Event) (s : State)
      → c.max_inbound_inflight ≡ 0
      → Fair c e
      → Serves silent s
      → Serves silent (happen c e s)
  unfolding happen start_task
  happen-Serves c (arrives seq call wire) s free fair v =
      dispatch_request-Serves c seq call wire s free fair.0 fair.1 v
  happen-Serves c (arrives_async seq) s free fair v = dispatch_async-Serves c seq s free fair v
  happen-Serves c starts s free fair v = start_first-Serves s.waiting s v
  happen-Serves c (ends n none wire) s free fair v = elim fair [ ]
  happen-Serves c (ends n (some end) wire) s free fair v =
      end_task-Serves c n end wire s fair.0 fair.1 v
  happen-Serves c shuts s free fair v = elim fair [ ]

  run-Serves :
      (c : Limits) (events : List Event) (s : State)
      → c.max_inbound_inflight ≡ 0
      → AllFair c events
      → Serves silent s
      → Serves silent (run c events s)
  unfolding run
  run-Serves c [] s free fair v = v
  run-Serves c (e ∷ events) s free fair v =
      run-Serves c events (happen c e s) free fair.1 (happen-Serves c e s free fair.0 v)

-- On an open connection without a limit on its tasks, on which everything can be boxed and sent,
-- no exception is raised locally and no task is cancelled before it starts, whenever nothing is in
-- work any more for a number, as many answers were sent for it as requests came in with it, beyond
-- those sent and in work at the start: for values and exceptions, for both kinds of handlers and
-- coroutines, in any order in which the tasks end.
pub run-answered :
    (c : Limits) (seq : ℕ) (events : List Event) (s : State)
    → c.max_inbound_inflight ≡ 0
    → AllFair c events
    → s.closed ≡ false
    → s.inbound.quarantined ≡ false
    → in_work seq (run c events s) ≡ 0
    → answers seq (run c events s) ≡ asked seq events + (answers seq s + in_work seq s)
run-answered c seq events s free fair opening well idle =
    let (opened, served, same) = run-Serves s.silent c events s free fair (opening, well, refl) in
    let all = run-total c seq events s in
    let kept : given_up seq (run c events s) ≡ given_up seq s =
      ap (λ l. count (λ q. q == seq) l) same in
    omega (arith, all, kept, idle)
