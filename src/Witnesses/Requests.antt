-- ===== src/Witnesses/Requests.antt =====
-- Requests of both kinds, answered in the order in which their tasks end.
use rpyc_async.Prelude.{◌+◌, ◌≡◌, refl, List, [], ◌∷◌, some, false, true}
use rpyc_async.Outcome.{ok, key_error}
use rpyc_async.Protocol.Requests.{
  reply, exception, async_reply, value, throws, final, coroutine, Limits, State, Event, arrives,
  arrives_async, starts, ends, run,
}
use rpyc_async.Protocol.Requests.Accounts.{answers, in_work, asked}
use rpyc_async.Protocol.Requests.Answered

abbrev limits : Limits
limits = record {
  asyncio_enabled = true;
  max_inbound_inflight = 0;
  propagate_system_exit = true;
  propagate_keyboard_interrupt = true;
}

abbrev idle_connection : State
idle_connection = record {
  closed = false;
  inbound = record {
    inflight = 0;
    scheduled = 0;
    quarantined = false;
    cancelled = 0;
    served = 0;
    callbacks = [];
    next_seq = 0;
    called = [];
  };
  waiting = [];
  tasks = [];
  sent = [];
  silent = [];
}

abbrev fair_events : List Event
fair_events =
    arrives_async 1
    ∷ arrives 2 (final (value (ok tt))) (ok tt)
    ∷ arrives 3 coroutine (ok tt)
    ∷ starts
    ∷ starts
    ∷ ends 1 (some (throws key_error (ok tt))) (ok tt)
    ∷ ends 0 (some (value (ok tt))) (ok tt)
    ∷ []

three_answers :
    (run limits fair_events idle_connection).sent
    ≡ (reply, 2) ∷ (exception, 3) ∷ (async_reply, 1) ∷ []
unfolding run
three_answers = refl

run-answered_example :
    answers 3 (run limits fair_events idle_connection)
    ≡ asked 3 fair_events + (answers 3 idle_connection + in_work 3 idle_connection)
unfolding run
run-answered_example =
    Answered.run-answered limits 3 fair_events idle_connection refl
      (refl, ((refl, refl), ((tt, refl), (tt, (tt, (((refl, refl), refl), ((refl, refl), tt)))))))
      refl refl refl
