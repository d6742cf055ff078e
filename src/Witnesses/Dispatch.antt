-- ===== src/Witnesses/Dispatch.antt =====
-- Requests, answers and the quarantine on small states.
use rpyc_async.Prelude.{
  ℕ, true, false, List, [], ◌∷◌, ◌++◌, none, ◌≡◌, ◌==◌, refl, if◌then◌else◌, ℕ_eq,
}
use rpyc_async.Prelude.Dict.{get, set_item, pop}
use rpyc_async.Outcome.{ok}
use rpyc_async.Protocol.Dispatch.Admission
use rpyc_async.Protocol.Dispatch.Answers
use rpyc_async.Protocol.Dispatch.Admission.{burst, Closing}
use rpyc_async.Protocol.Dispatch.Answers.{IsInbound}
use rpyc_async.Protocol.Dispatch.{
  request, arrives, schedules, finishes, Inbound, Config, dispatch, schedule, run, happen,
  enter_quarantine, drain, async_request, answer, asks, reply, seq_request_callback, Event,
}

abbrev config : Config
config = record { asyncio_enabled = true; max_inbound_inflight = 1 }

abbrev idle : Inbound
idle = record {
  inflight = 0;
  scheduled = 0;
  quarantined = false;
  cancelled = 0;
  served = 0;
  callbacks = [];
  next_seq = 0;
  called = [];
}

-- The second request meets the limit once the first has been scheduled.
abbrev full : Inbound
full = record idle { inflight = 1; quarantined = true; cancelled = 1 }

reaches_limit :
    run config (arrives (request 0 true) ∷ schedules ∷ arrives (request 1 true) ∷ []) idle ≡ full
unfolding run happen dispatch schedule enter_quarantine drain
reaches_limit = refl

run-Closing_example : Closing full (run config (arrives (request 2 true) ∷ finishes ∷ []) full)
run-Closing_example =
    Admission.run-Closing config (arrives (request 2 true) ∷ finishes ∷ []) full refl

idle-IsInbound : IsInbound idle
unfolding get
idle-IsInbound seq le = refl

abbrev waiting : Inbound
waiting = record idle { callbacks = (0, 5) ∷ []; next_seq = 1 }

-- A second request is sent and answered while the first waits.
abbrev meanwhile : List Event
meanwhile = asks 6 true ∷ arrives (reply 1 (ok 9)) ∷ schedules ∷ []

abbrev later : Inbound
later = run config meanwhile (async_request 5 true idle).1

answer-run_example :
    ((answer 0 false (ok 8) later).1.called ≡ later.called ++ (5, false, 8) ∷ [])
    × ((seq : ℕ)
        → get seq (answer 0 false (ok 8) later).1.callbacks
          ≡ (if 0 == seq then none else get seq later.callbacks))
unfolding run happen dispatch schedule async_request answer seq_request_callback get set_item pop
answer-run_example = Answers.answer-run config 5 8 false meanwhile idle (tt, (refl, (tt, tt))) refl

both_called : (answer 0 false (ok 8) later).1.called ≡ (6, false, 9) ∷ (5, false, 8) ∷ []
unfolding run happen dispatch schedule async_request answer seq_request_callback get set_item pop
both_called = refl
