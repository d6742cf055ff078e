-- ===== src/Protocol/Dispatch/Admission.antt =====
-- Which coroutine requests a connection takes on.
use rpyc_async.Prelude.{
  ℕ, zero, suc, ◌+◌, ◌≤◌, ◌<◌, Bool, true, false, List, [], ◌∷◌, ◌≡◌, arith, ℕ_eq, ap, ◌∙◌,
}
use rpyc_async.Outcome.{Outcome, ok, raise, out_of_fuel}
use rpyc_async.Protocol.Dispatch.{
  Message, request, reply, exception, async_reply, async_exception, invalid, Inbound, Config,
  seq_request_callback, answer, dispatch, schedule, on_done, async_request, Event, arrives,
  schedules, finishes, asks, happen, run,
}

abbrev pub Closing : Inbound → Inbound → Type 0
Closing s s' =
    (s'.quarantined ≡ true)
    × (s'.scheduled ≤ s.scheduled)
    × (s'.inflight + s'.scheduled ≤ s.inflight + s.scheduled)

answer-Closing :
    (seq : ℕ) (is_exc : Bool) (obj : Outcome ℕ) (s : Inbound)
    → s.quarantined ≡ true
    → Closing s (answer seq is_exc obj s).1
unfolding answer seq_request_callback
answer-Closing seq is_exc (ok obj) s q = ground (arith, q)
answer-Closing seq is_exc (raise e) s q = (q, omega arith, omega arith)
answer-Closing seq is_exc out_of_fuel s q = (q, omega arith, omega arith)

dispatch-Closing :
    (c : Config) (m : Message) (s : Inbound) → s.quarantined ≡ true → Closing s (dispatch c m s).1
unfolding dispatch
dispatch-Closing c (request seq needs_async) s q = ground (arith, q)
dispatch-Closing c (reply seq obj) s q = answer-Closing seq false obj s q
dispatch-Closing c (exception seq obj) s q = answer-Closing seq true obj s q
dispatch-Closing c (async_reply seq obj) s q = answer-Closing seq false obj s q
dispatch-Closing c (async_exception seq obj) s q = answer-Closing seq true obj s q
dispatch-Closing c invalid s q = (q, omega arith, omega arith)

happen-Closing :
    (c : Config) (e : Event) (s : Inbound) → s.quarantined ≡ true → Closing s (happen c e s)
unfolding happen schedule on_done async_request
happen-Closing c (arrives m) s q = dispatch-Closing c m s q
happen-Closing c schedules s q = ground (arith, q)
happen-Closing c finishes s q = (q, omega arith, omega arith)
happen-Closing c (asks callback sends) s q = ground (arith, q)

-- The quarantine is terminal: whatever happens afterwards, the connection stays in it and takes on
-- no coroutine request; only those that the event loop had been handed before still start.
pub run-Closing :
    (c : Config) (events : List Event) (s : Inbound)
    → s.quarantined ≡ true
    → Closing s (run c events s)
unfolding run
run-Closing c [] s q = (q, omega arith, omega arith)
run-Closing c (e ∷ events) s q =
    let (q1, a1, b1) = happen-Closing c e s q in
    let (q2, a2, b2) = run-Closing c events (happen c e s) q1 in
    (q2, omega (arith, a1, a2), omega (arith, b1, b2))

-- `n` coroutine requests that come before the event loop gets to run `_schedule`.
abbrev pub burst : ℕ → ℕ → List Event
burst seq zero = []
burst seq (suc n) = arrives (request seq true) ∷ burst (suc seq) n

-- The limit on requests in flight does not bound a burst: from a state below the limit and not in
-- quarantine, while the event loop has not run, any number of coroutine requests is scheduled.
pub run-burst :
    (c : Config) (n seq : ℕ) (s : Inbound)
    → c.asyncio_enabled ≡ true
    → s.quarantined ≡ false
    → s.inflight < c.max_inbound_inflight
    → ((run c (burst seq n) s).scheduled ≡ s.scheduled + n)
      × ((run c (burst seq n) s).quarantined ≡ false)
unfolding run happen dispatch
run-burst c zero seq s on q below = (omega arith, q)
run-burst c (suc n) seq s on q below =
    let e : (happen c (arrives (request seq true)) s) ≡ record s { scheduled = suc s.scheduled } =
      ground (arith, on, q, below) in
    let (k, q') = run-burst c n (suc seq) (record s { scheduled = suc s.scheduled }) on q below in
    (
      ap (λ t. (run c (burst (suc seq) n) t).scheduled) e ∙ (k ∙ omega arith),
      ap (λ t. (run c (burst (suc seq) n) t).quarantined) e ∙ q',
    )
