-- ===== src/Protocol/Dispatch.antt =====
-- `_dispatch`, the inbound quarantine, `_async_request` and `_seq_request_callback`, on an asyncio
-- connection or another, with threads not bound. The locks, and what a handler does, are left out.
pub mod Admission
pub mod Answers
use rpyc_async.Prelude.{
  ℕ, zero, suc, ◌+◌, ◌-◌, ◌≤◌, ◌<◌, Bool, true, false, List, [], ◌∷◌, ◌++◌, Option, none, some, ◌≡◌,
  refl, arith, if◌then◌else◌, ◌&&◌, leb, ltb, ℕ_eq, Option-cases, Bool-cases, inl, inr, ◌⊎◌, ==_iff,
  ap, sym, ◌∙◌,
}
use rpyc_async.Prelude.Dict.{get, set_item, pop, get-set_item, get-pop}
use rpyc_async.Outcome.{Outcome, ok, raise, out_of_fuel, runtime_error, value_error, eof_error}

-- A frame, loaded: the request's number and whether its handler is a coroutine function, or the
-- number of the request that it answers and what `_unbox` makes of its payload.
pub data Message : Type 0 where
  request : ℕ → Bool → Message
  reply exception async_reply async_exception : ℕ → Outcome ℕ → Message
  invalid : Message

-- `_inbound_inflight`, the calls of `_schedule` that wait in the event loop, `_inbound_quarantined`,
-- the tasks that the quarantine has cancelled, the requests that were served at once,
-- `_request_callbacks` with the counter of `_get_seq_id`, and the calls of callbacks so far: the
-- callback, `is_exc` and the object.
pub record Inbound : Type 0 where
  pub inflight : ℕ
  pub scheduled : ℕ
  pub quarantined : Bool
  pub cancelled : ℕ
  pub served : ℕ
  pub callbacks : List (ℕ × ℕ)
  pub next_seq : ℕ
  pub called : List (ℕ × Bool × ℕ)

-- `_asyncio_enabled` with its loop, and `max_inbound_inflight`, where 0 is no limit.
pub record Config : Type 0 where
  pub asyncio_enabled : Bool
  pub max_inbound_inflight : ℕ

-- `_drain_inbound_dispatch`: every task of this connection is cancelled.
unfoldable pub drain : Inbound → Inbound
drain s = record s { cancelled = s.inflight }

unfoldable pub enter_quarantine : Inbound → Inbound
unfolding drain
enter_quarantine s =
    if s.quarantined then s else record (drain s) { quarantined = true; callbacks = [] }

unfoldable pub seq_request_callback : ℕ → Bool → ℕ → Inbound → Inbound
unfolding get pop
seq_request_callback seq is_exc obj s = elim (get seq s.callbacks) [
  | none ↦ s
  | some callback ↦ record s {
    callbacks = pop seq s.callbacks;
    called = s.called ++ (callback, is_exc, obj) ∷ [];
  }
]

-- The callback gets what was unboxed; where unboxing raises, it is not reached.
unfoldable pub answer : ℕ → Bool → Outcome ℕ → Inbound → Outcome (Unit {0}) × Inbound
unfolding seq_request_callback
answer seq is_exc (ok obj) s = (ok tt, seq_request_callback seq is_exc obj s)
answer seq is_exc (raise e) s = (raise e, s)
answer seq is_exc out_of_fuel s = (out_of_fuel, s)

unfoldable pub dispatch : Config → Message → Inbound → Outcome (Unit {0}) × Inbound
unfolding enter_quarantine answer
dispatch c (request seq needs_async) s =
    if needs_async && c.asyncio_enabled
    then (if s.quarantined
        then (ok tt, s)
        else if ltb 0 c.max_inbound_inflight && leb c.max_inbound_inflight s.inflight
        then (ok tt, enter_quarantine s)
        else (ok tt, record s { scheduled = suc s.scheduled }))
    else if needs_async
    then (raise runtime_error, s)
    else (ok tt, record s { served = suc s.served })
dispatch c (reply seq obj) s = answer seq false obj s
dispatch c (exception seq obj) s = answer seq true obj s
dispatch c (async_reply seq obj) s = answer seq false obj s
dispatch c (async_exception seq obj) s = answer seq true obj s
dispatch c invalid s = (raise value_error, s)

-- `_schedule`: the event loop makes the task.
unfoldable pub schedule : Inbound → Inbound
schedule s =
    if ltb 0 s.scheduled
    then record s { scheduled = s.scheduled - 1; inflight = suc s.inflight }
    else s

-- `_on_done` of a task.
unfoldable pub on_done : Inbound → Inbound
on_done s = record s { inflight = s.inflight - 1 }

-- `_async_request`; `sends` says whether boxing and sending return.
unfoldable pub async_request : ℕ → Bool → Inbound → Outcome ℕ × Inbound
unfolding set_item pop
async_request callback sends s =
    let seq = s.next_seq in
    let callbacks = set_item seq callback s.callbacks in
    if sends
    then (ok seq, record s { callbacks = callbacks; next_seq = suc seq })
    else (raise eof_error, record s { callbacks = pop seq callbacks; next_seq = suc seq })

pub data Event : Type 0 where
  arrives : Message → Event
  schedules finishes : Event
  asks : ℕ → Bool → Event

unfoldable pub happen : Config → Event → Inbound → Inbound
unfolding dispatch schedule on_done async_request
happen c (arrives m) s = (dispatch c m s).1
happen c schedules s = schedule s
happen c finishes s = on_done s
happen c (asks callback sends) s = (async_request callback sends s).1

unfoldable pub run : Config → List Event → Inbound → Inbound
unfolding happen
run c [] s = s
run c (e ∷ events) s = run c events (happen c e s)
