-- ===== src/Protocol/Awaits.antt =====
-- `AsyncResult.__await__` of rpyc_async/core/async_.py: the futures of one result, the replies to its
-- request, and the event loop's queue of ready calls.
pub mod Released
pub mod Stranded
pub mod Told
mod Settled
pub mod Turns
pub mod Resolved
use rpyc_async.Prelude.{
  ℕ, zero, suc, Bool, true, false, List, [], ◌∷◌, ◌++◌, Option, none, some, ◌==◌, if◌then◌else◌,
  ℕ_eq, ◌≡◌, refl, ◌⊎◌, inl, inr, ap,
}
use rpyc_async.Prelude.Dict.{get, set_item, pop}
use rpyc_async.Outcome.{Outcome, ok, raise, runtime_error}
use rpyc_async.Protocol.Results.{Result, call, expired, add_callback, on_future_done}

pub data Fate : Type 0 where
  pending cancelled : Fate
  returned raised : ℕ → Fate

-- The calls that wait in the loop: `future.set_result` or `future.set_exception`, and the done
-- callback of a future.
pub data Handle : Type 0 where
  settle : ℕ → Bool → ℕ → Handle
  done : ℕ → Handle

-- The result, `_request_callbacks`, the futures by number, the loop's queue, and how often a future
-- refused to be settled: with InvalidStateError, or with TypeError where the exception is a
-- StopIteration. An exception is a number, 0 for a StopIteration.
pub record Awaiting : Type 0 where
  pub result : Result
  pub slots : List (ℕ × ℕ)
  pub futures : List (ℕ × Fate)
  pub next_future : ℕ
  pub ready : List Handle
  pub refused : ℕ

-- What `await` gets: the coroutine of the fast path, or the future.
pub data Awaited : Type 0 where
  at_once : Bool → ℕ → Awaited
  later : ℕ → Awaited

-- What becomes of a pending future; `set_exception` does not take a StopIteration.
abbrev pub fate_of : Bool → ℕ → Fate
fate_of true zero = pending
fate_of true (suc obj) = raised (suc obj)
fate_of false obj = returned obj

unfoldable pub await_slow : Bool → Awaiting → Outcome Awaited × Awaiting
unfolding add_callback
await_slow asyncio_enabled s = (
  if asyncio_enabled then ok (later s.next_future) else raise runtime_error,
  record s {
    result = add_callback s.next_future s.result;
    futures = (s.next_future, pending) ∷ s.futures;
    next_future = suc s.next_future;
  },
)

-- `__await__`
unfoldable pub await_result : Bool → Awaiting → Outcome Awaited × Awaiting
unfolding await_slow
await_result asyncio_enabled s =
    if s.result.is_ready
    then (ok (at_once s.result.is_exc s.result.obj), s)
    else await_slow asyncio_enabled s

-- `on_result` for one future.
abbrev pub on_pending : ℕ → Bool → ℕ → Option Fate → Awaiting → Awaiting
on_pending fut is_exc obj (some pending) s = record s {
  ready = s.ready ++ settle fut is_exc obj ∷ [];
}
on_pending fut is_exc obj (some cancelled) s = s
on_pending fut is_exc obj (some (returned v)) s = s
on_pending fut is_exc obj (some (raised e)) s = s
on_pending fut is_exc obj none s = s

unfoldable pub on_result : Bool → ℕ → ℕ → Awaiting → Awaiting
unfolding get
on_result is_exc obj fut s = on_pending fut is_exc obj (get fut s.futures) s

unfoldable pub on_results : Bool → ℕ → List ℕ → Awaiting → Awaiting
on_results is_exc obj [] s = s
on_results is_exc obj (fut ∷ futs) s = on_results is_exc obj futs (on_result is_exc obj fut s)

-- `__call__` of the result, with the calls of its callbacks.
unfoldable pub deliver : Bool → Bool → ℕ → Awaiting → Awaiting
deliver ttl is_exc obj s =
    if expired ttl s.result
    then s
    else on_results is_exc obj s.result.callbacks
        (record s { result = call ttl is_exc obj s.result })

-- `_seq_request_callback`, where this result is the callback `self`.
unfoldable pub answer_slot : ℕ → ℕ → Bool → Bool → ℕ → Option ℕ → Awaiting → Awaiting
unfolding pop deliver
answer_slot self seq ttl is_exc obj none s = s
answer_slot self seq ttl is_exc obj (some callback) s =
    let rest = record s { slots = pop seq s.slots } in
    if callback == self then deliver ttl is_exc obj rest else rest

unfoldable pub answer : ℕ → ℕ → Bool → Bool → ℕ → Awaiting → Awaiting
unfolding get answer_slot
answer self seq ttl is_exc obj s = answer_slot self seq ttl is_exc obj (get seq s.slots) s

-- A future that is done has its done callback called soon.
unfoldable pub finish : ℕ → Fate → Awaiting → Awaiting
unfolding set_item
finish fut fate s = record s {
  futures = set_item fut fate s.futures;
  ready = s.ready ++ done fut ∷ [];
}

-- `set_result` or `set_exception` of a future that is pending.
unfoldable pub settle_open : ℕ → Fate → Awaiting → Awaiting
unfolding finish
settle_open fut pending s = record s { refused = suc s.refused }
settle_open fut cancelled s = finish fut cancelled s
settle_open fut (returned v) s = finish fut (returned v) s
settle_open fut (raised e) s = finish fut (raised e) s

unfoldable pub settle_pending : ℕ → Fate → Option Fate → Awaiting → Awaiting
unfolding settle_open
settle_pending fut fate (some pending) s = settle_open fut fate s
settle_pending fut fate (some cancelled) s = record s { refused = suc s.refused }
settle_pending fut fate (some (returned v)) s = record s { refused = suc s.refused }
settle_pending fut fate (some (raised e)) s = record s { refused = suc s.refused }
settle_pending fut fate none s = s

unfoldable pub cancel_pending : ℕ → Option Fate → Awaiting → Awaiting
unfolding finish
cancel_pending fut (some pending) s = finish fut cancelled s
cancel_pending fut (some cancelled) s = s
cancel_pending fut (some (returned v)) s = s
cancel_pending fut (some (raised e)) s = s
cancel_pending fut none s = s

-- The awaiter is cancelled, or its `wait_for` times out.
unfoldable pub cancel : ℕ → Awaiting → Awaiting
unfolding get cancel_pending
cancel fut s = cancel_pending fut (get fut s.futures) s

abbrev pub release : Result × List (ℕ × ℕ) → Awaiting → Awaiting
release (r, slots) s = record s { result = r; slots = slots }

unfoldable pub handle : Handle → Awaiting → Awaiting
unfolding get on_future_done settle_pending
handle (settle fut is_exc obj) s = settle_pending fut (fate_of is_exc obj) (get fut s.futures) s
handle (done fut) s = release (on_future_done s.result s.slots) s

unfoldable pub run_next : List Handle → Awaiting → Awaiting
unfolding handle
run_next [] s = s
run_next (h ∷ hs) s = handle h (record s { ready = hs })

-- The loop runs the next call.
unfoldable pub turn : Awaiting → Awaiting
unfolding run_next
turn s = run_next s.ready s

pub data Event : Type 0 where
  awaits : Bool → Event
  answers : ℕ → Bool → Bool → ℕ → Event
  cancels : ℕ → Event
  turns : Event

unfoldable pub happen : ℕ → Event → Awaiting → Awaiting
unfolding await_result answer cancel turn
happen self (awaits asyncio_enabled) s = (await_result asyncio_enabled s).1
happen self (answers seq ttl is_exc obj) s = answer self seq ttl is_exc obj s
happen self (cancels fut) s = cancel fut s
happen self turns s = turn s

unfoldable pub run : ℕ → List Event → Awaiting → Awaiting
unfolding happen
run self [] s = s
run self (e ∷ events) s = run self events (happen self e s)

if-await {ℓ} :
    {A : Type ℓ} (b : Bool) (x y : A)
    → ((b ≡ true) × ((if b then x else y) ≡ x)) ⊎ ((b ≡ false) × ((if b then x else y) ≡ y))
if-await true x y = inl (refl, refl)
if-await false x y = inr (refl, refl)

-- The two paths of an await.
pub await_result-cases :
    (enabled : Bool) (s : Awaiting)
    → ((s.result.is_ready ≡ true) × ((await_result enabled s).1 ≡ s))
      ⊎ ((s.result.is_ready ≡ false) × ((await_result enabled s).1 ≡ (await_slow enabled s).1))
unfolding await_result
await_result-cases enabled s =
    elim (if-await s.result.is_ready (ok (at_once s.result.is_exc s.result.obj), s)
      (await_slow enabled s)) [
        | inl (there, fast) ↦ inl (there, ap (λ q. q.1) fast)
        | inr (waiting, slow) ↦ inr (waiting, ap (λ q. q.1) slow)
      ]

-- A reply that comes in time, and one that comes after the expiry.
pub deliver-cases :
    (ttl is_exc : Bool) (obj : ℕ) (s : Awaiting)
    → ((expired ttl s.result ≡ true) × (deliver ttl is_exc obj s ≡ s))
      ⊎ ((expired ttl s.result ≡ false)
          × (deliver ttl is_exc obj s
              ≡ on_results is_exc obj s.result.callbacks
                  (record s { result = call ttl is_exc obj s.result })))
unfolding deliver
deliver-cases ttl is_exc obj s = if-await (expired ttl s.result) s _
