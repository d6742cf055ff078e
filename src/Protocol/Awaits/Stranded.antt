-- ===== src/Protocol/Awaits/Stranded.antt =====
-- Futures that nothing settles any more.
use rpyc_async.Prelude.{
  ℕ, ◌<◌, Bool, true, false, List, [], ◌∷◌, ◌++◌, All, Option, none, some, Option-cases, ◌≡◌, refl,
  inl, inr, ◌||◌, ◌==◌, ==_iff, arith, ℕ_eq, ap, sym, subst,
}
use rpyc_async.Prelude.Dict.{get, pop, get-set_item, get-pop}
use rpyc_async.Protocol.Results.{add_callback, expired, on_future_done}
use rpyc_async.Protocol.Awaits.{
  Fate, pending, cancelled, returned, raised, Handle, settle, done, Awaiting, await_slow, deliver,
  answer, answer_slot, finish, cancel, handle, turn, run_next, Event, awaits, answers, cancels,
  turns, happen, run, settle_pending, settle_open, cancel_pending, await_result-cases, fate_of,
}

-- A slot of the result `self`.
abbrev pub holds : ℕ → Option ℕ → Bool
holds self none = false
holds self (some callback) = callback == self

-- A call that settles the future waits in the loop.
abbrev pub settling : ℕ → List Handle → Bool
settling fut [] = false
settling fut (settle other is_exc obj ∷ hs) = (other == fut) || settling fut hs
settling fut (done other ∷ hs) = settling fut hs

settling-append_done :
    (fut other : ℕ) (hs : List Handle) → settling fut (hs ++ done other ∷ []) ≡ settling fut hs
settling-append_done fut other [] = refl
settling-append_done fut other (settle f is_exc obj ∷ hs) =
    ap (λ b. (f == fut) || b) (settling-append_done fut other hs)
settling-append_done fut other (done f ∷ hs) = settling-append_done fut other hs

-- The future waits, its result has no answer and no slot, and nothing settles it.
pub record IsStranded (self fut : ℕ) (s : Awaiting) : Type 0 where
  pub unready : s.result.is_ready ≡ false
  pub unheld : (number : ℕ) → holds self (get number s.slots) ≡ false
  pub unsettled : settling fut s.ready ≡ false
  pub waits : get fut s.futures ≡ some pending
  pub known : fut < s.next_future

-- The future's awaiter is not cancelled.
abbrev pub Spares : ℕ → Event → Type 0
Spares fut (awaits enabled) = Unit
Spares fut (answers seq ttl is_exc obj) = Unit
Spares fut (cancels other) = (other == fut) ≡ false
Spares fut turns = Unit

finish-IsStranded :
    (self fut other : ℕ) (fate : Fate) (s : Awaiting)
    → (other == fut) ≡ false
    → IsStranded self fut s
    → IsStranded self fut (finish other fate s)
unfolding finish
finish-IsStranded self fut other fate s ne v = record {
  unready = v.unready;
  unheld = v.unheld;
  unsettled = ground (arith, settling-append_done fut other s.ready, v.unsettled);
  waits = ground (arith, get-set_item other fut fate s.futures, v.waits);
  known = v.known;
}

settle_open-IsStranded :
    (self fut other : ℕ) (fate : Fate) (s : Awaiting)
    → (other == fut) ≡ false
    → IsStranded self fut s
    → IsStranded self fut (settle_open other fate s)
unfolding settle_open
settle_open-IsStranded self fut other pending s ne v = record {
  unready = v.unready;
  unheld = v.unheld;
  unsettled = v.unsettled;
  waits = v.waits;
  known = v.known;
}
settle_open-IsStranded self fut other cancelled s ne v =
    finish-IsStranded self fut other cancelled s ne v
settle_open-IsStranded self fut other (returned r) s ne v =
    finish-IsStranded self fut other (returned r) s ne v
settle_open-IsStranded self fut other (raised e) s ne v =
    finish-IsStranded self fut other (raised e) s ne v

settle_pending-IsStranded :
    (self fut other : ℕ) (fate : Fate) (found : Option Fate) (s : Awaiting)
    → (other == fut) ≡ false
    → IsStranded self fut s
    → IsStranded self fut (settle_pending other fate found s)
unfolding settle_pending
settle_pending-IsStranded self fut other fate (some pending) s ne v =
    settle_open-IsStranded self fut other fate s ne v
settle_pending-IsStranded self fut other fate (some cancelled) s ne v = record {
  unready = v.unready;
  unheld = v.unheld;
  unsettled = v.unsettled;
  waits = v.waits;
  known = v.known;
}
settle_pending-IsStranded self fut other fate (some (returned r)) s ne v = record {
  unready = v.unready;
  unheld = v.unheld;
  unsettled = v.unsettled;
  waits = v.waits;
  known = v.known;
}
settle_pending-IsStranded self fut other fate (some (raised e)) s ne v = record {
  unready = v.unready;
  unheld = v.unheld;
  unsettled = v.unsettled;
  waits = v.waits;
  known = v.known;
}
settle_pending-IsStranded self fut other fate none s ne v = v

cancel_pending-IsStranded :
    (self fut other : ℕ) (found : Option Fate) (s : Awaiting)
    → (other == fut) ≡ false
    → IsStranded self fut s
    → IsStranded self fut (cancel_pending other found s)
unfolding cancel_pending
cancel_pending-IsStranded self fut other (some pending) s ne v =
    finish-IsStranded self fut other cancelled s ne v
cancel_pending-IsStranded self fut other (some cancelled) s ne v = v
cancel_pending-IsStranded self fut other (some (returned r)) s ne v = v
cancel_pending-IsStranded self fut other (some (raised e)) s ne v = v
cancel_pending-IsStranded self fut other none s ne v = v

-- A result that gives up its slot keeps no other.
pub unheld-release :
    (self number : ℕ) (s : Awaiting)
    → ((n : ℕ) → holds self (get n s.slots) ≡ false)
    → holds self (get number (on_future_done s.result s.slots).1) ≡ false
unfolding on_future_done
unheld-release self number s h = elim (Option-cases s.result.seq) [
  | inl absent ↦ ground (arith, absent, h number)
  | inr (seq, there) ↦ ground (arith, there, h number, get-pop seq number s.slots)
]

run_next-IsStranded :
    (self fut : ℕ) (hs : List Handle) (s : Awaiting)
    → s.ready ≡ hs
    → IsStranded self fut s
    → IsStranded self fut (run_next hs s)
unfolding run_next handle settle_pending
run_next-IsStranded self fut [] s e v = v
run_next-IsStranded self fut (settle other is_exc obj ∷ hs) s e v =
    let apart : ((other == fut) || settling fut hs) ≡ false = ground (arith, e, v.unsettled) in
    settle_pending-IsStranded self fut other (fate_of is_exc obj) (get other s.futures)
      (record s { ready = hs }) (ground arith)
      (record {
        unready = v.unready;
        unheld = v.unheld;
        unsettled = ground arith;
        waits = v.waits;
        known = v.known;
      })
run_next-IsStranded self fut (done other ∷ hs) s e v = record {
  unready = ground (arith, v.unready);
  unheld = λ number. unheld-release self number s v.unheld;
  unsettled = ground (arith, e, v.unsettled);
  waits = v.waits;
  known = v.known;
}

answer_slot-IsStranded :
    (self fut seq : ℕ) (ttl is_exc : Bool) (obj : ℕ) (found : Option ℕ) (s : Awaiting)
    → holds self found ≡ false
    → IsStranded self fut s
    → IsStranded self fut (answer_slot self seq ttl is_exc obj found s)
unfolding answer_slot
answer_slot-IsStranded self fut seq ttl is_exc obj none s other v = v
answer_slot-IsStranded self fut seq ttl is_exc obj (some callback) s other v =
    let rest = record s { slots = pop seq s.slots } in
    let kept : IsStranded self fut rest = record {
      unready = v.unready;
      unheld = λ number. ground (arith, v.unheld number, get-pop seq number s.slots);
      unsettled = v.unsettled;
      waits = v.waits;
      known = v.known;
    } in
    rw other kept

await_slow-IsStranded :
    (self fut : ℕ) (enabled : Bool) (s : Awaiting)
    → IsStranded self fut s
    → IsStranded self fut (await_slow enabled s).1
unfolding await_slow get add_callback
await_slow-IsStranded self fut enabled s v = record {
  unready = ground (arith, v.unready);
  unheld = v.unheld;
  unsettled = v.unsettled;
  waits = ground (arith, v.waits, v.known);
  known = omega (arith, v.known);
}

happen-IsStranded :
    (self fut : ℕ) (e : Event) (s : Awaiting)
    → Spares fut e
    → IsStranded self fut s
    → IsStranded self fut (happen self e s)
unfolding happen answer cancel turn
happen-IsStranded self fut (awaits enabled) s spares v = elim (await_result-cases enabled s) [
  | inl (there, e) ↦ subst (IsStranded self fut) (sym e) v
  | inr (waiting, e) ↦
      subst (IsStranded self fut) (sym e) (await_slow-IsStranded self fut enabled s v)
]
happen-IsStranded self fut (answers seq ttl is_exc obj) s spares v =
    answer_slot-IsStranded self fut seq ttl is_exc obj (get seq s.slots) s (v.unheld seq) v
happen-IsStranded self fut (cancels other) s spares v =
    cancel_pending-IsStranded self fut other (get other s.futures) s spares v
happen-IsStranded self fut turns s spares v = run_next-IsStranded self fut s.ready s refl v

run-IsStranded :
    (self fut : ℕ) (events : List Event) (s : Awaiting)
    → All (Spares fut) events
    → IsStranded self fut s
    → IsStranded self fut (run self events s)
unfolding run
run-IsStranded self fut [] s spares v = v
run-IsStranded self fut (e ∷ events) s (spares, more) v =
    run-IsStranded self fut events (happen self e s) more (happen-IsStranded self fut e s spares v)

-- A future waits for a result that is not there and has at most the slot of its own number, and the
-- loop has no calls.
pub record IsWaiting (self seq fut : ℕ) (s : Awaiting) : Type 0 where
  pub unready : s.result.is_ready ≡ false
  pub numbered : s.result.seq ≡ some seq
  pub only : (number : ℕ) → (number == seq) ≡ false → holds self (get number s.slots) ≡ false
  pub quiet : s.ready ≡ []
  pub waits : get fut s.futures ≡ some pending
  pub known : fut < s.next_future

pub unheld-pop :
    (self seq number : ℕ) (slots : List (ℕ × ℕ))
    → ((n : ℕ) → (n == seq) ≡ false → holds self (get n slots) ≡ false)
    → holds self (get number (pop seq slots)) ≡ false
unheld-pop self seq number slots only =
    ground (arith, only number, get-pop seq number slots, ==_iff number seq, ==_iff seq number)

-- Where two futures wait for one result that is not there and has at most the one slot, and the
-- loop has no calls, the cancellation of one strands the other: after the next turn of the loop,
-- whatever is awaited, answered and cancelled later, it stays pending unless its own awaiter is
-- cancelled.
pub run-cancelled :
    (self seq fut other : ℕ) (events : List Event) (s : Awaiting)
    → (other == fut) ≡ false
    → IsWaiting self seq fut s
    → get other s.futures ≡ some pending
    → All (Spares fut) events
    → get fut (run self (cancels other ∷ turns ∷ events) s).futures ≡ some pending
unfolding run happen cancel cancel_pending turn run_next handle finish on_future_done
run-cancelled self seq fut other events s ne v waits spares =
    let gone = turn (cancel other s) in
    let stranded : IsStranded self fut gone = record {
      unready = ground (arith, v.unready, v.quiet, waits);
      unheld = λ number.
          ground (arith, v.numbered, v.quiet, waits, unheld-pop self seq number s.slots v.only);
      unsettled = ground (arith, v.quiet, waits);
      waits = ground (arith, v.quiet, waits, v.waits, get-set_item other fut cancelled s.futures);
      known = ground (arith, v.quiet, waits, v.known);
    } in
    (run-IsStranded self fut events gone spares stranded).waits

-- A reply after the expiry takes the slot, and leaves the result as it was.
answer-late :
    (self seq : ℕ) (is_exc : Bool) (obj : ℕ) (s : Awaiting)
    → get seq s.slots ≡ some self
    → s.result.is_ready ≡ false
    → answer self seq true is_exc obj s ≡ record s { slots = pop seq s.slots }
unfolding answer answer_slot deliver expired
answer-late self seq is_exc obj s mine unready = ground (arith, mine, unready, ==_iff self self)

-- Where a future waits for a result that has its only slot, and the loop has no calls, a reply
-- that comes after the expiry strands it: whatever is awaited, answered and cancelled later, it
-- stays pending unless its own awaiter is cancelled.
pub run-late :
    (self seq fut obj : ℕ) (is_exc : Bool) (events : List Event) (s : Awaiting)
    → get seq s.slots ≡ some self
    → IsWaiting self seq fut s
    → All (Spares fut) events
    → get fut (run self (answers seq true is_exc obj ∷ events) s).futures ≡ some pending
unfolding run happen
run-late self seq fut obj is_exc events s mine v spares =
    let late = record s { slots = pop seq s.slots } in
    let stranded : IsStranded self fut late = record {
      unready = v.unready;
      unheld = λ number. unheld-pop self seq number s.slots v.only;
      unsettled = ground (arith, v.quiet);
      waits = v.waits;
      known = v.known;
    } in
    subst (λ q. get fut (run self events q).futures ≡ some pending)
      (sym (answer-late self seq is_exc obj s mine v.unready))
      (run-IsStranded self fut events late spares stranded).waits
