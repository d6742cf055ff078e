-- ===== src/Protocol/Awaits/Released.antt =====
-- The slot that an awaited result has in `_request_callbacks`.
use rpyc_async.Prelude.{
  ℕ, Bool, true, false, List, [], ◌∷◌, ◌++◌, Option, none, some, ◌≡◌, refl, ◌⊎◌, inl, inr, ◌||◌,
  ◌==◌, ==_iff, arith, ◌∙◌, sym, subst, ℕ_eq, Bool-cases,
}
use rpyc_async.Prelude.Dict.{get, pop, get-set_item, get-pop}
use rpyc_async.Protocol.Results.{Result, call, add_callback, on_future_done}
use rpyc_async.Protocol.Awaits.{
  Fate, pending, cancelled, returned, raised, Handle, settle, done, Awaiting, await_slow, on_result,
  on_results, deliver, answer, answer_slot, finish, cancel, handle, turn, run_next, Event, awaits,
  answers, cancels, turns, happen, run, settle_pending, settle_open, cancel_pending,
  await_result-cases, deliver-cases,
}

abbrev pub is_done : Option Fate → Bool
is_done none = false
is_done (some pending) = false
is_done (some cancelled) = true
is_done (some (returned v)) = true
is_done (some (raised e)) = true

-- The done callback of a future waits in the loop.
abbrev pub queued : ℕ → List Handle → Bool
queued fut [] = false
queued fut (settle other is_exc obj ∷ hs) = queued fut hs
queued fut (done other ∷ hs) = (other == fut) || queued fut hs

pub queued-append :
    (fut : ℕ) (hs ks : List Handle) → queued fut (hs ++ ks) ≡ (queued fut hs || queued fut ks)
queued-append fut [] ks = refl
queued-append fut (settle other is_exc obj ∷ hs) ks = queued-append fut hs ks
queued-append fut (done other ∷ hs) ks = ground (arith, queued-append fut hs ks)

-- The slot of a result with a future that is done goes with the callbacks that wait in the loop.
abbrev Lets : ℕ → Awaiting → ℕ → Type 0
Lets seq s fut =
    is_done (get fut s.futures) ≡ true → (queued fut s.ready ≡ true) ⊎ (get seq s.slots ≡ none)

pub record Releases (seq : ℕ) (s : Awaiting) : Type 0 where
  pub numbered : s.result.seq ≡ some seq
  pub lets : (fut : ℕ) → Lets seq s fut

on_result-Releases :
    (seq : ℕ) (is_exc : Bool) (obj fut : ℕ) (s : Awaiting)
    → Releases seq s
    → Releases seq (on_result is_exc obj fut s)
unfolding on_result
on_result-Releases seq is_exc obj fut s v = record {
  numbered = ground (arith, v.numbered);
  lets = λ f. ground (arith, v.lets f, queued-append f s.ready (settle fut is_exc obj ∷ []));
}

on_results-Releases :
    (seq : ℕ) (is_exc : Bool) (obj : ℕ) (futs : List ℕ) (s : Awaiting)
    → Releases seq s
    → Releases seq (on_results is_exc obj futs s)
unfolding on_results
on_results-Releases seq is_exc obj [] s v = v
on_results-Releases seq is_exc obj (fut ∷ futs) s v =
    on_results-Releases seq is_exc obj futs (on_result is_exc obj fut s)
      (on_result-Releases seq is_exc obj fut s v)

call-seq : (ttl is_exc : Bool) (obj : ℕ) (r : Result) → (call ttl is_exc obj r).seq ≡ r.seq
unfolding call
call-seq ttl is_exc obj r = ground arith

deliver-Releases :
    (seq : ℕ) (ttl is_exc : Bool) (obj : ℕ) (s : Awaiting)
    → Releases seq s
    → Releases seq (deliver ttl is_exc obj s)
deliver-Releases seq ttl is_exc obj s v = elim (deliver-cases ttl is_exc obj s) [
  | inl (late, e) ↦ subst (Releases seq) (sym e) v
  | inr (timely, e) ↦ subst (Releases seq) (sym e) (
      on_results-Releases seq is_exc obj s.result.callbacks
        (record s { result = call ttl is_exc obj s.result })
        (record { numbered = call-seq ttl is_exc obj s.result ∙ v.numbered; lets = v.lets }))
]

answer_slot-Releases :
    (seq self number : ℕ) (ttl is_exc : Bool) (obj : ℕ) (found : Option ℕ) (s : Awaiting)
    → Releases seq s
    → Releases seq (answer_slot self number ttl is_exc obj found s)
unfolding answer_slot
answer_slot-Releases seq self number ttl is_exc obj none s v = v
answer_slot-Releases seq self number ttl is_exc obj (some callback) s v =
    let rest = record s { slots = pop number s.slots } in
    let kept : Releases seq rest = record {
      numbered = v.numbered;
      lets = λ fut. ground (arith, v.lets fut, get-pop number seq s.slots);
    } in
    elim (Bool-cases (callback == self)) [
      | inl own ↦ rw own (deliver-Releases seq ttl is_exc obj rest kept)
      | inr other ↦ rw other kept
    ]

finish-Releases :
    (seq fut : ℕ) (fate : Fate) (s : Awaiting) → Releases seq s → Releases seq (finish fut fate s)
unfolding finish
finish-Releases seq fut fate s v = record {
  numbered = v.numbered;
  lets = λ f. ground (
    arith,
    v.lets f,
    get-set_item fut f fate s.futures,
    queued-append f s.ready (done fut ∷ []),
    ==_iff fut f,
  );
}

settle_open-Releases :
    (seq fut : ℕ) (fate : Fate) (s : Awaiting)
    → Releases seq s
    → Releases seq (settle_open fut fate s)
unfolding settle_open
settle_open-Releases seq fut pending s v = record { numbered = v.numbered; lets = v.lets }
settle_open-Releases seq fut cancelled s v = finish-Releases seq fut cancelled s v
settle_open-Releases seq fut (returned r) s v = finish-Releases seq fut (returned r) s v
settle_open-Releases seq fut (raised e) s v = finish-Releases seq fut (raised e) s v

settle_pending-Releases :
    (seq fut : ℕ) (fate : Fate) (found : Option Fate) (s : Awaiting)
    → Releases seq s
    → Releases seq (settle_pending fut fate found s)
unfolding settle_pending
settle_pending-Releases seq fut fate none s v = v
settle_pending-Releases seq fut fate (some pending) s v = settle_open-Releases seq fut fate s v
settle_pending-Releases seq fut fate (some cancelled) s v = record {
  numbered = v.numbered;
  lets = v.lets;
}
settle_pending-Releases seq fut fate (some (returned r)) s v = record {
  numbered = v.numbered;
  lets = v.lets;
}
settle_pending-Releases seq fut fate (some (raised e)) s v = record {
  numbered = v.numbered;
  lets = v.lets;
}

cancel_pending-Releases :
    (seq fut : ℕ) (found : Option Fate) (s : Awaiting)
    → Releases seq s
    → Releases seq (cancel_pending fut found s)
unfolding cancel_pending
cancel_pending-Releases seq fut none s v = v
cancel_pending-Releases seq fut (some pending) s v = finish-Releases seq fut cancelled s v
cancel_pending-Releases seq fut (some cancelled) s v = v
cancel_pending-Releases seq fut (some (returned r)) s v = v
cancel_pending-Releases seq fut (some (raised e)) s v = v

-- The done callback gives up the slot.
gives_up :
    (seq fut : ℕ) (s : Awaiting)
    → s.result.seq ≡ some seq
    → get seq (handle (done fut) s).slots ≡ none
unfolding handle on_future_done
gives_up seq fut s numbered = rw numbered (ground (arith, get-pop seq seq s.slots, ==_iff seq seq))

run_next-Releases :
    (seq : ℕ) (hs : List Handle) (s : Awaiting)
    → s.ready ≡ hs
    → Releases seq s
    → Releases seq (run_next hs s)
unfolding run_next handle settle_pending
run_next-Releases seq [] s e v = v
run_next-Releases seq (settle fut is_exc obj ∷ hs) s e v =
    settle_pending-Releases seq fut _ (get fut s.futures) (record s { ready = hs })
      (record { numbered = v.numbered; lets = λ f. ground (arith, v.lets f, e) })
run_next-Releases seq (done fut ∷ hs) s e v =
    let gone = gives_up seq fut (record s { ready = hs }) v.numbered in
    record { numbered = ground (arith, v.numbered); lets = λ f d. inr gone }

await_slow-Releases :
    (seq : ℕ) (enabled : Bool) (s : Awaiting)
    → Releases seq s
    → Releases seq (await_slow enabled s).1
unfolding await_slow get add_callback
await_slow-Releases seq enabled s v = record {
  numbered = ground (arith, v.numbered);
  lets = λ f. ground (arith, v.lets f);
}

happen-Releases :
    (seq self : ℕ) (e : Event) (s : Awaiting) → Releases seq s → Releases seq (happen self e s)
unfolding happen answer cancel turn
happen-Releases seq self (awaits enabled) s v = elim (await_result-cases enabled s) [
  | inl (there, e) ↦ subst (Releases seq) (sym e) v
  | inr (waiting, e) ↦ subst (Releases seq) (sym e) (await_slow-Releases seq enabled s v)
]
happen-Releases seq self (answers number ttl is_exc obj) s v =
    answer_slot-Releases seq self number ttl is_exc obj (get number s.slots) s v
happen-Releases seq self (cancels fut) s v = cancel_pending-Releases seq fut (get fut s.futures) s v
happen-Releases seq self turns s v = run_next-Releases seq s.ready s refl v

pub run-Releases :
    (seq self : ℕ) (events : List Event) (s : Awaiting)
    → Releases seq s
    → Releases seq (run self events s)
unfolding run
run-Releases seq self [] s v = v
run-Releases seq self (e ∷ events) s v =
    run-Releases seq self events (happen self e s) (happen-Releases seq self e s v)

-- However a result that nobody awaited before is awaited, answered and cancelled, when a future of
-- it is done and its done callback has run, the slot of the request is gone from the request
-- callbacks.
pub run-released :
    (seq self fut : ℕ) (events : List Event) (s : Awaiting)
    → s.result.seq ≡ some seq
    → s.futures ≡ []
    → is_done (get fut (run self events s).futures) ≡ true
    → queued fut (run self events s).ready ≡ false
    → get seq (run self events s).slots ≡ none
unfolding get
run-released seq self fut events s numbered new settled idle =
    let v =
      run-Releases seq self events s
        (record { numbered = numbered; lets = λ f. ground (arith, new) }) in
    elim (v.lets fut settled) [ inl waits ↦ absurd (cc) | inr gone ↦ gone ]
