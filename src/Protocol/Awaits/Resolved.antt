-- ===== src/Protocol/Awaits/Resolved.antt =====
-- What the futures of a result get, where nobody is cancelled and no reply comes late.
use rpyc_async.Prelude.{
  ℕ, Bool, true, false, List, [], ◌∷◌, ◌++◌, All, Option, none, some, ◌≡◌, refl, ◌⊎◌, inl, inr,
  ◌==◌, ==_iff, arith, ℕ_eq, ap, sym, ◌∙◌, subst, Bool-cases,
}
use rpyc_async.Prelude.Dict.{get, pop, get-pop}
use rpyc_async.Protocol.Results.{Result, add_callback, on_future_done}
use rpyc_async.Protocol.Awaits.Stranded.{settling, holds, unheld-release}
use rpyc_async.Protocol.Awaits.{
  Fate, Handle, settle, done, Awaiting, await_slow, deliver, answer, answer_slot, handle, turn,
  run_next, Event, awaits, answers, cancels, turns, happen, run, settle_pending, await_result-cases,
  fate_of,
}
use rpyc_async.Protocol.Awaits.Told.{
  Orderly, member, Waits, Has, Tells, IsOpen, IsAnswered, deliver-IsAnswered,
}
use rpyc_async.Protocol.Awaits.Turns.{weight, idle, idle-Orderly, run-idle}
use rpyc_async.Protocol.Awaits.Settled.{others_keep, settle-IsAnswered}

same_keeps :
    (s t : Awaiting) (fut : ℕ) (found : Option Fate)
    → s.result.is_exc ≡ t.result.is_exc
    → s.result.obj ≡ t.result.obj
    → settling fut s.ready ≡ settling fut t.ready
    → Has s fut found
    → Has t fut found
same_keeps s t fut none exc value same h = tt
same_keeps s t fut (some fate) exc value same (inl e) = inl (ground (arith, exc, value, e))
same_keeps s t fut (some fate) exc value same (inr (waits, soon)) = inr (waits, sym same ∙ soon)

on_future_done-result :
    (r : Result) (slots : List (ℕ × ℕ))
    → ((on_future_done r slots).0.is_exc ≡ r.is_exc)
      × ((on_future_done r slots).0.obj ≡ r.obj)
      × ((on_future_done r slots).0.is_ready ≡ r.is_ready)
unfolding on_future_done
on_future_done-result r slots = (refl, refl, refl)

run_next-IsAnswered :
    (self : ℕ) (hs : List Handle) (s : Awaiting)
    → s.ready ≡ hs
    → IsAnswered self s
    → IsAnswered self (run_next hs s)
unfolding run_next handle
run_next-IsAnswered self [] s e v = v
run_next-IsAnswered self (settle fut is_exc obj ∷ hs) s e v =
    let (exc, value, rest) = subst (Tells s.result.is_exc s.result.obj) e v.tells in
    let fate : fate_of s.result.is_exc s.result.obj ≡ fate_of is_exc obj =
      ap (λ b. fate_of b s.result.obj) (sym exc) ∙ ap (fate_of is_exc) (sym value) in
    subst
      (λ q. IsAnswered self (settle_pending fut q (get fut s.futures) (record s { ready = hs })))
      fate
      (settle-IsAnswered self fut hs (get fut s.futures) s refl (v.has fut) (record {
        unheld = v.unheld;
        there = v.there;
        tells = rest;
        others = λ f other. others_keep s hs fut f is_exc obj (get f s.futures) e other (v.has f);
      }))
run_next-IsAnswered self (done fut ∷ hs) s e v =
    let t = handle (done fut) (record s { ready = hs }) in
    let same : (t.result.is_exc ≡ s.result.is_exc)
        × (t.result.obj ≡ s.result.obj)
        × (t.result.is_ready ≡ s.result.is_ready) =
      on_future_done-result s.result s.slots in
    record {
      unheld = λ number. unheld-release self number s v.unheld;
      there = same.2 ∙ v.there;
      tells =
          subst (λ b. Tells b t.result.obj hs) (sym same.0)
            (subst (λ o. Tells s.result.is_exc o hs) (sym same.1)
              (subst (Tells s.result.is_exc s.result.obj) e v.tells));
      has = λ f.
          same_keeps s t f (get f s.futures) (sym same.0) (sym same.1) (ap (settling f) e)
            (v.has f);
    }

answer-IsAnswered :
    (self seq : ℕ) (ttl is_exc : Bool) (obj : ℕ) (found : Option ℕ) (s : Awaiting)
    → holds self found ≡ false
    → IsAnswered self s
    → IsAnswered self (answer_slot self seq ttl is_exc obj found s)
unfolding answer_slot
answer-IsAnswered self seq ttl is_exc obj none s other v = v
answer-IsAnswered self seq ttl is_exc obj (some callback) s other v =
    let rest = record s { slots = pop seq s.slots } in
    let kept : IsAnswered self rest = record {
      unheld = λ number. ground (arith, v.unheld number, get-pop seq number s.slots);
      there = v.there;
      tells = v.tells;
      has = λ f. same_keeps s rest f (get f s.futures) refl refl refl (v.has f);
    } in
    rw other kept

member-append : (fut : ℕ) (fs gs : List ℕ) → member fut fs ≡ true → member fut (fs ++ gs) ≡ true
member-append fut [] gs h = absurd (cc)
member-append fut (f ∷ fs) gs h = ground (arith, member-append fut fs gs)

member-append_last : (fut : ℕ) (fs : List ℕ) → member fut (fs ++ fut ∷ []) ≡ true
member-append_last fut [] = ground (arith, ==_iff fut fut)
member-append_last fut (f ∷ fs) = ground (arith, member-append_last fut fs)

-- A new awaiter leaves the callbacks of the others where they are.
grown_keeps :
    (s t : Awaiting) (next fut : ℕ) (found : Option Fate)
    → t.result.callbacks ≡ s.result.callbacks ++ next ∷ []
    → Waits s fut found
    → Waits t fut found
grown_keeps s t next fut none e h = tt
grown_keeps s t next fut (some fate) e (waits, known) =
    (waits, ap (member fut) e ∙ member-append fut s.result.callbacks (next ∷ []) known)

add_callback-waiting :
    (fut : ℕ) (r : Result)
    → r.is_ready ≡ false
    → ((add_callback fut r).callbacks ≡ r.callbacks ++ fut ∷ [])
      × ((add_callback fut r).is_ready ≡ false)
unfolding add_callback
add_callback-waiting fut r h = ground (arith, h)

await_slow-IsOpen :
    (self seq : ℕ) (enabled : Bool) (s : Awaiting)
    → IsOpen self seq s
    → IsOpen self seq (await_slow enabled s).1
unfolding await_slow get
await_slow-IsOpen self seq enabled s v =
    let t = (await_slow enabled s).1 in
    let (grows, unready) = add_callback-waiting s.next_future s.result v.unready in
    record {
      only = v.only;
      unready = unready;
      quiet = v.quiet;
      waits = λ f. elim (Bool-cases (s.next_future == f)) [
        | inl new ↦ rw new (
          refl,
          ap (member f) grows
              ∙ ap (λ k. member f (s.result.callbacks ++ k ∷ [])) ((==_iff s.next_future f).0 new)
              ∙ member-append_last f s.result.callbacks,
        )
        | inr old ↦ rw old (grown_keeps s t s.next_future f (get f s.futures) grows (v.waits f))
      ];
    }

pop-IsOpen :
    (self seq number : ℕ) (s : Awaiting)
    → IsOpen self seq s
    → IsOpen self seq (record s { slots = pop number s.slots })
pop-IsOpen self seq number s v = record {
  only = λ n other. ground (arith, v.only n other, get-pop number n s.slots);
  unready = v.unready;
  quiet = v.quiet;
  waits = v.waits;
}

-- The result of a run: not answered yet, or answered with everybody told.
abbrev Fine : ℕ → ℕ → Awaiting → Type 0
Fine self seq s = IsOpen self seq s ⊎ IsAnswered self s

answer-Fine :
    (self seq number : ℕ) (is_exc : Bool) (obj : ℕ) (found : Option ℕ) (s : Awaiting)
    → get number s.slots ≡ found
    → IsOpen self seq s
    → Fine self seq (answer_slot self number false is_exc obj found s)
unfolding answer_slot
answer-Fine self seq number is_exc obj none s e v = inl v
answer-Fine self seq number is_exc obj (some callback) s e v =
    elim (Bool-cases (callback == self)) [
      | inr other ↦ rw other (inl (pop-IsOpen self seq number s v))
      | inl own ↦ rw own (elim (Bool-cases (number == seq)) [
        | inl here ↦ inr (
            subst
              (λ n. IsAnswered self (deliver false is_exc obj (record s { slots = pop n s.slots })))
              (sym ((==_iff number seq).0 here)) (deliver-IsAnswered self seq is_exc obj s v))
        | inr there ↦ absurd (cc (v.only number there, ap (holds self) e))
      ])
    ]

happen-Fine :
    (self seq : ℕ) (e : Event) (s : Awaiting)
    → Orderly e
    → IsOpen self seq s
    → Fine self seq (happen self e s)
unfolding happen answer turn
happen-Fine self seq (awaits enabled) s orderly v = elim (await_result-cases enabled s) [
  | inl (there, e) ↦ inl (subst (IsOpen self seq) (sym e) v)
  | inr (waiting, e) ↦
      inl (subst (IsOpen self seq) (sym e) (await_slow-IsOpen self seq enabled s v))
]
happen-Fine self seq (answers number ttl is_exc obj) s orderly v =
    subst (λ b. Fine self seq (answer_slot self number b is_exc obj (get number s.slots) s))
      (sym orderly) (answer-Fine self seq number is_exc obj (get number s.slots) s refl v)
happen-Fine self seq (cancels fut) s orderly v = absurd orderly
happen-Fine self seq turns s orderly v =
    inl (subst (λ hs. IsOpen self seq (run_next hs s)) (sym v.quiet) v)

happen-IsAnswered :
    (self : ℕ) (e : Event) (s : Awaiting)
    → Orderly e
    → IsAnswered self s
    → IsAnswered self (happen self e s)
unfolding happen answer turn
happen-IsAnswered self (awaits enabled) s orderly v = elim (await_result-cases enabled s) [
  | inl (there, e) ↦ subst (IsAnswered self) (sym e) v
  | inr (waiting, e) ↦ absurd (cc (v.there))
]
happen-IsAnswered self (answers number ttl is_exc obj) s orderly v =
    answer-IsAnswered self number ttl is_exc obj (get number s.slots) s (v.unheld number) v
happen-IsAnswered self (cancels fut) s orderly v = absurd orderly
happen-IsAnswered self turns s orderly v = run_next-IsAnswered self s.ready s refl v

run-Fine :
    (self seq : ℕ) (events : List Event) (s : Awaiting)
    → All Orderly events
    → Fine self seq s
    → Fine self seq (run self events s)
unfolding run
run-Fine self seq [] s orderly v = v
run-Fine self seq (e ∷ events) s (orderly, more) (inl v) =
    run-Fine self seq events (happen self e s) more (happen-Fine self seq e s orderly v)
run-Fine self seq (e ∷ events) s (orderly, more) (inr v) =
    run-Fine self seq events (happen self e s) more (inr (happen-IsAnswered self e s orderly v))

fate_known :
    (self seq : ℕ) (s : Awaiting) (fut : ℕ) (fate : Fate)
    → Fine self seq s
    → s.result.is_ready ≡ true
    → s.ready ≡ []
    → get fut s.futures ≡ some fate
    → fate ≡ fate_of s.result.is_exc s.result.obj
fate_known self seq s fut fate (inl v) there quiet e = absurd (cc (v.unready))
fate_known self seq s fut fate (inr v) there quiet e = elim (subst (Has s fut) e (v.has fut)) [
  | inl same ↦ same
  | inr (waits, soon) ↦ absurd (cc (soon, ap (settling fut) quiet))
]

-- After the events, the loop runs the calls that wait.
unfoldable pub settled : ℕ → List Event → Awaiting → Awaiting
settled self events s = let t = run self events s in run self (idle (weight t.ready)) t

-- After any awaits, replies and turns of the event loop, where no awaiter is cancelled, no reply
-- comes after the expiry, and the result had at most the one slot and no futures at the start, the
-- loop runs out of the calls that wait, and then, if the answer is there, each future that was
-- handed out has been settled with it, or, where the answer is a StopIteration, which
-- set_exception refuses, is pending.
pub run-resolved :
    (self seq fut : ℕ) (fate : Fate) (events : List Event) (s : Awaiting)
    → ((number : ℕ) → (number == seq) ≡ false → holds self (get number s.slots) ≡ false)
    → s.result.is_ready ≡ false
    → s.futures ≡ []
    → s.ready ≡ []
    → All Orderly events
    → (settled self events s).result.is_ready ≡ true
    → get fut (settled self events s).futures ≡ some fate
    → ((settled self events s).ready ≡ [])
      × (fate ≡ fate_of (settled self events s).result.is_exc (settled self events s).result.obj)
unfolding get settled
run-resolved self seq fut fate events s only unready new quiet orderly there known =
    let t = run self events s in
    let fine =
      run-Fine self seq events s orderly
        (inl (record { only = only; unready = unready; quiet = quiet; waits = λ f. rw new tt })) in
    let after = run-Fine self seq (idle (weight t.ready)) t (idle-Orderly (weight t.ready)) fine in
    let drained = run-idle self (weight t.ready) t (omega arith) in
    (
      drained,
      fate_known self seq (run self (idle (weight t.ready)) t) fut fate after there drained known,
    )
