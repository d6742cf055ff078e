-- ===== src/Protocol/Awaits/Told.antt =====
-- The futures of a result are told its answer.
use rpyc_async.Prelude.{
  ℕ, Bool, true, false, List, [], ◌∷◌, ◌++◌, Option, none, some, ◌≡◌, refl, ◌⊎◌, inl, inr, ◌||◌,
  ◌==◌, ==_iff, arith, ℕ_eq, ap, sym, ◌∙◌, subst, Bool-cases,
}
use rpyc_async.Prelude.Dict.{get, pop}
use rpyc_async.Protocol.Results.{Result, call, expired}
use rpyc_async.Protocol.Awaits.Stranded.{settling, holds, unheld-pop}
use rpyc_async.Protocol.Awaits.{
  Fate, pending, cancelled, returned, raised, Handle, settle, done, Awaiting, on_result, on_pending,
  on_results, deliver, Event, awaits, answers, cancels, turns, deliver-cases, fate_of,
}

-- No awaiter is cancelled, and no reply comes after the expiry.
abbrev pub Orderly : Event → Type 0
Orderly (awaits enabled) = Unit
Orderly (answers seq ttl is_exc obj) = ttl ≡ false
Orderly (cancels fut) = ⊥
Orderly turns = Unit

abbrev pub member : ℕ → List ℕ → Bool
member fut [] = false
member fut (f ∷ fs) = (f == fut) || member fut fs

-- Every call that waits settles its future with one answer.
abbrev pub Tells : Bool → ℕ → List Handle → Type 0
Tells is_exc obj [] = Unit
Tells is_exc obj (settle fut e o ∷ hs) = (e ≡ is_exc) × (o ≡ obj) × Tells is_exc obj hs
Tells is_exc obj (done fut ∷ hs) = Tells is_exc obj hs

-- Before the answer, every future waits and is told; afterwards, each has the answer or is about to.
abbrev pub Waits : Awaiting → ℕ → Option Fate → Type 0
Waits s fut none = Unit
Waits s fut (some fate) = (fate ≡ pending) × (member fut s.result.callbacks ≡ true)

abbrev pub Has : Awaiting → ℕ → Option Fate → Type 0
Has s fut none = Unit
Has s fut (some fate) =
    (fate ≡ fate_of s.result.is_exc s.result.obj)
    ⊎ ((fate ≡ pending) × (settling fut s.ready ≡ true))

pub record IsOpen (self seq : ℕ) (s : Awaiting) : Type 0 where
  pub only : (number : ℕ) → (number == seq) ≡ false → holds self (get number s.slots) ≡ false
  pub unready : s.result.is_ready ≡ false
  pub quiet : s.ready ≡ []
  pub waits : (fut : ℕ) → Waits s fut (get fut s.futures)

pub record IsAnswered (self : ℕ) (s : Awaiting) : Type 0 where
  pub unheld : (number : ℕ) → holds self (get number s.slots) ≡ false
  pub there : s.result.is_ready ≡ true
  pub tells : Tells s.result.is_exc s.result.obj s.ready
  pub has : (fut : ℕ) → Has s fut (get fut s.futures)

pub Tells-append :
    (is_exc : Bool) (obj : ℕ) (hs ks : List Handle)
    → Tells is_exc obj hs
    → Tells is_exc obj ks
    → Tells is_exc obj (hs ++ ks)
Tells-append is_exc obj [] ks h k = k
Tells-append is_exc obj (settle fut e o ∷ hs) ks (same, equal, h) k =
    (same, equal, Tells-append is_exc obj hs ks h k)
Tells-append is_exc obj (done fut ∷ hs) ks h k = Tells-append is_exc obj hs ks h k

pub settling-append :
    (fut : ℕ) (hs ks : List Handle) → settling fut (hs ++ ks) ≡ (settling fut hs || settling fut ks)
settling-append fut [] ks = refl
settling-append fut (settle other is_exc obj ∷ hs) ks = ground (arith, settling-append fut hs ks)
settling-append fut (done other ∷ hs) ks = settling-append fut hs ks

-- The calls of `on_result`: what stays, and what they tell.
record Notified (is_exc : Bool) (obj : ℕ) (futs : List ℕ) (s t : Awaiting) : Type 0 where
  same_result : t.result ≡ s.result
  same_futures : t.futures ≡ s.futures
  same_slots : t.slots ≡ s.slots
  tells : Tells is_exc obj s.ready → Tells is_exc obj t.ready
  keeps : (fut : ℕ) → settling fut s.ready ≡ true → settling fut t.ready ≡ true
  told :
      (fut : ℕ)
      → member fut futs ≡ true
      → get fut s.futures ≡ some pending
      → settling fut t.ready ≡ true

on_pending-Notified :
    (is_exc : Bool) (obj fut : ℕ) (found : Option Fate) (s : Awaiting)
    → get fut s.futures ≡ found
    → Notified is_exc obj (fut ∷ []) s (on_pending fut is_exc obj found s)
on_pending-Notified is_exc obj fut (some pending) s e = record {
  same_result = refl;
  same_futures = refl;
  same_slots = refl;
  tells = λ h. Tells-append is_exc obj s.ready (settle fut is_exc obj ∷ []) h (refl, refl, tt);
  keeps = λ f h. ground (arith, settling-append f s.ready (settle fut is_exc obj ∷ []));
  told = λ f h p. ground (arith, settling-append f s.ready (settle fut is_exc obj ∷ []));
}
on_pending-Notified is_exc obj fut none s e = record {
  same_result = refl;
  same_futures = refl;
  same_slots = refl;
  tells = λ h. h;
  keeps = λ f h. h;
  told = λ f h p. ground (arith, ==_iff fut f);
}
on_pending-Notified is_exc obj fut (some cancelled) s e = record {
  same_result = refl;
  same_futures = refl;
  same_slots = refl;
  tells = λ h. h;
  keeps = λ f h. h;
  told = λ f h p. ground (arith, ==_iff fut f);
}
on_pending-Notified is_exc obj fut (some (returned r)) s e = record {
  same_result = refl;
  same_futures = refl;
  same_slots = refl;
  tells = λ h. h;
  keeps = λ f h. h;
  told = λ f h p. ground (arith, ==_iff fut f);
}
on_pending-Notified is_exc obj fut (some (raised r)) s e = record {
  same_result = refl;
  same_futures = refl;
  same_slots = refl;
  tells = λ h. h;
  keeps = λ f h. h;
  told = λ f h p. ground (arith, ==_iff fut f);
}

on_results-Notified :
    (is_exc : Bool) (obj : ℕ) (futs : List ℕ) (s : Awaiting)
    → Notified is_exc obj futs s (on_results is_exc obj futs s)
unfolding on_results on_result
on_results-Notified is_exc obj [] s = record {
  same_result = refl;
  same_futures = refl;
  same_slots = refl;
  tells = λ h. h;
  keeps = λ fut h. h;
  told = λ fut h p. absurd (cc);
}
on_results-Notified is_exc obj (fut ∷ futs) s =
    let one = on_pending-Notified is_exc obj fut (get fut s.futures) s refl in
    let rest = on_results-Notified is_exc obj futs (on_result is_exc obj fut s) in
    record {
      same_result = rest.same_result ∙ one.same_result;
      same_futures = rest.same_futures ∙ one.same_futures;
      same_slots = rest.same_slots ∙ one.same_slots;
      tells = λ h. rest.tells (one.tells h);
      keeps = λ f h. rest.keeps f (one.keeps f h);
      told = λ f h p. elim (Bool-cases (fut == f)) [
        | inl first ↦ rest.keeps f (one.told f (rw first refl) p)
        | inr later ↦ rest.told f (ground arith) (ap (get f) one.same_futures ∙ p)
      ];
    }

-- A future that waited has been told.
told_keeps :
    (s t : Awaiting) (is_exc : Bool) (obj fut : ℕ) (found : Option Fate)
    → get fut s.futures ≡ found
    → ((f : ℕ)
        → member f s.result.callbacks ≡ true
        → get f s.futures ≡ some pending
        → settling f t.ready ≡ true)
    → Waits s fut found
    → Has t fut found
told_keeps s t is_exc obj fut none e told h = tt
told_keeps s t is_exc obj fut (some fate) e told (waits, known) =
    inr (waits, told fut known (e ∙ ap some waits))

call_lem :
    (is_exc : Bool) (obj : ℕ) (r : Result)
    → ((call false is_exc obj r).is_ready ≡ true)
      × ((call false is_exc obj r).is_exc ≡ is_exc)
      × ((call false is_exc obj r).obj ≡ obj)
unfolding call expired
call_lem is_exc obj r = ground arith

not_late : (r : Result) → expired false r ≡ false
unfolding expired
not_late r = ground arith

-- The answer comes: every future that waits is told.
pub deliver-IsAnswered :
    (self seq : ℕ) (is_exc : Bool) (obj : ℕ) (s : Awaiting)
    → IsOpen self seq s
    → IsAnswered self (deliver false is_exc obj (record s { slots = pop seq s.slots }))
deliver-IsAnswered self seq is_exc obj s v =
    let rest = record s { slots = pop seq s.slots } in
    let start = record rest { result = call false is_exc obj s.result } in
    let all = on_results-Notified is_exc obj s.result.callbacks start in
    let t = on_results is_exc obj s.result.callbacks start in
    let (there, exc, value) = call_lem is_exc obj s.result in
    let answered : IsAnswered self t = record {
      unheld = λ number.
          ap (λ q. holds self (get number q)) all.same_slots
          ∙ unheld-pop self seq number s.slots v.only;
      there = ap (λ q. q.is_ready) all.same_result ∙ there;
      tells =
          subst (λ q. Tells q.is_exc q.obj t.ready) (sym all.same_result)
            (subst (λ b. Tells b (call false is_exc obj s.result).obj t.ready) (sym exc)
              (subst (λ o. Tells is_exc o t.ready) (sym value)
                (all.tells (subst (Tells is_exc obj) (sym v.quiet) tt))));
      has = λ fut.
          subst (λ q. Has t fut (get fut q)) (sym all.same_futures)
            (told_keeps s t is_exc obj fut (get fut s.futures) refl all.told (v.waits fut));
    } in
    elim (deliver-cases false is_exc obj rest) [
      | inl (late, e) ↦ absurd (cc (not_late s.result))
      | inr (timely, e) ↦ subst (IsAnswered self) (sym e) answered
    ]
