-- ===== src/Protocol/Dispatch/Answers.antt =====
-- Requests and the callbacks that their answers call.
use rpyc_async.Prelude.{
  ℕ, ◌≤◌, ◌<◌, Bool, true, false, List, [], ◌∷◌, ◌++◌, All, none, some, ◌≡◌, ◌==◌, refl, arith,
  ℕ_eq, Option-cases, inl, inr, ◌⊎◌, ==_iff, ap, sym, ◌∙◌, subst, if◌then◌else◌,
}
use rpyc_async.Prelude.Dict.{get, set_item, pop, get-set_item, get-pop}
use rpyc_async.Outcome.{Outcome, ok, raise, out_of_fuel, eof_error}
use rpyc_async.Protocol.Dispatch.{
  Message, request, reply, exception, async_reply, async_exception, invalid, Inbound, Config, Event,
  arrives, schedules, finishes, asks, drain, enter_quarantine, dispatch, schedule, on_done, happen,
  run, seq_request_callback, answer, async_request,
}

unanswered :
    (seq : ℕ) (is_exc : Bool) (obj : ℕ) (s : Inbound)
    → get seq s.callbacks ≡ none
    → seq_request_callback seq is_exc obj s ≡ s
unfolding seq_request_callback
unanswered seq is_exc obj s missing = rw (missing, seq_request_callback)

answered :
    (seq callback : ℕ) (is_exc : Bool) (obj : ℕ) (s : Inbound)
    → get seq s.callbacks ≡ some callback
    → seq_request_callback seq is_exc obj s ≡ record s {
      callbacks = pop seq s.callbacks;
      called = s.called ++ (callback, is_exc, obj) ∷ [];
    }
unfolding seq_request_callback
answered seq callback is_exc obj s there = rw (there, seq_request_callback)

popped : (seq : ℕ) (d : List (ℕ × ℕ)) → get seq (pop seq d) ≡ none
popped seq d = rw (get-pop seq seq d, (==_iff seq seq).1 refl)

-- A second answer to a request changes nothing: its callback is called once.
pub seq_request_callback-once :
    (seq : ℕ) (is_exc again : Bool) (obj other : ℕ) (s : Inbound)
    → seq_request_callback seq again other (seq_request_callback seq is_exc obj s)
      ≡ seq_request_callback seq is_exc obj s
seq_request_callback-once seq is_exc again obj other s = elim (Option-cases (get seq s.callbacks)) [
  | inl missing ↦
      ap (seq_request_callback seq again other) (unanswered seq is_exc obj s missing)
      ∙ (unanswered seq again other s missing ∙ sym (unanswered seq is_exc obj s missing))
  | inr (callback, there) ↦
      let e = answered seq callback is_exc obj s there in
      unanswered seq again other (seq_request_callback seq is_exc obj s)
        (ap (λ t. get seq t.callbacks) e ∙ popped seq s.callbacks)
]

-- The numbers of the requests that wait for an answer are below the counter.
abbrev pub IsInbound : Inbound → Type 0
IsInbound s = (seq : ℕ) → s.next_seq ≤ seq → get seq s.callbacks ≡ none

restored :
    (callback : ℕ) (s : Inbound)
    → IsInbound s
    → (seq : ℕ)
    → get seq (pop s.next_seq (set_item s.next_seq callback s.callbacks)) ≡ get seq s.callbacks
restored callback s v seq = ground (
  arith,
  get-pop s.next_seq seq (set_item s.next_seq callback s.callbacks),
  get-set_item s.next_seq seq callback s.callbacks,
  ==_iff s.next_seq seq,
  v seq,
)

-- A request that was sent and then answered has called its own callback with the answer, and left
-- the callbacks of all other requests as they were, where the numbers in use are below the
-- counter.
pub answer-async_request :
    (callback obj : ℕ) (is_exc : Bool) (s : Inbound)
    → IsInbound s
    → ((answer s.next_seq is_exc (ok obj) (async_request callback true s).1).1.called
        ≡ s.called ++ (callback, is_exc, obj) ∷ [])
      × ((seq : ℕ)
          → get seq
              (answer s.next_seq is_exc (ok obj) (async_request callback true s).1).1.callbacks
            ≡ get seq s.callbacks)
unfolding answer async_request
answer-async_request callback obj is_exc s v =
    let there : get s.next_seq (set_item s.next_seq callback s.callbacks) ≡ some callback =
      rw
        (
          get-set_item s.next_seq s.next_seq callback s.callbacks,
          (==_iff s.next_seq s.next_seq).1 refl,
        )
        refl in
    let e = answered s.next_seq callback is_exc obj (async_request callback true s).1 there in
    (ap (λ t. t.called) e, λ seq. ap (λ t. get seq t.callbacks) e ∙ restored callback s v seq)

-- The message is no answer to the request.
abbrev pub LeavesMessage : ℕ → Message → Type 0
LeavesMessage seq (request n needs_async) = Unit {0}
LeavesMessage seq (reply n obj) = (n == seq) ≡ false
LeavesMessage seq (exception n obj) = (n == seq) ≡ false
LeavesMessage seq (async_reply n obj) = (n == seq) ≡ false
LeavesMessage seq (async_exception n obj) = (n == seq) ≡ false
LeavesMessage seq invalid = Unit {0}

abbrev pub Leaves : ℕ → Event → Type 0
Leaves seq (arrives m) = LeavesMessage seq m
Leaves seq schedules = Unit {0}
Leaves seq finishes = Unit {0}
Leaves seq (asks callback sends) = Unit {0}

-- The callback waits under a number that is not given again, unless the quarantine dropped it.
record Waits (seq callback : ℕ) (s : Inbound) : Type 0 where
  given : seq < s.next_seq
  slot : (s.quarantined ≡ true) ⊎ (get seq s.callbacks ≡ some callback)

module _ (seq callback : ℕ) where
  seq_request_callback-Waits :
      (n : ℕ) (is_exc : Bool) (obj : ℕ) (s : Inbound)
      → (n == seq) ≡ false
      → Waits seq callback s
      → Waits seq callback (seq_request_callback n is_exc obj s)
  seq_request_callback-Waits n is_exc obj s other v = elim (Option-cases (get n s.callbacks)) [
    | inl missing ↦ subst (Waits seq callback) (sym (unanswered n is_exc obj s missing)) v
    | inr (found, there) ↦
        subst (Waits seq callback) (sym (answered n found is_exc obj s there)) (record {
          given = v.given;
          slot = elim v.slot [
            | inl dropped ↦ inl dropped
            | inr waits ↦ inr (rw (get-pop n seq s.callbacks, other) waits)
          ];
        })
  ]

  answer-Waits :
      (n : ℕ) (is_exc : Bool) (obj : Outcome ℕ) (s : Inbound)
      → (n == seq) ≡ false
      → Waits seq callback s
      → Waits seq callback (answer n is_exc obj s).1
  unfolding answer
  answer-Waits n is_exc (ok obj) s other v = seq_request_callback-Waits n is_exc obj s other v
  answer-Waits n is_exc (raise e) s other v = v
  answer-Waits n is_exc out_of_fuel s other v = v

  dispatch-Waits :
      (c : Config) (m : Message) (s : Inbound)
      → LeavesMessage seq m
      → Waits seq callback s
      → Waits seq callback (dispatch c m s).1
  unfolding dispatch enter_quarantine drain
  dispatch-Waits c (request n needs_async) s other v = record {
    given = ground (arith, v.given);
    slot = ground (arith, v.slot);
  }
  dispatch-Waits c (reply n obj) s other v = answer-Waits n false obj s other v
  dispatch-Waits c (exception n obj) s other v = answer-Waits n true obj s other v
  dispatch-Waits c (async_reply n obj) s other v = answer-Waits n false obj s other v
  dispatch-Waits c (async_exception n obj) s other v = answer-Waits n true obj s other v
  dispatch-Waits c invalid s other v = v

  asks-Waits :
      (another : ℕ) (sends : Bool) (s : Inbound)
      → Waits seq callback s
      → Waits seq callback (async_request another sends s).1
  unfolding async_request
  asks-Waits another sends s v = record {
    given = ground (arith, v.given);
    slot = ground (
      arith,
      v.slot,
      v.given,
      get-pop s.next_seq seq (set_item s.next_seq another s.callbacks),
      get-set_item s.next_seq seq another s.callbacks,
      ==_iff s.next_seq seq,
    );
  }

  happen-Waits :
      (c : Config) (e : Event) (s : Inbound)
      → Leaves seq e
      → Waits seq callback s
      → Waits seq callback (happen c e s)
  unfolding happen schedule on_done
  happen-Waits c (arrives m) s other v = dispatch-Waits c m s other v
  happen-Waits c schedules s other v = record {
    given = ground (arith, v.given);
    slot = ground (arith, v.slot);
  }
  happen-Waits c finishes s other v = record { given = v.given; slot = v.slot }
  happen-Waits c (asks another sends) s other v = asks-Waits another sends s v

  run-Waits :
      (c : Config) (events : List Event) (s : Inbound)
      → All (Leaves seq) events
      → Waits seq callback s
      → Waits seq callback (run c events s)
  unfolding run
  run-Waits c [] s other v = v
  run-Waits c (e ∷ events) s (other, others) v =
      run-Waits c events (happen c e s) others (happen-Waits c e s other v)

sent-Waits :
    (callback : ℕ) (s : Inbound) → Waits s.next_seq callback (async_request callback true s).1
unfolding async_request
sent-Waits callback s = record {
  given = omega arith;
  slot = inr (
      rw
        (
          get-set_item s.next_seq s.next_seq callback s.callbacks,
          (==_iff s.next_seq s.next_seq).1 refl,
        )
        refl);
}

-- A callback waits for the answer to its request through any other requests, answers to them,
-- events of tasks and messages, in any order, as long as the connection is not in quarantine: the
-- answer then calls it, and no other, takes it out of the table, and leaves the callbacks of all
-- other requests as they were.
pub answer-run :
    (c : Config) (callback obj : ℕ) (is_exc : Bool) (events : List Event) (s : Inbound)
    → All (Leaves s.next_seq) events
    → (run c events (async_request callback true s).1).quarantined ≡ false
    → let t = run c events (async_request callback true s).1 in
      let t' = (answer s.next_seq is_exc (ok obj) t).1 in
      (t'.called ≡ t.called ++ (callback, is_exc, obj) ∷ [])
      × ((seq : ℕ)
          → get seq t'.callbacks ≡ (if s.next_seq == seq then none else get seq t.callbacks))
unfolding answer
answer-run c callback obj is_exc events s others free =
    let t = run c events (async_request callback true s).1 in
    let v =
      run-Waits s.next_seq callback c events (async_request callback true s).1 others
        (sent-Waits callback s) in
    elim v.slot [
      | inl dropped ↦ absurd (cc (dropped, free))
      | inr there ↦
          let e = answered s.next_seq callback is_exc obj t there in
          (
            ap (λ q. q.called) e,
            λ seq. ap (λ q. get seq q.callbacks) e ∙ get-pop s.next_seq seq t.callbacks,
          )
    ]

-- A request that could not be sent raises and leaves no callback behind, where the numbers in use
-- are below the counter.
pub async_request-failed :
    (callback : ℕ) (s : Inbound)
    → IsInbound s
    → ((async_request callback false s).0 ≡ raise eof_error)
      × IsInbound (async_request callback false s).1
      × ((seq : ℕ) → get seq (async_request callback false s).1.callbacks ≡ get seq s.callbacks)
unfolding async_request
async_request-failed callback s v =
    (refl, λ seq le. restored callback s v seq ∙ v seq (omega (arith, le)), restored callback s v)
