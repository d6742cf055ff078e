-- ===== src/Protocol/Requests/Accounts.antt =====
-- Every request is answered once, in work, or given up.
use rpyc_async.Prelude.{
  ℕ, zero, suc, ◌+◌, Bool, true, false, List, [], ◌∷◌, ◌++◌, Option, none, some, ◌==◌, ◌≡◌, refl,
  arith, if◌then◌else◌, Option-cases, inl, inr, ◌∙◌, ap, subst,
}
use rpyc_async.Outcome.{Outcome, ok, raise, out_of_fuel, ◌>>=◌, runtime_error}
use rpyc_async.Protocol.Dispatch.{enter_quarantine, on_done}
use rpyc_async.Protocol.Requests.{
  Kind, reply, exception, async_reply, async_exception, Final, value, throws, Call, final,
  coroutine, Limits, Task, State, propagates, say, say_nothing, send, is_dead, try_send, send_safe,
  admit, dispatch_request, dispatch_async, start_first, start_task, finish_late, finish_task, past,
  take_task, close_task, end_task, Event, arrives, arrives_async, starts, ends, shuts, happen, run,
}

abbrev pub count {ℓ} : {A : Type ℓ} → (A → Bool) → List A → ℕ
count p [] = 0
count p (x ∷ xs) = if p x then suc (count p xs) else count p xs

count-++ {ℓ} : {A : Type ℓ} (p : A → Bool) (l r : List A) → count p (l ++ r) ≡ count p l + count p r
count-++ p [] r = omega arith
count-++ p (x ∷ l) r = ground (arith, count-++ p l r)

abbrev pub hit : ℕ → ℕ → ℕ
hit seq q = if q == seq then 1 else 0

abbrev pub answers : ℕ → State → ℕ
answers seq s = count (λ r. r.1 == seq) s.sent

-- The tasks and the calls of `_schedule` that work on the request.
abbrev pub in_work : ℕ → State → ℕ
in_work seq s = count (λ t. t.seq == seq) s.waiting + count (λ t. t.seq == seq) s.tasks

abbrev pub given_up : ℕ → State → ℕ
given_up seq s = count (λ q. q == seq) s.silent

abbrev pub total : ℕ → State → ℕ
total seq s = answers seq s + (in_work seq s + given_up seq s)

-- How often a number is requested.
abbrev pub asked : ℕ → List Event → ℕ
asked seq [] = 0
asked seq (arrives q call wire ∷ events) = hit seq q + asked seq events
asked seq (arrives_async q ∷ events) = hit seq q + asked seq events
asked seq (e ∷ events) = asked seq events

module _ (seq : ℕ) where
  -- One more request is accounted for.
  abbrev Adds : ℕ → State → State → Type 0
  Adds q s s' = total seq s' ≡ hit seq q + total seq s

  say-Adds : (kind : Kind) (q : ℕ) (s : State) → Adds q s (say kind q s)
  unfolding say
  say-Adds kind q s =
      ground (arith, count-++ (λ (r : Kind × ℕ). r.1 == seq) s.sent ((kind, q) ∷ []))

  say_nothing-Adds : (q : ℕ) (s : State) → Adds q s (say_nothing q s)
  unfolding say_nothing
  say_nothing-Adds q s = ground (arith, count-++ (λ p. p == seq) s.silent (q ∷ []))

  send-Adds :
      (kind : Kind) (q : ℕ) (boxed wire : Outcome (Unit {0})) (s : State)
      → Adds q s (send kind q boxed wire s).1
  unfolding send
  send-Adds kind q (ok u) (ok v) s = say-Adds kind q s
  send-Adds kind q (ok u) (raise e) s = say_nothing-Adds q s
  send-Adds kind q (ok u) out_of_fuel s = say_nothing-Adds q s
  send-Adds kind q (raise e) wire s = say_nothing-Adds q s
  send-Adds kind q out_of_fuel wire s = say_nothing-Adds q s

  either-Adds :
      (q : ℕ) (s : State) (b : Bool) (x y : Outcome (Unit {0}) × State)
      → Adds q s x.1
      → Adds q s y.1
      → Adds q s (if b then x else y).1
  either-Adds q s true x y first second = first
  either-Adds q s false x y first second = second

  try_send-Adds :
      (kind : Kind) (q : ℕ) (r : Outcome (Unit {0})) (s : State) → Adds q s (try_send kind q r s).1
  unfolding try_send
  try_send-Adds kind q (ok u) s = say-Adds kind q s
  try_send-Adds kind q (raise e) s =
      either-Adds q s (is_dead e) (ok tt, record (say_nothing q s) { closed = true })
        (raise e, say_nothing q s) (say_nothing-Adds q s) (say_nothing-Adds q s)
  try_send-Adds kind q out_of_fuel s = say_nothing-Adds q s

  send_safe-Adds :
      (kind : Kind) (q : ℕ) (boxed wire : Outcome (Unit {0})) (s : State)
      → Adds q s (send_safe kind q boxed wire s).1
  unfolding send_safe
  send_safe-Adds kind q boxed wire s =
      either-Adds q s s.closed (ok tt, say_nothing q s) (try_send kind q (boxed >>= λ u. wire) s)
        (say_nothing-Adds q s) (try_send-Adds kind q (boxed >>= λ u. wire) s)

  admit-Adds : (c : Limits) (t : Task) (s : State) → Adds t.seq s (admit c t s)
  unfolding admit
  admit-Adds c t s = ground (
    arith,
    count-++ (λ (u : Task). u.seq == seq) s.waiting (t ∷ []),
    say_nothing-Adds t.seq s,
    say_nothing-Adds t.seq (record s { inbound = enter_quarantine s.inbound }),
  )

  dispatch_request-Adds :
      (c : Limits) (q : ℕ) (call : Call) (wire : Outcome (Unit {0})) (s : State)
      → Adds q s (dispatch_request c q call wire s).1
  unfolding dispatch_request
  dispatch_request-Adds c q (final (value boxed)) wire s = send-Adds reply q boxed wire s
  dispatch_request-Adds c q (final (throws e boxed)) wire s =
      either-Adds q s (propagates c e) (raise e, say_nothing q s) (send exception q boxed wire s)
        (say_nothing-Adds q s) (send-Adds exception q boxed wire s)
  dispatch_request-Adds c q coroutine wire s =
      let t : Task = record { late = true; seq = q } in
      either-Adds q s c.asyncio_enabled (ok tt, admit c t s) (send exception q (ok tt) wire s)
        (admit-Adds c t s) (send-Adds exception q (ok tt) wire s)

  dispatch_async-Adds : (c : Limits) (q : ℕ) (s : State) → Adds q s (dispatch_async c q s).1
  unfolding dispatch_async
  dispatch_async-Adds c q s =
      let t : Task = record { late = false; seq = q } in
      either-Adds q s c.asyncio_enabled (ok tt, admit c t s) (raise runtime_error, say_nothing q s)
        (admit-Adds c t s) (say_nothing-Adds q s)

  finish_late-Adds :
      (kind : Kind) (q : ℕ) (boxed wire : Outcome (Unit {0})) (s : State)
      → Adds q s (finish_late kind q boxed wire s).1
  unfolding finish_late
  finish_late-Adds kind q (ok u) wire s = send_safe-Adds kind q (ok u) wire s
  finish_late-Adds kind q (raise e) wire s = say_nothing-Adds q s
  finish_late-Adds kind q out_of_fuel wire s = say_nothing-Adds q s

  finish_task-Adds :
      (c : Limits) (t : Task) (end : Final) (wire : Outcome (Unit {0})) (s : State)
      → Adds t.seq s (finish_task c t end wire s).1
  unfolding finish_task
  finish_task-Adds c t (value boxed) wire s =
      send_safe-Adds (if t.late then reply else async_reply) t.seq boxed wire s
  finish_task-Adds c t (throws e boxed) wire s =
      either-Adds t.seq s (propagates c e) (raise e, say_nothing t.seq s)
        (finish_late (if t.late then exception else async_exception) t.seq boxed wire s)
        (say_nothing-Adds t.seq s)
        (finish_late-Adds (if t.late then exception else async_exception) t.seq boxed wire s)

  close_task-Adds :
      (c : Limits) (t : Task) (end : Option Final) (wire : Outcome (Unit {0})) (s : State)
      → Adds t.seq s (close_task c t end wire s).1
  unfolding close_task
  close_task-Adds c t none wire s = say_nothing-Adds t.seq s
  close_task-Adds c t (some end) wire s = finish_task-Adds c t end wire s

  -- One of the tasks, and the others.
  abbrev IsTaken : Option (Task × List Task) → List Task → Type 0
  IsTaken none tasks = Unit {0}
  IsTaken (some (t, rest)) tasks =
      count (λ u. u.seq == seq) tasks ≡ hit seq t.seq + count (λ u. u.seq == seq) rest

  past-IsTaken :
      (u : Task) (o : Option (Task × List Task)) (tasks : List Task)
      → IsTaken o tasks
      → IsTaken (past u o) (u ∷ tasks)
  unfolding past
  past-IsTaken u none tasks h = tt
  past-IsTaken u (some (t, rest)) tasks h = ground (arith, h)

  take_task-IsTaken : (n : ℕ) (tasks : List Task) → IsTaken (take_task n tasks) tasks
  unfolding take_task
  take_task-IsTaken n [] = tt
  take_task-IsTaken zero (u ∷ tasks) = ground arith
  take_task-IsTaken (suc n) (u ∷ tasks) =
      past-IsTaken u (take_task n tasks) tasks (take_task-IsTaken n tasks)

  end_task-total :
      (c : Limits) (n : ℕ) (end : Option Final) (wire : Outcome (Unit {0})) (s : State)
      → total seq (end_task c n end wire s) ≡ total seq s
  unfolding end_task
  end_task-total c n end wire s = elim (Option-cases (take_task n s.tasks)) [
    | inl missing ↦ rw (missing, end_task) refl
    | inr ((t, rest), found) ↦
        let s' = record s { tasks = rest; inbound = on_done s.inbound } in
        let result : end_task c n end wire s ≡ (close_task c t end wire s').1 =
          rw (found, end_task) refl in
        let taken = subst (λ o. IsTaken o s.tasks) found (take_task-IsTaken n s.tasks) in
        ap (total seq) result ∙ omega (arith, taken, close_task-Adds c t end wire s')
  ]

  start_first-total :
      (waiting : List Task) (s : State)
      → s.waiting ≡ waiting
      → total seq (start_first waiting s) ≡ total seq s
  unfolding start_first
  start_first-total [] s e = refl
  start_first-total (t ∷ waiting) s e =
      let before = ap (count (λ (u : Task). u.seq == seq)) e in
      ground (arith, before, count-++ (λ (u : Task). u.seq == seq) s.tasks (t ∷ []))

  start_task-total : (s : State) → total seq (start_task s) ≡ total seq s
  unfolding start_task
  start_task-total s = start_first-total s.waiting s refl

  happen-total :
      (c : Limits) (e : Event) (s : State)
      → total seq (happen c e s) ≡ asked seq (e ∷ []) + total seq s
  unfolding happen
  happen-total c (arrives q call wire) s = omega (arith, dispatch_request-Adds c q call wire s)
  happen-total c (arrives_async q) s = omega (arith, dispatch_async-Adds c q s)
  happen-total c starts s = omega (arith, start_task-total s)
  happen-total c (ends n end wire) s = omega (arith, end_task-total c n end wire s)
  happen-total c shuts s = omega arith

  asked-∷ :
      (e : Event) (events : List Event)
      → asked seq (e ∷ events) ≡ asked seq (e ∷ []) + asked seq events
  asked-∷ (arrives q call wire) events = omega arith
  asked-∷ (arrives_async q) events = omega arith
  asked-∷ starts events = omega arith
  asked-∷ (ends n end wire) events = omega arith
  asked-∷ shuts events = omega arith

-- After any events, for each number, the answers that were sent for it, the tasks that work on it
-- or wait to start, and the requests given up without an answer are together as many as at the
-- start and the requests that came in with it: failures of boxing and sending, the quarantine,
-- exceptions that are raised locally and the end of the connection included.
pub run-total :
    (c : Limits) (seq : ℕ) (events : List Event) (s : State)
    → total seq (run c events s) ≡ asked seq events + total seq s
unfolding run
run-total c seq [] s = omega arith
run-total c seq (e ∷ events) s =
    let rest = run-total c seq events (happen c e s) in
    let first = happen-total seq c e s in
    let split = asked-∷ seq e events in omega (arith, rest, first, split)
