-- ===== src/Helpers/Background/Pinned.antt =====
-- The tasks that `_INFLIGHT` keeps alive.
use rpyc_async.Prelude.{
  ℕ, Bool, true, false, List, [], ◌∷◌, ◌==◌, ==_iff, ◌≡◌, refl, arith, inl, inr, Bool-cases, ◌≤◌,
  ◌≢◌, subst, sym, ◌∙◌,
}
use rpyc_async.Outcome.{Outcome, ok, raise}
use rpyc_async.Helpers.Background.{
  Task, absent, running, done, discarded, lost, Loop, update, create_task, fire_and_forget,
  fire_and_forget_async, fire_and_forget_call, closing, end_task, discard, collect, Event, forgets,
  forgets_async, forgets_call, ends, calls_back, collects, happen, run, new_loop,
}

-- What `_INFLIGHT` must say of a task.
abbrev pub Agrees : Task → Bool → Type 0
Agrees absent pinned = pinned ≡ false
Agrees (running made) pinned = pinned ≡ made
Agrees (done made) pinned = pinned ≡ made
Agrees (discarded made) pinned = pinned ≡ false
Agrees (lost made) pinned = (made ≡ false) × (pinned ≡ false)

record IsLoop (s : Loop) : Type 0 where
  agrees : (i : ℕ) → Agrees (s.tasks i) (s.inflight i)
  fresh : (i : ℕ) → s.next_task ≤ i → s.tasks i ≡ absent

update_one :
    (f : ℕ → Task) (g : ℕ → Bool) (i : ℕ) (task : Task)
    → Agrees task (g i)
    → ((j : ℕ) → Agrees (f j) (g j))
    → (j : ℕ) → Agrees (update f i task j) (g j)
update_one f g i task new old j = elim (Bool-cases (i == j)) [
  | inl same ↦ rw same (subst (λ k. Agrees task (g k)) ((==_iff i j).0 same) new)
  | inr other ↦ rw other (old j)
]

update_both :
    (f : ℕ → Task) (g : ℕ → Bool) (i : ℕ) (task : Task) (b : Bool)
    → Agrees task b
    → ((j : ℕ) → Agrees (f j) (g j))
    → (j : ℕ) → Agrees (update f i task j) (update g i b j)
update_both f g i task b new old j = elim (Bool-cases (i == j)) [
  | inl same ↦ rw same new
  | inr other ↦ rw other (old j)
]

module _ (s : Loop) (v : IsLoop s) where
  -- A task that is there goes on.
  goes_on-IsLoop :
      (i : ℕ) (task : Task)
      → s.tasks i ≢ absent
      → Agrees task (s.inflight i)
      → IsLoop (record s { tasks = update s.tasks i task })
  goes_on-IsLoop i task there new = record {
    agrees = update_one s.tasks s.inflight i task new v.agrees;
    fresh =
        λ j late. ground (arith, v.fresh j late, ==_iff i j, λ (h : s.tasks i ≡ absent). there h);
  }

  end_task-IsLoop : (i : ℕ) (task : Task) → s.tasks i ≡ task → IsLoop (end_task i task s)
  end_task-IsLoop i (running made) e =
      goes_on-IsLoop i (done made) (cc) (subst (λ t. Agrees t (s.inflight i)) e (v.agrees i))
  end_task-IsLoop i absent e = v
  end_task-IsLoop i (done made) e = v
  end_task-IsLoop i (discarded made) e = v
  end_task-IsLoop i (lost made) e = v

  discard-IsLoop : (i : ℕ) (task : Task) → s.tasks i ≡ task → IsLoop (discard i task s)
  discard-IsLoop i (done made) e = record {
    agrees = update_both s.tasks s.inflight i (discarded made) false refl v.agrees;
    fresh = λ j late. ground (arith, v.fresh j late, ==_iff i j, e);
  }
  discard-IsLoop i absent e = v
  discard-IsLoop i (running made) e = v
  discard-IsLoop i (discarded made) e = v
  discard-IsLoop i (lost made) e = v

  collect-IsLoop :
      (i : ℕ) (pinned : Bool) (task : Task)
      → s.inflight i ≡ pinned
      → s.tasks i ≡ task
      → IsLoop (collect i pinned task s)
  collect-IsLoop i true task e t = v
  collect-IsLoop i false absent e t = v
  collect-IsLoop i false (running made) e t =
      goes_on-IsLoop i (lost made) (cc)
        (sym (subst (λ k. Agrees k (s.inflight i)) t (v.agrees i)) ∙ e, e)
  collect-IsLoop i false (done made) e t = v
  collect-IsLoop i false (discarded made) e t = v
  collect-IsLoop i false (lost made) e t = v

  plain-IsLoop : IsLoop (create_task false s)
  plain-IsLoop = record {
    agrees =
        update_one s.tasks s.inflight s.next_task (running false)
          (subst (λ t. Agrees t (s.inflight s.next_task)) (v.fresh s.next_task (omega arith))
            (v.agrees s.next_task))
          v.agrees;
    fresh = λ j late. ground (arith, v.fresh j (omega arith), ==_iff s.next_task j);
  }

  pinned-IsLoop :
      IsLoop (record (create_task true s) { inflight = update s.inflight s.next_task true })
  pinned-IsLoop = record {
    agrees = update_both s.tasks s.inflight s.next_task (running true) true refl v.agrees;
    fresh = λ j late. ground (arith, v.fresh j (omega arith), ==_iff s.next_task j);
  }

  forget-IsLoop : (has_loop : Bool) → IsLoop (fire_and_forget has_loop s).1
  unfolding fire_and_forget
  forget-IsLoop true = plain-IsLoop
  forget-IsLoop false = v

  forget_async-IsLoop : (has_loop : Bool) → IsLoop (fire_and_forget_async has_loop s).1
  unfolding fire_and_forget_async
  forget_async-IsLoop true = pinned-IsLoop
  forget_async-IsLoop false = v

closing-same : (r : Outcome ℕ × Loop) → (closing r).1 ≡ r.1
closing-same (ok task, s) = refl
closing-same (raise e, s) = refl
closing-same (Outcome.out_of_fuel, s) = refl

forget_call-IsLoop :
    (awaitable callable has_loop : Bool) (s : Loop)
    → IsLoop s
    → IsLoop (fire_and_forget_call awaitable callable has_loop s).1
unfolding fire_and_forget_call
forget_call-IsLoop true callable has_loop s v = v
forget_call-IsLoop false false has_loop s v = v
forget_call-IsLoop false true has_loop s v =
    subst IsLoop (sym (closing-same (fire_and_forget_async has_loop s)))
      (forget_async-IsLoop s v has_loop)

happen-IsLoop : (e : Event) (s : Loop) → IsLoop s → IsLoop (happen e s)
unfolding happen
happen-IsLoop (forgets has_loop) s v = forget-IsLoop s v has_loop
happen-IsLoop (forgets_async has_loop) s v = forget_async-IsLoop s v has_loop
happen-IsLoop (forgets_call awaitable callable has_loop) s v =
    forget_call-IsLoop awaitable callable has_loop s v
happen-IsLoop (ends i) s v = end_task-IsLoop s v i (s.tasks i) refl
happen-IsLoop (calls_back i) s v = discard-IsLoop s v i (s.tasks i) refl
happen-IsLoop (collects i) s v = collect-IsLoop s v i (s.inflight i) (s.tasks i) refl refl

run-IsLoop : (events : List Event) (s : Loop) → IsLoop s → IsLoop (run events s)
unfolding run
run-IsLoop [] s v = v
run-IsLoop (e ∷ events) s v = run-IsLoop events (happen e s) (happen-IsLoop e s v)

-- After any calls, ends of tasks, done callbacks and collections, a task that is not there or
-- whose done callback has run is not in `_INFLIGHT`; one that runs or is done is in it exactly if
-- `fire_and_forget_async` or `fire_and_forget_call` made it; and one that was collected while it
-- ran was made by `fire_and_forget`, and is not in it.
pub run-pinned :
    (events : List Event) (i : ℕ)
    → Agrees ((run events new_loop).tasks i) ((run events new_loop).inflight i)
run-pinned events i =
    (run-IsLoop events new_loop (record { agrees = λ j. refl; fresh = λ j h. refl })).agrees i
