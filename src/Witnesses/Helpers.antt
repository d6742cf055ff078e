-- ===== src/Witnesses/Helpers.antt =====
-- A buffered iteration, and tasks that are forgotten.
use rpyc_async.Prelude.{ℕ, ◌≡◌, refl, true, false, List, [], ◌∷◌, pos, max, arith, some, none}
use rpyc_async.Helpers.Buffer.{buffiter}
use rpyc_async.Helpers.Buffer.Complete
use rpyc_async.Helpers.Buffer.Complete.{Completes}
use rpyc_async.Helpers.Background.{
  Event, forgets, forgets_call, ends, calls_back, collects, run, new_loop, lost, Job, value,
  exception, run_with_callbacks, succeeds, prints_success_error, returned,
}
use rpyc_async.Helpers.Background.Pinned
use rpyc_async.Helpers.Background.Pinned.{Agrees}

growing :
    (buffiter {A = ℕ} (pos 1) (pos 3) (pos 2) (7 ∷ 8 ∷ 9 ∷ 7 ∷ 8 ∷ [])).asked
    ≡ pos 1 ∷ pos 2 ∷ pos 3 ∷ pos 3 ∷ []
unfolding buffiter
growing = refl

-- A maximal chunk of 0 ends the iteration behind the first chunk.
cut_off : (buffiter {A = ℕ} (pos 2) (pos 0) (pos 2) (7 ∷ 8 ∷ 9 ∷ [])).yielded ≡ 7 ∷ 8 ∷ []
unfolding buffiter
cut_off = refl

buffiter_complete_example :
    Completes {A = ℕ}
      (max 1 3)
      (7 ∷ 8 ∷ 9 ∷ [])
      (buffiter {A = ℕ} (pos 1) (pos 3) (pos 2) (7 ∷ 8 ∷ 9 ∷ []))
buffiter_complete_example =
    Complete.buffiter_complete 1 3 2 (7 ∷ 8 ∷ 9 ∷ []) (omega arith) (omega arith) (omega arith)

abbrev forgotten : List Event
forgotten =
    forgets true
    ∷ forgets_call false true true
    ∷ collects 0
    ∷ collects 1
    ∷ ends 1
    ∷ calls_back 1
    ∷ []

first_lost : (run forgotten new_loop).tasks 0 ≡ lost false
unfolding run
first_lost = refl

run-pinned_example : Agrees ((run forgotten new_loop).tasks 1) ((run forgotten new_loop).inflight 1)
run-pinned_example = Pinned.run-pinned forgotten 1

-- A success callback that raises is printed, and the error callback is not called.
abbrev failing : Job
failing = record {
  awaitable = λ timeout. value 3;
  timeout = none;
  success_callback = some (λ result. exception 4);
  error_callback = some (λ exc. value 0);
}

failing_printed : run_with_callbacks failing ≡ (succeeds 3 ∷ prints_success_error ∷ [], returned)
unfolding run_with_callbacks
failing_printed = refl
