-- ===== src/Witnesses/Awaits.antt =====
-- One result with two awaiters.
use rpyc_async.Prelude.{
  ℕ, ◌==◌, ◌≡◌, refl, false, true, List, [], ◌∷◌, some, none, ℕ_eq, arith, ==_iff,
}
use rpyc_async.Prelude.Dict.{get}
use rpyc_async.Protocol.Results.{fresh_result, call, expired}
use rpyc_async.Protocol.Awaits.{
  on_result, on_results, Awaiting, Event, awaits, answers, cancels, turns, run, pending, returned,
  fate_of,
}
use rpyc_async.Protocol.Awaits.Released
use rpyc_async.Protocol.Awaits.Resolved
use rpyc_async.Protocol.Awaits.Resolved.{settled}
use rpyc_async.Protocol.Awaits.Stranded
use rpyc_async.Protocol.Awaits.Stranded.{IsWaiting, holds}

-- The result is callback 7, in slot 3.
abbrev requested : Awaiting
requested = record {
  result = record fresh_result { seq = some 3 };
  slots = (2, 9) ∷ (3, 7) ∷ [];
  futures = [];
  next_future = 0;
  ready = [];
  refused = 0;
}

abbrev answered : List Event
answered = awaits true ∷ awaits true ∷ answers 3 false false 5 ∷ awaits true ∷ []

abbrev timed_out : List Event
timed_out = awaits true ∷ cancels 0 ∷ turns ∷ []

both_answered : (settled 7 answered requested).futures ≡ (1, returned 5) ∷ (0, returned 5) ∷ []
unfolding settled run fresh_result expired on_results on_result call
both_answered = refl

run-released_example : get 3 (run 7 timed_out requested).slots ≡ none
unfolding run fresh_result get
run-released_example = Released.run-released 3 7 0 timed_out requested refl refl refl refl

only_three : (number : ℕ) → (number == 3) ≡ false → holds 7 (get number requested.slots) ≡ false
unfolding get
only_three number other = ground (arith, ==_iff number 3)

run-resolved_example :
    ((settled 7 answered requested).ready ≡ [])
    × (returned 5
        ≡ fate_of
            (settled 7 answered requested).result.is_exc
            (settled 7 answered requested).result.obj)
unfolding settled run fresh_result get expired on_results on_result call
run-resolved_example =
    Resolved.run-resolved 7 3 0 (returned 5) answered requested only_three refl refl refl
      (tt, (tt, (refl, (tt, tt)))) refl refl

abbrev shared : Awaiting
shared = record requested {
  result = record fresh_result { seq = some 3; callbacks = 0 ∷ 1 ∷ [] };
  futures = (1, pending) ∷ (0, pending) ∷ [];
  next_future = 2;
}

one_waits : IsWaiting 7 3 1 shared
unfolding get fresh_result
one_waits = record {
  unready = refl;
  numbered = refl;
  only = only_three;
  quiet = refl;
  waits = refl;
  known = omega arith;
}

run-cancelled_example :
    get 1 (run 7 (cancels 0 ∷ turns ∷ answers 3 false false 5 ∷ turns ∷ []) shared).futures
    ≡ some pending
unfolding get
run-cancelled_example =
    Stranded.run-cancelled 7 3 1 0 (answers 3 false false 5 ∷ turns ∷ []) shared refl one_waits refl
      (tt, (tt, tt))

run-late_example :
    get 1 (run 7 (answers 3 true false 5 ∷ awaits true ∷ turns ∷ []) shared).futures ≡ some pending
unfolding get
run-late_example =
    Stranded.run-late 7 3 1 5 false (awaits true ∷ turns ∷ []) shared refl one_waits (tt, (tt, tt))
