-- ===== src/Protocol/Awaits/Turns.antt =====
-- The loop runs out of the calls of one result.
use rpyc_async.Prelude.{
  ℕ, zero, suc, ◌≤◌, List, [], ◌∷◌, ◌++◌, All, Option, none, some, ◌≡◌, refl, arith, ℕ_eq,
}
use rpyc_async.Prelude.Dict.{get}
use rpyc_async.Protocol.Awaits.{
  Fate, pending, cancelled, returned, raised, Handle, settle, done, Awaiting, finish, handle, turn,
  run_next, Event, turns, happen, run, settle_pending, settle_open, fate_of,
}
use rpyc_async.Protocol.Awaits.Told.{Orderly}

-- The turns that the waiting calls take, with the done callbacks that they add.
abbrev pub weight : List Handle → ℕ
weight [] = 0
weight (settle fut is_exc obj ∷ hs) = suc (suc (weight hs))
weight (done fut ∷ hs) = suc (weight hs)

abbrev pub idle : ℕ → List Event
idle zero = []
idle (suc n) = turns ∷ idle n

pub idle-Orderly : (n : ℕ) → All Orderly (idle n)
idle-Orderly zero = tt
idle-Orderly (suc n) = (tt, idle-Orderly n)

weight-append_done : (fut : ℕ) (hs : List Handle) → weight (hs ++ done fut ∷ []) ≡ suc (weight hs)
weight-append_done fut [] = refl
weight-append_done fut (settle f is_exc obj ∷ hs) = omega (arith, weight-append_done fut hs)
weight-append_done fut (done f ∷ hs) = omega (arith, weight-append_done fut hs)

settle_open-weight :
    (fut : ℕ) (fate : Fate) (s : Awaiting)
    → weight (settle_open fut fate s).ready ≤ suc (weight s.ready)
unfolding settle_open finish
settle_open-weight fut pending s = omega arith
settle_open-weight fut cancelled s = omega (arith, weight-append_done fut s.ready)
settle_open-weight fut (returned r) s = omega (arith, weight-append_done fut s.ready)
settle_open-weight fut (raised e) s = omega (arith, weight-append_done fut s.ready)

settle_pending-weight :
    (fut : ℕ) (fate : Fate) (found : Option Fate) (s : Awaiting)
    → weight (settle_pending fut fate found s).ready ≤ suc (weight s.ready)
unfolding settle_pending
settle_pending-weight fut fate (some pending) s = settle_open-weight fut fate s
settle_pending-weight fut fate (some cancelled) s = omega arith
settle_pending-weight fut fate (some (returned r)) s = omega arith
settle_pending-weight fut fate (some (raised e)) s = omega arith
settle_pending-weight fut fate none s = omega arith

run_next-weight :
    (n : ℕ) (hs : List Handle) (s : Awaiting)
    → s.ready ≡ hs
    → weight hs ≤ suc n
    → weight (run_next hs s).ready ≤ n
unfolding run_next handle
run_next-weight n [] s e h = rw e (omega arith)
run_next-weight n (settle fut is_exc obj ∷ hs) s e h = omega (
  arith,
  settle_pending-weight fut (fate_of is_exc obj) (get fut s.futures) (record s { ready = hs }),
)
run_next-weight n (done fut ∷ hs) s e h = omega arith

weight-zero : (hs : List Handle) → weight hs ≤ 0 → hs ≡ []
weight-zero [] h = refl
weight-zero (settle fut is_exc obj ∷ hs) h = absurd (omega arith)
weight-zero (done fut ∷ hs) h = absurd (omega arith)

-- The loop runs out of calls.
pub run-idle : (self n : ℕ) (s : Awaiting) → weight s.ready ≤ n → (run self (idle n) s).ready ≡ []
unfolding run happen turn
run-idle self zero s h = weight-zero s.ready h
run-idle self (suc n) s h = run-idle self n (turn s) (run_next-weight n s.ready s refl h)
