-- ===== src/Witnesses/Sending.antt =====
-- Two calls of `_send`: the first holds the lock, the second leaves its message to it.
use rpyc_async.Prelude.{ℕ, zero, suc, ◌≡◌, refl, List, [], ◌∷◌, arith}
use rpyc_async.Protocol.Sending.{Move, calls, steps, run, new_sender, idle}
use rpyc_async.Protocol.Sending.Delivered

abbrev contended : List Move
contended =
    calls 0 5
    ∷ steps 0
    ∷ calls 1 6
    ∷ steps 0
    ∷ steps 1
    ∷ steps 1
    ∷ steps 0
    ∷ steps 0
    ∷ steps 0
    ∷ steps 0
    ∷ steps 0
    ∷ steps 0
    ∷ steps 0
    ∷ steps 0
    ∷ steps 0
    ∷ []

both_sent : (run contended new_sender).sent ≡ 5 ∷ 6 ∷ []
unfolding run
both_sent = refl

all_idle : (i : ℕ) → (run contended new_sender).pc i ≡ idle
unfolding run
all_idle zero = refl
all_idle (suc zero) = refl
all_idle (suc (suc i)) = ground arith

run-sent_example :
    ((run contended new_sender).queue ≡ [])
    × ((run contended new_sender).sent ≡ (run contended new_sender).appended)
unfolding run
run-sent_example =
    Delivered.run-sent contended
      (tt, (tt, (tt, (tt, (tt, (tt, (tt, (tt, (tt, (tt, (tt, (tt, (tt, (tt, (tt, tt)))))))))))))))
      all_idle
