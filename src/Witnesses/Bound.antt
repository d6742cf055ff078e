-- ===== src/Witnesses/Bound.antt =====
-- Two threads and the messages for them, and a thread that left the pool's list stale.
use rpyc_async.Prelude.{ℕ, ◌≡◌, refl, false, List, [], ◌∷◌, ◌++◌, All, pos}
use rpyc_async.Protocol.Bound.{
  Message, Move, serves, wakes, receives, occupies, starts, arrives, run, new_bound,
}
use rpyc_async.Protocol.Bound.Exclusive
use rpyc_async.Protocol.Bound.Fifo
use rpyc_async.Protocol.Bound.Logs.{of, Addressed}

abbrev to_thread : ℕ → ℕ → Message
to_thread local body = record { remote_thread_id = 9; local_thread_id = local; body = body }

abbrev shared : List Move
shared =
    serves 1
    ∷ serves 2
    ∷ receives 1 (arrives (to_thread 2 50))
    ∷ receives 1 (arrives (to_thread 2 51))
    ∷ occupies 1 (pos 1)
    ∷ receives 1 (arrives (to_thread 0 52))
    ∷ wakes 2
    ∷ receives 1 (arrives (to_thread 1 53))
    ∷ starts 3
    ∷ []

shared_result : (run shared new_bound).dispatched ≡ (2, to_thread 2 50) ∷ (1, to_thread 1 53) ∷ []
unfolding run
shared_result = refl

run-order_example :
    (of 2 (run shared new_bound).dispatched ++ ((run shared new_bound).threads 2).deque
      ≡ of 2 (run shared new_bound).given)
    × All Addressed (run shared new_bound).given
run-order_example = Fifo.run-order shared 2

run-IsExclusive_example :
    Exclusive.IsExclusive
      (run shared new_bound).receiving_now
      (Exclusive.pcs (run shared new_bound))
run-IsExclusive_example = Exclusive.run-IsExclusive shared

-- Thread 2 timed out and is still in the pool: it is told to receive, and thread 3 waits on.
abbrev stale : List Move
stale = serves 1 ∷ serves 2 ∷ wakes 2 ∷ serves 3 ∷ receives 1 (arrives (to_thread 1 50)) ∷ []

nobody_told : ((run stale new_bound).threads 3).event ≡ false
unfolding run
nobody_told = refl

nobody_receives : (run stale new_bound).receiving_now ≡ false
unfolding run
nobody_receives = refl
