-- ===== src/Protocol/Serving/Waiting.antt =====
-- `AsyncResult.wait` and `value`, the guard of `sync_request`, and `ping`.
use rpyc_async.Prelude.{
  ℕ, zero, suc, Bool, true, false, List, [], ◌∷◌, ◌++◌, Option, none, some, not, ◌&&◌, ◌||◌, ◌==◌,
  if◌then◌else◌, ◌≡◌, refl, arith, ap, ◌∙◌,
}
use rpyc_async.Outcome.{Exc, Outcome, ok, raise, timeout_error, runtime_error, ◌>>=◌}
use rpyc_async.Protocol.Results.{Result, fresh_result, call, expired}

-- What a call of `serve` brings while a result is waited for: nothing for it, its reply, or an
-- exception; with whether the time was up when the reply came, and behind the call.
pub data Turn : Type 0 where
  quiet : Bool → Turn
  replies : Bool → Bool → ℕ → Bool → Turn
  raises : Exc → Turn

abbrev pub waiting : Bool → Result → Bool
waiting up r = not (r.is_ready || (not r.is_ready && up))

-- Behind the loop of `wait`.
abbrev pub ended : Result → Outcome Result
ended r = if r.is_ready then ok r else raise timeout_error

unfoldable pub wait : List Turn → Bool → Result → Option (Outcome Result)
wait [] up r = if waiting up r then none else some (ended r)
wait (quiet up' ∷ turns) up r =
    let rest = wait turns up' r in if waiting up r then rest else some (ended r)
wait (replies late is_exc obj up' ∷ turns) up r =
    let rest = wait turns up' (call late is_exc obj r) in
    if waiting up r then rest else some (ended r)
wait (raises e ∷ turns) up r = if waiting up r then some (raise e) else some (ended r)

-- The value, or the exception of the peer.
pub data Value : Type 0 where
  gives throws : ℕ → Value

abbrev pub value_of : Result → Value
value_of r = if r.is_exc then throws r.obj else gives r.obj

abbrev pub value_after : Option (Outcome Result) → Option (Outcome Value)
value_after none = none
value_after (some r) = some (r >>= λ result. ok (value_of result))

unfoldable pub value : List Turn → Bool → Result → Option (Outcome Value)
unfolding wait
value turns up r = value_after (wait turns up r)

-- The guard of `sync_request`: HANDLE_CALL and HANDLE_ASYNC_CALL are refused on the loop that serves
-- the connection.
unfoldable pub sync_request : Bool → Bool → ℕ → List Turn → Option (Outcome Value)
unfolding value
sync_request asyncio_enabled on_loop handler turns =
    if asyncio_enabled && ((handler == 7 || handler == 100) && on_loop)
    then some (raise runtime_error)
    else value turns false fresh_result

-- The data came back, other data came back, or the peer raised an exception.
pub data Pinged : Type 0 where
  echoed ping_error : Pinged
  remote_error : ℕ → Pinged

abbrev pub compare_echo : ℕ → Value → Pinged
compare_echo sent (gives obj) = if obj == sent then echoed else ping_error
compare_echo sent (throws e) = remote_error e

abbrev pub ping_after : ℕ → Option (Outcome Value) → Option (Outcome Pinged)
ping_after sent none = none
ping_after sent (some r) = some (r >>= λ v. ok (compare_echo sent v))

unfoldable pub ping : ℕ → List Turn → Option (Outcome Pinged)
unfolding value
ping sent turns = ping_after sent (value turns false fresh_result)

-- Nothing comes for the result, and there is time.
abbrev pub quiets : ℕ → List Turn
quiets zero = []
quiets (suc n) = quiet false ∷ quiets n

wait-quiets :
    (n : ℕ) (turns : List Turn)
    → wait (quiets n ++ turns) false fresh_result ≡ wait turns false fresh_result
unfolding wait fresh_result
wait-quiets zero turns = refl
wait-quiets (suc n) turns = wait-quiets n turns

wait-up : (turns : List Turn) → wait turns true fresh_result ≡ some (raise timeout_error)
unfolding wait fresh_result
wait-up [] = refl
wait-up (quiet up ∷ turns) = refl
wait-up (replies late is_exc obj up ∷ turns) = refl
wait-up (raises e ∷ turns) = refl

wait-once_up :
    (turns : List Turn) → wait (quiet true ∷ turns) false fresh_result ≡ some (raise timeout_error)
unfolding wait fresh_result
wait-once_up turns = wait-up turns

wait-ready :
    (turns : List Turn) (up : Bool) (r : Result) → r.is_ready ≡ true → wait turns up r ≡ some (ok r)
unfolding wait
wait-ready [] up r h = rw h refl
wait-ready (quiet up' ∷ turns) up r h = ground (arith, h)
wait-ready (replies late is_exc obj up' ∷ turns) up r h = ground (arith, h)
wait-ready (raises e ∷ turns) up r h = ground (arith, h)

-- The result behind a reply that came in time.
abbrev answered : Bool → ℕ → Result
answered is_exc obj = call false is_exc obj fresh_result

wait-replies :
    (n : ℕ) (is_exc up : Bool) (obj : ℕ) (turns : List Turn)
    → wait (quiets n ++ replies false is_exc obj up ∷ turns) false fresh_result
      ≡ some (ok (answered is_exc obj))
unfolding wait fresh_result call expired
wait-replies n is_exc up obj turns =
    wait-quiets n (replies false is_exc obj up ∷ turns)
    ∙ wait-ready turns up (answered is_exc obj) refl

-- A reply that comes in time ends the wait with what it says, whatever comes behind it.
pub value_replies :
    (n : ℕ) (is_exc up : Bool) (obj : ℕ) (turns : List Turn)
    → value (quiets n ++ replies false is_exc obj up ∷ turns) false fresh_result
      ≡ some (ok (if is_exc then throws obj else gives obj))
unfolding value call expired fresh_result
value_replies n is_exc up obj turns = ap value_after (wait-replies n is_exc up obj turns)

-- A wait whose time is up before a reply comes raises, whatever comes behind.
pub value_times_out :
    (n : ℕ) (turns : List Turn)
    → value (quiets n ++ quiet true ∷ turns) false fresh_result ≡ some (raise timeout_error)
unfolding value
value_times_out n turns = ap value_after (wait-quiets n (quiet true ∷ turns) ∙ wait-once_up turns)
