-- ===== src/Connecting.antt =====
-- rpyc_async/lib/__init__.py: `Timeout`, and `socket_backoff_connect` with `exp_backoff`.
use rpyc_async.Prelude.{
  ℕ, zero, suc, ◌+◌, ◌^◌, ◌-◌, ◌≤◌, ◌<◌, min, Bool, true, false, List, [], ◌∷◌, ◌++◌, Option, none,
  some, ◌==◌, ==_iff, ltb, leb, ◌||◌, ◌&&◌, if◌then◌else◌, ◌≡◌, Bool-cases, inl, inr, refl, arith,
}
use rpyc_async.Outcome.{Exc, Outcome, ok, raise, timeout_error}

-- A moment at which the time is up, or none. Times are numbers of some unit.
pub record Timeout : Type 0 where
  pub finite : Bool
  pub tmax : ℕ

-- What a timeout is made of: `None`, a negative number, a number, or another timeout.
pub data Given : Type 0 where
  nothing negative : Given
  seconds : ℕ → Given
  another : Timeout → Given

unfoldable pub new_timeout : ℕ → Given → Timeout
new_timeout now nothing = record { finite = false; tmax = 0 }
new_timeout now negative = record { finite = false; tmax = 0 }
new_timeout now (seconds n) = record { finite = true; tmax = now + n }
new_timeout now (another t) = t

unfoldable pub expired : ℕ → Timeout → Bool
expired now t = t.finite && leb t.tmax now

unfoldable pub timeleft : ℕ → Timeout → Option ℕ
timeleft now t = if t.finite then some (t.tmax - now) else none

-- How long `sleep` sleeps.
abbrev pub at_most : ℕ → Option ℕ → ℕ
at_most interval none = interval
at_most interval (some left) = min interval left

unfoldable pub sleep : ℕ → ℕ → Timeout → ℕ
unfolding timeleft
sleep now interval t = at_most interval (timeleft now t)

-- The bound of what `exp_backoff` draws, in units of 51.2 microseconds.
unfoldable pub backoff_supremum : ℕ → ℕ
backoff_supremum collision = let n = min collision 10 in 2 ^ n - (if ltb 3 n then 1 else 0)

-- What `connect` of a socket does.
pub data Answer : Type 0 where
  connects times_out : Answer
  fails : Exc → Answer

-- How the loop ends, the sockets it made and closed, and the bounds of its sleeps.
pub record Connected : Type 0 where
  pub result : Outcome (Unit {0})
  pub opened : ℕ
  pub closed : ℕ
  pub sleeps : List ℕ

abbrev pub finished : Outcome (Unit {0}) → Connected
finished r = record { result = r; opened = 1; closed = 0; sleeps = [] }

unfoldable pub retried : ℕ → Option Connected → Option Connected
unfolding backoff_supremum
retried collision none = none
retried collision (some c) = some (record {
  result = c.result;
  opened = suc c.opened;
  closed = suc c.closed;
  sleeps = backoff_supremum collision ∷ c.sleeps;
})

-- The loop, with the number of the attempt; none where `connect` has not answered yet. A negative
-- number of attempts is as good as 0.
unfoldable pub connect_loop : ℕ → ℕ → List Answer → Option Connected
unfolding retried
connect_loop attempts collision [] = none
connect_loop attempts collision (connects ∷ answers) = some (finished (ok tt))
connect_loop attempts collision (fails e ∷ answers) = some (finished (raise e))
connect_loop attempts collision (times_out ∷ answers) =
    let rest = connect_loop attempts (suc collision) answers in
    if collision == attempts || ltb attempts 1
    then some (finished (raise timeout_error))
    else retried collision rest

unfoldable pub socket_backoff_connect : ℕ → List Answer → Option Connected
unfolding connect_loop
socket_backoff_connect attempts answers = connect_loop attempts 1 answers

-- A sleep is no longer than its interval, and does not last beyond the end of the time.
sleep_le_interval : (now interval : ℕ) (t : Timeout) → sleep now interval t ≤ interval
unfolding sleep timeleft
sleep_le_interval now interval t = elim (Bool-cases t.finite) [
  | inl h ↦ rw h (omega arith)
  | inr h ↦ rw h (omega arith)
]

beyond : (now interval tmax : ℕ) → now < tmax → now + min interval (tmax - now) ≤ tmax
beyond now interval tmax h = omega arith

sleep_le_tmax :
    (now interval : ℕ) (t : Timeout)
    → t.finite ≡ true
    → expired now t ≡ false
    → now + sleep now interval t ≤ t.tmax
unfolding sleep timeleft expired
sleep_le_tmax now interval t finite h =
    rw finite (beyond now interval t.tmax (ground (arith, finite, h)))

-- The first bound is twice what its documentation says.
first_backoff : backoff_supremum 1 ≡ 2
unfolding backoff_supremum
first_backoff = refl

all_ten : (collision : ℕ) → 10 ≤ collision → min collision 10 ≡ 10
all_ten collision h = omega arith

longest_backoff : (collision : ℕ) → 10 ≤ collision → backoff_supremum collision ≡ 1023
unfolding backoff_supremum
longest_backoff collision h = rw (all_ten collision h) refl

abbrev timeouts : ℕ → List Answer
timeouts zero = []
timeouts (suc n) = times_out ∷ timeouts n

abbrev Retries : ℕ → Outcome (Unit {0}) → Option Connected → Type 0
Retries n r none = ⊥
Retries n r (some c) = (c.result ≡ r) × ((c.opened ≡ suc n) × (c.closed ≡ n))

Retries-retried :
    (collision n : ℕ) (r : Outcome (Unit {0})) (c : Option Connected)
    → Retries n r c
    → Retries (suc n) r (retried collision c)
unfolding retried
Retries-retried collision n r none h = h
Retries-retried collision n r (some c) h = (h.0, (omega (arith, h.1.0), omega (arith, h.1.1)))

more :
    (attempts collision : ℕ)
    → collision < attempts
    → 1 ≤ collision
    → (collision == attempts || ltb attempts 1) ≡ false
more attempts collision h p = ground (arith, ==_iff collision attempts)

last :
    (attempts collision : ℕ)
    → collision ≡ attempts
    → (collision == attempts || ltb attempts 1) ≡ true
last attempts collision h = ground (arith, ==_iff collision attempts)

-- A socket that connects before the attempts are used up is given, and the others are closed.
connect_loop-connects :
    (attempts collision n : ℕ) (answers : List Answer)
    → collision + n ≤ attempts
    → 1 ≤ collision
    → Retries n (ok tt) (connect_loop attempts collision (timeouts n ++ connects ∷ answers))
unfolding connect_loop
connect_loop-connects attempts collision zero answers h p = (refl, (refl, refl))
connect_loop-connects attempts collision (suc n) answers h p =
    rw (more attempts collision (omega arith) p) (
      Retries-retried collision n (ok tt) _
        (connect_loop-connects attempts (suc collision) n answers (omega arith) (omega arith)))

-- Where every attempt times out, the last socket is left to the garbage collector.
connect_loop-gives_up :
    (attempts collision n : ℕ) (answers : List Answer)
    → collision + n ≡ attempts
    → 1 ≤ collision
    → Retries n
        (raise timeout_error)
        (connect_loop attempts collision (timeouts n ++ times_out ∷ answers))
unfolding connect_loop
connect_loop-gives_up attempts collision zero answers h p =
    rw (last attempts collision (omega arith)) (refl, (refl, refl))
connect_loop-gives_up attempts collision (suc n) answers h p =
    rw (more attempts collision (omega arith) p) (
      Retries-retried collision n (raise timeout_error) _
        (connect_loop-gives_up attempts (suc collision) n answers (omega arith) (omega arith)))
