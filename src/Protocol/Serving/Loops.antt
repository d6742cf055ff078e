-- ===== src/Protocol/Serving/Loops.antt =====
-- How `poll_all` and `serve_all` end.
use rpyc_async.Prelude.{Bool, true, false, List, [], ◌∷◌, ◌++◌, some, ◌||◌, ◌≡◌, refl}
use rpyc_async.Outcome.{Exc, Outcome, ok, raise}
use rpyc_async.Protocol.Serving.{poll_all, Round, passes, serve_loop}

-- Polls within the time, by whether they served something.
abbrev in_time : List Bool → List (Outcome Bool × Bool)
in_time [] = []
in_time (served ∷ polls) = (ok served, false) ∷ in_time polls

abbrev any_of : List Bool → Bool
any_of [] = false
any_of (served ∷ polls) = served || any_of polls

poll_all-once :
    (polls : List Bool) (up : Bool) (rest : List (Outcome Bool × Bool))
    → poll_all true (in_time polls ++ (ok up, true) ∷ rest) ≡ some (ok true)
unfolding poll_all
poll_all-once [] up rest = refl
poll_all-once (served ∷ polls) up rest = poll_all-once polls up rest

-- Where no poll raises, `poll_all` says whether one of those up to the end of the time served
-- something.
poll_all-any_of :
    (polls : List Bool) (up : Bool) (rest : List (Outcome Bool × Bool))
    → poll_all false (in_time polls ++ (ok up, true) ∷ rest) ≡ some (ok (any_of (polls ++ up ∷ [])))
unfolding poll_all
poll_all-any_of [] true rest = refl
poll_all-any_of [] false rest = refl
poll_all-any_of (true ∷ polls) up rest = poll_all-once polls up rest
poll_all-any_of (false ∷ polls) up rest = poll_all-any_of polls up rest

abbrev serving : List Bool → List Round
serving [] = []
serving (served ∷ rounds) =
    record { closed_before = false; outcome = ok served; closed_after = false } ∷ serving rounds

-- `serve_all` goes on until a call of `serve` raises, and returns if that says that the stream is at
-- its end, or has failed where the connection is closed.
serve_loop-raises :
    (rounds : List Bool) (e : Exc) (closed : Bool) (rest : List Round)
    → serve_loop (
        serving rounds
        ++ record { closed_before = false; outcome = raise e; closed_after = closed } ∷ rest)
      ≡ some (passes e closed)
unfolding serve_loop
serve_loop-raises [] e closed rest = refl
serve_loop-raises (served ∷ rounds) e closed rest = serve_loop-raises rounds e closed rest
