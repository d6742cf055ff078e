-- ===== src/Witnesses/Servers.antt =====
-- Connections of a thread pool, and the sockets of a server that is closed.
use rpyc_async.Prelude.{◌≡◌, refl, true, false, List, [], ◌∷◌}
use rpyc_async.Servers.Pool.{
  Move, accepts, polls, takes, works, served, nothing, ended, run, new_pool,
}
use rpyc_async.Servers.Pool.Places
use rpyc_async.Servers.Sockets
use rpyc_async.Servers.Sockets.{
  Step, listens, connects, starts_closing, closes_listener, closes_clients, finishes_closing,
  checks, adds, serves, unasked, new_server, step,
}
use rpyc_async.Servers.Sockets.Tracked
use rpyc_async.Servers.Pool.Places.{places, one, Fresh}

abbrev busy : List Move
busy =
    accepts 5
    ∷ accepts 6
    ∷ polls 6 false
    ∷ polls 5 false
    ∷ takes
    ∷ works 6 served
    ∷ takes
    ∷ works 6 nothing
    ∷ works 5 ended
    ∷ polls 6 true
    ∷ []

busy_closed : (run 10 busy new_pool).closed ≡ 5 ∷ 6 ∷ []
unfolding run
busy_closed = refl

busy-Fresh : Fresh 10 busy new_pool
unfolding run
busy-Fresh = ((refl, refl), ((refl, refl), (tt, (tt, (tt, (tt, (tt, (tt, (tt, (tt, tt))))))))))

run-places_example : places 6 (run 10 busy new_pool) ≡ one ((run 10 busy new_pool).conns 6)
run-places_example = Places.run-places 10 busy 6 busy-Fresh

-- The peer of 5 hangs up, `serve` frees the descriptor, and a new connection gets it before the worker
-- drops the old one: the worker closes the new one.
reused :
    (run 10 (accepts 5 ∷ polls 5 false ∷ takes ∷ accepts 5 ∷ works 5 ended ∷ []) new_pool).conns 5
    ≡ false
unfolding run
reused = refl

-- One socket is served and another has passed the test of `active` when the server is closed.
abbrev race : List Step
race =
    listens
    ∷ connects
    ∷ checks 0
    ∷ adds 0
    ∷ connects
    ∷ checks 1
    ∷ starts_closing
    ∷ closes_listener
    ∷ closes_clients
    ∷ finishes_closing
    ∷ adds 1
    ∷ []

-- The server is closed, and the second socket is open and served.
race_open : (Sockets.run race new_server).is_up 1 ≡ true
unfolding Sockets.run step new_server
race_open = refl

race_closed : (Sockets.run race new_server).closed ≡ true
unfolding Sockets.run step new_server
race_closed = refl

-- In one thread `close` leaves no socket of a client open.
closed_at_once :
    (Sockets.close (Sockets.run (listens ∷ connects ∷ checks 0 ∷ adds 0 ∷ []) new_server)).is_up 0
    ≡ false
unfolding Sockets.close Sockets.run step new_server
closed_at_once = refl
