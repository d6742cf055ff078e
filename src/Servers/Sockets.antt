-- ===== src/Servers/Sockets.antt =====
-- `Server` of rpyc_async/utils/server.py: `_listen`, `accept`, `_authenticate_and_serve_client` and
-- `close`, with the sockets of the clients. A step is what a thread does between two of its accesses
-- to what the threads share; `close` may run in several threads.
pub mod Tracked
use rpyc_async.Prelude.{
  ℕ, suc, Bool, true, false, List, [], ◌∷◌, ◌==◌, ◌&&◌, ◌||◌, not, if◌then◌else◌,
}
use rpyc_async.Outcome.{Exc, Outcome, ok, raise}

-- A socket is not there, came out of `listener.accept`, passed the test of `active` behind it, was
-- left by that test, is served, is served and was added to `clients` behind a call of `close`, or
-- has been served.
pub data Life : Type 0 where
  absent accepted passed dropped served late finished : Life

-- `listening` is false where the listener is closed. `closing` says that `close` has set `active`,
-- and `emptied` that its loop over the clients is over. `is_up` says of a
-- socket that it is neither shut down nor closed.
pub record Server : Type 0 where
  pub active : Bool
  pub listening : Bool
  pub closing : Bool
  pub emptied : Bool
  pub closed : Bool
  pub clients : ℕ → Bool
  pub is_up : ℕ → Bool
  pub lives : ℕ → Life
  pub next_socket : ℕ

abbrev pub update {ℓ} : {A : Type ℓ} → (ℕ → A) → ℕ → A → ℕ → A
update f i a j = if i == j then a else f j

-- `_listen`; a closed listener raises.
abbrev pub listen : Server → Server
listen s = if s.listening then record s { active = true } else s

-- A client connects.
abbrev pub connect : Server → Server
connect s =
    if s.listening
    then record s {
      is_up = update s.is_up s.next_socket true;
      lives = update s.lives s.next_socket accepted;
      next_socket = suc s.next_socket;
    }
    else s

-- `accept` behind its loop, up to the test of `active` and from there on.
abbrev pub check_active : ℕ → Life → Server → Server
check_active i accepted s = record s {
  lives = update s.lives i (if s.active then passed else dropped);
}
check_active i life s = s

abbrev pub add_client : ℕ → Life → Server → Server
add_client i passed s = record s {
  clients = update s.clients i true;
  lives = update s.lives i (if s.closing then late else served);
}
add_client i life s = s

-- What the authenticator does, if there is one.
pub data Authentication : Type 0 where
  unasked authenticated rejected : Authentication
  fails : Exc → Authentication

abbrev pub served_as : Authentication → Outcome (Unit {0}) → Outcome (Unit {0})
served_as unasked session = session
served_as authenticated session = session
served_as rejected session = ok tt
served_as (fails e) session = raise e

-- The end of a session closes its stream.
abbrev pub end_session : ℕ → Life → Server → Server
end_session i served s = record s { is_up = update s.is_up i false }
end_session i late s = record s { is_up = update s.is_up i false }
end_session i life s = s

-- The `finally` of `_authenticate_and_serve_client`: the socket is shut down; `closing(sock)`, which is
-- no `with` statement, does nothing.
abbrev pub discard_client : ℕ → Server → Server
discard_client i s = record s {
  is_up = update s.is_up i false;
  clients = update s.clients i false;
  lives = update s.lives i finished;
}

-- `_authenticate_and_serve_client`, with what `_serve_client` does.
unfoldable pub authenticate_and_serve_client :
    ℕ → Authentication → Outcome (Unit {0}) → Server → Outcome (Unit {0}) × Server
authenticate_and_serve_client i a session s = (served_as a session, discard_client i s)

abbrev pub serve_client : ℕ → Authentication → Outcome (Unit {0}) → Life → Server → Server
unfolding authenticate_and_serve_client
serve_client i a session served s = (authenticate_and_serve_client i a session s).1
serve_client i a session late s = (authenticate_and_serve_client i a session s).1
serve_client i a session life s = s

-- The parts of `close`: its test of `_closed` with what it sets, the end of the listener, the loop
-- over the clients, and the rest.
abbrev pub start_closing : Server → Server
start_closing s = if s.closed then s else record s { active = false; closing = true }

abbrev pub close_listener : Server → Server
close_listener s = if s.closing then record s { listening = false } else s

abbrev pub close_clients : Server → Server
close_clients s =
    if s.closing && not s.listening
    then record s { is_up = λ i. s.is_up i && not (s.clients i); emptied = true }
    else s

abbrev pub finish_closing : Server → Server
finish_closing s = if s.emptied then record s { clients = λ i. false; closed = true } else s

pub data Step : Type 0 where
  listens connects starts_closing closes_listener closes_clients finishes_closing : Step
  checks adds ends_session : ℕ → Step
  serves : ℕ → Authentication → Outcome (Unit {0}) → Step

unfoldable pub step : Step → Server → Server
step listens s = listen s
step connects s = connect s
step starts_closing s = start_closing s
step closes_listener s = close_listener s
step closes_clients s = close_clients s
step finishes_closing s = finish_closing s
step (checks i) s = check_active i (s.lives i) s
step (adds i) s = add_client i (s.lives i) s
step (ends_session i) s = end_session i (s.lives i) s
step (serves i a session) s = serve_client i a session (s.lives i) s

unfoldable pub run : List Step → Server → Server
unfolding step
run [] s = s
run (x ∷ steps) s = run steps (step x s)

unfoldable pub new_server : Server
new_server = record {
  active = false;
  listening = true;
  closing = false;
  emptied = false;
  closed = false;
  clients = λ i. false;
  is_up = λ i. false;
  lives = λ i. absent;
  next_socket = 0;
}

-- `close` from its start to its end, with nothing in between.
unfoldable pub close : Server → Server
close s = finish_closing (close_clients (close_listener (start_closing s)))
