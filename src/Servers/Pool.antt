-- ===== src/Servers/Pool.antt =====
-- `ThreadPoolServer` of rpyc_async/utils/server.py: where a connection is between the polling thread
-- and the workers. A connection is the number of its file descriptor.
pub mod Places
use rpyc_async.Prelude.{
  ℕ, zero, suc, Bool, true, false, List, [], ◌∷◌, ◌++◌, Option, none, some, ◌==◌, ◌&&◌, ◌||◌, not,
  if◌then◌else◌,
}

-- What the poll object has registered, the queue of active connections, the workers with their
-- connection and the rest of its batch, `fd_to_conn`, and the connections that were closed.
pub record Pool : Type 0 where
  pub registered : ℕ → Bool
  pub queue : List ℕ
  pub working : List (ℕ × ℕ)
  pub conns : ℕ → Bool
  pub closed : List ℕ

abbrev pub update : (ℕ → Bool) → ℕ → Bool → ℕ → Bool
update f fd b other = if fd == other then b else f other

-- `_add_inactive_connection`
abbrev pub add_inactive_connection : ℕ → Pool → Pool
add_inactive_connection fd s = record s { registered = update s.registered fd true }

-- `_remove_from_inactive_connection`
abbrev pub remove_from_inactive_connection : ℕ → Pool → Pool
remove_from_inactive_connection fd s = record s { registered = update s.registered fd false }

abbrev pub put : ℕ → Pool → Pool
put fd s = record s { queue = s.queue ++ fd ∷ [] }

-- `_drop_connection`
abbrev pub drop_connection : ℕ → Pool → Pool
drop_connection fd s =
    if s.conns fd
    then record s { conns = update s.conns fd false; closed = s.closed ++ fd ∷ [] }
    else s

-- `_handle_poll_result`, for one descriptor and whether its event has an error or a hang-up.
unfoldable pub handle_poll_result : ℕ → Bool → Pool → Pool
handle_poll_result fd failed s =
    let inactive = remove_from_inactive_connection fd s in
    if failed then drop_connection fd inactive else put fd inactive

-- `_serve_clients`: a worker takes a connection; 0 is not taken for one.
unfoldable pub take_first : ℕ → List ℕ → Pool → Pool
take_first batch [] s = s
take_first batch (fd ∷ rest) s =
    if fd == 0
    then record s { queue = rest }
    else record s { queue = rest; working = (fd, batch) ∷ s.working }

-- What `poll` of the connection does.
pub data Answer : Type 0 where
  served nothing ended fails : Answer

abbrev pub answered : ℕ → ℕ → Answer → Pool → Pool
answered fd n served s = record s { working = (fd, n) ∷ s.working }
answered fd n nothing s = add_inactive_connection fd s
answered fd n ended s = drop_connection fd s
answered fd n fails s = put fd s

-- A round of the loop of `_serve_requests`, or its end; a descriptor that is not in the dictionary
-- raises KeyError.
unfoldable pub serve_requests : ℕ → ℕ → Answer → Pool → Pool
serve_requests fd zero answer s = put fd s
serve_requests fd (suc n) answer s = if s.conns fd then answered fd n answer s else put fd s

abbrev pub find_work : ℕ → List (ℕ × ℕ) → Option ℕ
find_work fd [] = none
find_work fd ((other, n) ∷ work) = if other == fd then some n else find_work fd work

abbrev pub remove_work : ℕ → List (ℕ × ℕ) → List (ℕ × ℕ)
remove_work fd [] = []
remove_work fd ((other, n) ∷ work) = if other == fd then work else (other, n) ∷ remove_work fd work

abbrev pub go_on : ℕ → Option ℕ → Answer → Pool → Pool
unfolding serve_requests
go_on fd none answer s = s
go_on fd (some n) answer s =
    serve_requests fd n answer (record s { working = remove_work fd s.working })

-- `_accept_method`, from the connection on.
abbrev pub accept : ℕ → Pool → Pool
accept fd s = add_inactive_connection fd (record s { conns = update s.conns fd true })

-- `accepts` of any descriptor: `serve` closes a connection at its end, so that the system may give its
-- descriptor away before `_drop_connection` runs. Polling reports what is registered.
pub data Move : Type 0 where
  accepts : ℕ → Move
  polls : ℕ → Bool → Move
  takes : Move
  works : ℕ → Answer → Move

unfoldable pub move : ℕ → Move → Pool → Pool
unfolding handle_poll_result take_first go_on
move batch (accepts fd) s = accept fd s
move batch (polls fd failed) s = if s.registered fd then handle_poll_result fd failed s else s
move batch takes s = take_first batch s.queue s
move batch (works fd answer) s = go_on fd (find_work fd s.working) answer s

unfoldable pub run : ℕ → List Move → Pool → Pool
unfolding move
run batch [] s = s
run batch (m ∷ moves) s = run batch moves (move batch m s)

abbrev pub new_pool : Pool
new_pool = record {
  registered = λ fd. false;
  queue = [];
  working = [];
  conns = λ fd. false;
  closed = [];
}
