-- ===== src/Protocol/Bound.antt =====
-- Threads bound to their requests: `_serve_bound`, `_serve_temporary` and `_get_thread` of
-- rpyc_async/core/protocol.py. What stands in one `with self._lock` is one step; a thread that was
-- never heard of is as `_Thread` makes it.
pub mod Exclusive
pub mod Logs
pub mod Fifo
use rpyc_async.Prelude.{
  ℕ, Bool, true, false, List, [], ◌∷◌, ◌++◌, Option, none, some, ◌==◌, ◌&&◌, not, if◌then◌else◌, ℤ,
  pos, ℤ_matches,
}

-- The sending thread, the thread that the message is for, or 0, and what is behind the two.
pub record Message : Type 0 where
  pub remote_thread_id : ℕ
  pub local_thread_id : ℕ
  pub body : ℕ

pub data Pc : Type 0 where
  outside : Pc  -- not in `_serve_bound`
  waiting : Pc  -- in the pool, at the head of the loop that waits
  receiving : Pc  -- at the head of the loop that receives

-- `_event`, `_deque`, `_occupation_count` and `_remote_thread_id` of a `_Thread`, and where it is.
pub record Thread : Type 0 where
  pub event : Bool
  pub deque : List Message
  pub occupation_count : ℤ
  pub remote_thread_id : ℕ
  pub pc : Pc

abbrev pub new_thread : Thread
new_thread = record {
  event = false;
  deque = [];
  occupation_count = pos 0;
  remote_thread_id = 0;
  pc = outside;
}

-- `_receiving`, `_thread_pool`, the threads by id, what the executor was given and has not started;
-- `given` are the messages that were handed to a thread, `dispatched` those that it dispatched.
pub record Bound : Type 0 where
  pub receiving_now : Bool
  pub pool : List ℕ
  pub threads : ℕ → Thread
  pub submitted : List Message
  pub given : List (ℕ × Message)
  pub dispatched : List (ℕ × Message)

abbrev pub update : (ℕ → Thread) → ℕ → Thread → ℕ → Thread
update f i t j = if i == j then t else f j

abbrev pub is_free : Thread → Bool
is_free t = ℤ_matches t.occupation_count (pos 0)

abbrev pub moves_to : ℕ → Pc → Bound → Bound
moves_to i p s = record s { threads = update s.threads i (record (s.threads i) { pc = p }) }

-- `thread._deque.append(message); thread._event.set()`
unfoldable pub hand_over : ℕ → Message → Bound → Bound
hand_over i message s = record s {
  threads =
      update s.threads i
        (record (s.threads i) { deque = (s.threads i).deque ++ message ∷ []; event = true });
  given = s.given ++ (i, message) ∷ [];
}

-- The thread leaves `_serve_bound` with a message and dispatches it.
abbrev pub dispatches : ℕ → Message → Bound → Bound
dispatches i message s = record s {
  threads =
      update s.threads i
        (record (s.threads i) { remote_thread_id = message.remote_thread_id; pc = outside });
  dispatched = s.dispatched ++ (i, message) ∷ [];
}

-- `popleft`, with the event cleared behind the last message, and then the dispatch.
abbrev pub event_after : List Message → Bool
event_after [] = false
event_after (m ∷ rest) = true

unfoldable pub take_first : ℕ → Message → List Message → Bound → Bound
take_first i message rest s = dispatches i message (record s {
  threads = update s.threads i (record (s.threads i) { deque = rest; event = event_after rest });
})

unfoldable pub become_receiver : ℕ → Bound → Bound
become_receiver i s = record (moves_to i receiving s) { receiving_now = true }

unfoldable pub enter_pool : ℕ → Bound → Bound
enter_pool i s = record (moves_to i waiting s) { pool = s.pool ++ i ∷ [] }

-- The first block of `_serve_bound`: whether the event is set, the deque, and `_receiving`.
unfoldable pub begin : ℕ → Bool → List Message → Bool → Bound → Bound
unfolding take_first become_receiver enter_pool
begin i true (message ∷ rest) busy s = take_first i message rest s
begin i true [] true s = enter_pool i s
begin i true [] false s = become_receiver i s
begin i false deque true s = enter_pool i s
begin i false deque false s = become_receiver i s

-- `self._thread_pool.remove(this_thread)`: the first entry.
abbrev pub remove : ℕ → List ℕ → List ℕ
remove i [] = []
remove i (j ∷ js) = if i == j then js else j ∷ remove i js

abbrev pub leave_pool : ℕ → Bound → Bound
leave_pool i s = record s { pool = remove i s.pool }

abbrev pub clear : ℕ → Bound → Bound
clear i s = record s { threads = update s.threads i (record (s.threads i) { event = false }) }

-- A round of the loop that waits: a timeout, which leaves the thread in the pool, a message, or the
-- turn to receive, which another thread may have taken.
unfoldable pub wake : ℕ → Bool → List Message → Bool → Bound → Bound
unfolding take_first become_receiver
wake i false deque busy s = moves_to i outside s
wake i true (message ∷ rest) busy s = leave_pool i (take_first i message rest s)
wake i true [] true s = clear i s
wake i true [] false s = leave_pool i (become_receiver i (clear i s))

abbrev pub set_event : ℕ → Bound → Bound
set_event i s = record s { threads = update s.threads i (record (s.threads i) { event = true }) }

-- The first thread of the pool whose event is not set is told to receive.
abbrev pub first_unset : (ℕ → Thread) → List ℕ → Option ℕ
first_unset threads [] = none
first_unset threads (i ∷ is) = if (threads i).event then first_unset threads is else some i

abbrev pub tell : Option ℕ → Bound → Bound
tell none s = record s { receiving_now = false }
tell (some i) s = record (set_event i s) { receiving_now = false }

unfoldable pub pass_on : Bound → Bound
pass_on s = tell (first_unset s.threads s.pool) s

abbrev pub first_of : List ℕ → Option ℕ
first_of [] = none
first_of (i ∷ is) = some i

-- The first thread of the pool that is not occupied and whose event is not set.
abbrev pub first_free : (ℕ → Thread) → List ℕ → Option ℕ
first_free threads [] = none
first_free threads (i ∷ is) =
    if is_free (threads i) && not (threads i).event then some i else first_free threads is

abbrev pub hand_free : Message → Option ℕ → Bound → Bound
unfolding hand_over
hand_free message (some i) s = hand_over i message s
hand_free message none s = record s { submitted = s.submitted ++ message ∷ [] }

-- The message is for the thread that received it.
unfoldable pub keep : ℕ → Message → Bound → Bound
unfolding pass_on
keep i message s =
    dispatches i message (record (pass_on s) { given = s.given ++ (i, message) ∷ [] })

unfoldable pub route : ℕ → Message → Bound → Bound
unfolding hand_free keep hand_over
route i message s =
    if message.local_thread_id == 0
    then (if is_free (s.threads i)
        then keep i message s
        else hand_free message (first_free s.threads s.pool) s)
    else (if message.local_thread_id == i
        then keep i message s
        else hand_over message.local_thread_id message s)

-- What `poll` and `recv` of the channel give.
pub data Input : Type 0 where
  fails nothing : Input
  arrives : Message → Input

unfoldable pub receive : ℕ → Input → Bound → Bound
unfolding pass_on route
receive i fails s = moves_to i outside (tell (first_of s.pool) s)
receive i nothing s = moves_to i outside (pass_on s)
receive i (arrives message) s = route i message s

-- `_serve_temporary`, where the executor starts its next call on a thread.
unfoldable pub start_next : ℕ → List Message → Bound → Bound
unfolding hand_over
start_next i [] s = s
start_next i (message ∷ rest) s = hand_over i message (record s { submitted = rest })

abbrev pub at : Pc → Pc → Bool
at outside outside = true
at waiting waiting = true
at receiving receiving = true
at outside waiting = false
at outside receiving = false
at waiting outside = false
at waiting receiving = false
at receiving outside = false
at receiving waiting = false

-- A thread serves, wakes up or receives, the executor starts a call, or requests and replies occupy
-- a thread.
pub data Move : Type 0 where
  serves wakes starts : ℕ → Move
  receives : ℕ → Input → Move
  occupies : ℕ → ℤ → Move

unfoldable pub move : Move → Bound → Bound
unfolding begin wake receive start_next
move (serves i) s =
    if at outside (s.threads i).pc
    then begin i (s.threads i).event (s.threads i).deque s.receiving_now s
    else s
move (wakes i) s =
    if at waiting (s.threads i).pc
    then wake i (s.threads i).event (s.threads i).deque s.receiving_now s
    else s
move (receives i input) s = if at receiving (s.threads i).pc then receive i input s else s
move (starts i) s = if at outside (s.threads i).pc then start_next i s.submitted s else s
move (occupies i n) s = record s {
  threads = update s.threads i (record (s.threads i) { occupation_count = n });
}

unfoldable pub run : List Move → Bound → Bound
unfolding move
run [] s = s
run (m ∷ moves) s = run moves (move m s)

abbrev pub new_bound : Bound
new_bound = record {
  receiving_now = false;
  pool = [];
  threads = λ i. new_thread;
  submitted = [];
  given = [];
  dispatched = [];
}
