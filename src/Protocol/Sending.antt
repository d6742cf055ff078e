-- ===== src/Protocol/Sending.antt =====
-- `Connection._send` of rpyc_async/core/protocol.py from the append to the send queue on, with
-- threads not bound: any number of calls, interleaved in any order. A call that a finaliser makes
-- within another is a call of its own. A message is a number.
pub mod Delivered
use rpyc_async.Prelude.{
  ℕ, Bool, true, false, List, [], ◌∷◌, ◌++◌, Option, none, some, ◌==◌, if◌then◌else◌,
}

-- Where a call of `_send` stands.
pub data Pc : Type 0 where
  idle : Pc  -- not called, or returned
  checking : Pc  -- head of the loop
  trying : Pc  -- before `acquire(False)`
  holding : Pc  -- with the lock, before the second test of the queue
  sending : ℕ → Pc  -- before `channel.send`
  releasing : Pc  -- in `finally`, to go on with the loop
  raising : Pc  -- in `finally`, to raise

-- `_send_queue`, the call that holds `_sendlock`, and what the channel was given; `appended` are the
-- messages of all calls so far.
pub record Sender : Type 0 where
  pub queue : List ℕ
  pub sendlock : Option ℕ
  pub sent : List ℕ
  pub appended : List ℕ
  pub pc : ℕ → Pc

abbrev pub update {ℓ} : {A : Type ℓ} → (ℕ → A) → ℕ → A → ℕ → A
update f i a j = if i == j then a else f j

abbrev pub goes : ℕ → Pc → Sender → Sender
goes i p s = record s { pc = update s.pc i p }

abbrev pub check : ℕ → List ℕ → Sender → Sender
check i [] s = goes i idle s
check i (d ∷ ds) s = goes i trying s

abbrev pub acquire : ℕ → Option ℕ → Sender → Sender
acquire i none s = goes i holding (record s { sendlock = some i })
acquire i (some j) s = goes i idle s

abbrev pub pop_first : ℕ → List ℕ → Sender → Sender
pop_first i [] s = goes i releasing s
pop_first i (d ∷ ds) s = goes i (sending d) (record s { queue = ds })

-- One step of a call.
unfoldable pub advance : ℕ → Pc → Sender → Sender
advance i idle s = s
advance i checking s = check i s.queue s
advance i trying s = acquire i s.sendlock s
advance i holding s = pop_first i s.queue s
advance i (sending d) s = goes i releasing (record s { sent = s.sent ++ d ∷ [] })
advance i releasing s = goes i checking (record s { sendlock = none })
advance i raising s = goes i idle (record s { sendlock = none })

abbrev pub enter : ℕ → ℕ → Pc → Sender → Sender
enter i d idle s =
    goes i checking (record s { queue = s.queue ++ d ∷ []; appended = s.appended ++ d ∷ [] })
enter i d checking s = s
enter i d trying s = s
enter i d holding s = s
enter i d (sending e) s = s
enter i d releasing s = s
enter i d raising s = s

abbrev pub break_off : ℕ → Pc → Sender → Sender
break_off i (sending d) s = goes i raising s
break_off i idle s = s
break_off i checking s = s
break_off i trying s = s
break_off i holding s = s
break_off i releasing s = s
break_off i raising s = s

-- A call starts with its message, goes a step on, or has its `channel.send` raise.
pub data Move : Type 0 where
  calls : ℕ → ℕ → Move
  steps : ℕ → Move
  fails : ℕ → Move

unfoldable pub move : Move → Sender → Sender
unfolding advance
move (calls i d) s = enter i d (s.pc i) s
move (steps i) s = advance i (s.pc i) s
move (fails i) s = break_off i (s.pc i) s

unfoldable pub run : List Move → Sender → Sender
unfolding move
run [] s = s
run (m ∷ moves) s = run moves (move m s)

abbrev pub new_sender : Sender
new_sender = record { queue = []; sendlock = none; sent = []; appended = []; pc = λ i. idle }
