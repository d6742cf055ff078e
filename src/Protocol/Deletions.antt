-- ===== src/Protocol/Deletions.antt =====
-- `_enqueue_deletion`, `_signal_deletion_available`, `_process_pending_deletions` and its synchronous
-- twin. Between two deletions of a batch the connection may change, so the loop over the batch is one
-- function for each turn.
use rpyc_async.Prelude.{
  ℕ, suc, ◌+◌, ◌-◌, Bool, true, false, List, [], ◌∷◌, ◌++◌, Option, none, some, ◌≡◌, arith,
  if◌then◌else◌,
}
use mathlib.Core.Bool.{◌||◌, not}
use rpyc_async.Prelude.Dict.{get, set_item}
use rpyc_async.Protocol.Objects.{IdPack, pack_key, same_pack, same_pack_iff}
use rpyc_async.Protocol.Boxing.{Conn}

-- `deletions.get(id_pack, 0)`
unfoldable pub get_or_zero : IdPack → List (IdPack × ℕ) → ℕ
unfolding get
get_or_zero p deletions = elim (get p deletions) [ some n ↦ n | none ↦ 0 ]

-- The batch grouped by name, with the sums of the counts.
unfoldable pub group_onto : List (IdPack × ℕ) → List (IdPack × ℕ) → List (IdPack × ℕ)
unfolding get_or_zero set_item
group_onto [] deletions = deletions
group_onto ((p, n) ∷ batch) deletions =
    group_onto batch (set_item p (get_or_zero p deletions + n) deletions)

unfoldable pub group : List (IdPack × ℕ) → List (IdPack × ℕ)
unfolding group_onto
group batch = group_onto batch []

-- The start of a round: on a closed connection the queue is drained and nothing is sent.
unfoldable pub collect : Bool → Conn → List (IdPack × ℕ) × Conn
unfolding group
collect closed c = (if closed then [] else group c.pending, record c { pending = [] })

-- A turn of the loop: the request to send, if the name has no proxy again, and the turns that are
-- left. What the peer answers, and whether it does, changes only what is logged.
unfoldable pub send_next : List (IdPack × ℕ) → Conn → Option (IdPack × ℕ) × List (IdPack × ℕ)
unfolding get
send_next [] c = (none, [])
send_next ((p, n) ∷ deletions) c =
    (elim (get p c.proxy_cache) [ some proxy ↦ none | none ↦ some (p, n) ], deletions)

-- The turns where nothing happens in between: the requests of `_process_pending_deletions_sync`.
unfoldable pub send_all : List (IdPack × ℕ) → Conn → List (IdPack × ℕ)
unfolding get
send_all [] c = []
send_all ((p, n) ∷ deletions) c = elim (get p c.proxy_cache) [
  | some proxy ↦ send_all deletions c
  | none ↦ (p, n) ∷ send_all deletions c
]

unfoldable pub process_sync : Conn → List (IdPack × ℕ) × Conn
unfolding group send_all
process_sync c = (send_all (group c.pending) c, record c { pending = [] })

-- The cleanup task's event, the flag `_signal_pending`, and the timers that were armed and have not
-- fired.
pub record Wake : Type 0 where
  pub available : Bool
  pub signal_pending : Bool
  pub timers : ℕ

-- What a signal finds: whether there is an event and a loop, whether the loop is closed, and whether
-- the call into it raises RuntimeError.
pub record Loop : Type 0 where
  pub is_enabled : Bool
  pub is_closed : Bool
  pub is_stopping : Bool

unfoldable pub signal : Loop → Wake → Wake
signal loop w =
    if not loop.is_enabled
    then w
    else if w.signal_pending
    then w
    else if loop.is_closed || loop.is_stopping
    then record w { signal_pending = false }
    else record w { signal_pending = true; timers = suc w.timers }

-- `_fire`
unfoldable pub fire : Loop → Wake → Wake
fire loop w = record w {
  available = loop.is_enabled || w.available;
  signal_pending = false;
  timers = w.timers - 1;
}

unfoldable pub enqueue : Loop → IdPack → ℕ → Conn × Wake → Conn × Wake
unfolding signal
enqueue loop p refcount (c, w) =
    (record c { pending = c.pending ++ (p, refcount) ∷ [] }, signal loop w)

-- The count that a list has for a name.
abbrev pub total : IdPack → List (IdPack × ℕ) → ℕ
total p [] = 0
total p ((q, n) ∷ rest) = (if same_pack q p then n else 0) + total p rest

pub total-append :
    (p : IdPack) (xs ys : List (IdPack × ℕ)) → total p (xs ++ ys) ≡ total p xs + total p ys
total-append p [] ys = omega arith
total-append p ((q, n) ∷ xs) ys = omega (arith, total-append p xs ys)

total-set_item :
    (p q : IdPack) (n : ℕ) (d : List (IdPack × ℕ))
    → total p (set_item q (get_or_zero q d + n) d) ≡ total p d + (if same_pack q p then n else 0)
unfolding get_or_zero set_item get
total-set_item p q n [] = ground arith
total-set_item p q n ((r, m) ∷ d) =
    ground (arith, same_pack_iff q p, same_pack_iff r q, same_pack_iff r p, total-set_item p q n d)

total-group_onto :
    (p : IdPack) (batch d : List (IdPack × ℕ))
    → total p (group_onto batch d) ≡ total p d + total p batch
unfolding group_onto
total-group_onto p [] d = omega arith
total-group_onto p ((q, n) ∷ batch) d =
    omega
      (arith, total-group_onto p batch (set_item q (get_or_zero q d + n) d), total-set_item p q n d)

-- Grouping a batch of deletions by name keeps the count of every name.
pub total-group : (p : IdPack) (batch : List (IdPack × ℕ)) → total p (group batch) ≡ total p batch
unfolding group
total-group p batch = omega (arith, total-group_onto p batch [])

-- The flag is set exactly while a timer is armed, and there is never a second.
abbrev pub IsWake : Wake → Type 0
IsWake w = w.timers ≡ (if w.signal_pending then 1 else 0)

pub signal-IsWake : (loop : Loop) (w : Wake) → IsWake w → IsWake (signal loop w)
unfolding signal
signal-IsWake loop w v = ground arith

pub fire-IsWake : (loop : Loop) (w : Wake) → IsWake w → IsWake (fire loop w)
unfolding fire
fire-IsWake loop w v = ground arith

-- A deletion that is queued on a connection with a running loop, where the flag is set exactly
-- while one timer is armed, goes to the end of the queue and leaves one timer armed, and firing it
-- sets the event.
pub enqueue-fire :
    (loop : Loop) (p : IdPack) (refcount : ℕ) (c : Conn) (w : Wake)
    → IsWake w
    → loop.is_enabled ≡ true
    → (loop.is_closed || loop.is_stopping) ≡ false
    → ((enqueue loop p refcount (c, w)).1.timers ≡ 1)
      × ((fire loop (enqueue loop p refcount (c, w)).1).available ≡ true)
      × ((enqueue loop p refcount (c, w)).0.pending ≡ c.pending ++ (p, refcount) ∷ [])
unfolding enqueue signal fire
enqueue-fire loop p refcount c w v on running = ground arith
