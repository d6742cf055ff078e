-- ===== src/Protocol/Bound/Logs.antt =====
-- The messages that the threads were handed and dispatched, and what one operation makes of them.
use rpyc_async.Prelude.{
  ℕ, Bool, true, false, List, [], ◌∷◌, ◌++◌, All, Option, none, some, ◌==◌, ==_iff, if◌then◌else◌,
  ◌≡◌, refl, ◌≢◌, ◌⊎◌, arith, append_assoc, append-nil,
}
use rpyc_async.Protocol.Bound.{
  Message, receiving, Thread, Bound, update, hand_over, dispatches, take_first, tell, event_after,
}
use rpyc_async.Protocol.Bound.Exclusive.{pcs}

-- The messages of one thread.
abbrev pub of : ℕ → List (ℕ × Message) → List Message
of i [] = []
of i ((j, m) ∷ log) = if j == i then m ∷ of i log else of i log

of-append : (i : ℕ) (log more : List (ℕ × Message)) → of i (log ++ more) ≡ of i log ++ of i more
of-append i [] more = refl
of-append i ((j, m) ∷ log) more = ground (arith, of-append i log more)

-- A message that names a thread is handed to that thread.
abbrev pub Addressed : ℕ × Message → Type 0
Addressed (i, m) = (m.local_thread_id ≡ 0) ⊎ (m.local_thread_id ≡ i)

abbrev pub Unbound : Message → Type 0
Unbound m = m.local_thread_id ≡ 0

pub All-append_one {ℓ} :
    {A : Type ℓ} (P : A → Type 0) (log : List A) (entry : A)
    → All P log
    → P entry
    → All P (log ++ entry ∷ [])
All-append_one P [] entry h a = (a, tt)
All-append_one P (x ∷ log) entry (first, h) a = (first, All-append_one P log entry h a)

-- A thread: its event is set while it has messages, it has none while it receives, and it has
-- dispatched those before.
pub record IsThread (i : ℕ) (t : Thread) (given dispatched : List (ℕ × Message)) : Type 0 where
  pub signalled : t.event ≡ false → t.deque ≡ []
  pub emptied : t.pc ≡ receiving → t.deque ≡ []
  pub order : of i dispatched ++ t.deque ≡ of i given

pub record IsFifo (s : Bound) : Type 0 where
  pub addressed : All Addressed s.given
  pub unbound : All Unbound s.submitted
  pub each : (i : ℕ) → IsThread i (s.threads i) s.given s.dispatched

regroup : (xs ys zs : List Message) → xs ++ (ys ++ zs) ≡ (xs ++ ys) ++ zs
regroup xs ys zs = simp append_assoc

event_after-false : (rest : List Message) → event_after rest ≡ false → rest ≡ []
event_after-false [] h = refl
event_after-false (m ∷ rest) h = absurd (cc)

module _ (i : ℕ) (s : Bound) (v : IsFifo s) where
  -- A change of one thread that leaves its deque and the logs alone.
  pub change-IsFifo :
      (t : Thread) (pool : List ℕ) (flag : Bool)
      → t.deque ≡ (s.threads i).deque
      → (t.event ≡ false → (s.threads i).deque ≡ [])
      → (t.pc ≡ receiving → (s.threads i).deque ≡ [])
      → IsFifo (record s { threads = update s.threads i t; pool = pool; receiving_now = flag })
  change-IsFifo t pool flag same event pc = record {
    addressed = v.addressed;
    unbound = v.unbound;
    each = λ j. record {
      signalled = λ h. ground (arith, ==_iff i j, (v.each j).signalled, event, same);
      emptied = λ h. ground (arith, ==_iff i j, (v.each j).emptied, pc, same);
      order = ground (arith, ==_iff i j, (v.each j).order, same);
    };
  }

  pub take_first-IsFifo :
      (m : Message) (rest : List Message)
      → (s.threads i).deque ≡ m ∷ rest
      → IsFifo (take_first i m rest s)
  unfolding take_first
  take_first-IsFifo m rest e = record {
    addressed = v.addressed;
    unbound = v.unbound;
    each = λ j. record {
      signalled =
          λ h. ground (arith, ==_iff i j, ==_iff i i, (v.each j).signalled, event_after-false rest);
      emptied = λ h. ground (arith, ==_iff i j, (v.each j).emptied);
      order = ground (
        arith,
        ==_iff i j,
        ==_iff i i,
        (v.each j).order,
        of-append j s.dispatched ((i, m) ∷ []),
        append_assoc (of j s.dispatched) (m ∷ []) rest,
        append-nil (of j s.dispatched),
        e,
      );
    };
  }

  pub hand_over-IsFifo :
      (m : Message) → pcs s i ≢ receiving → Addressed (i, m) → IsFifo (hand_over i m s)
  unfolding hand_over
  hand_over-IsFifo m before a = record {
    addressed = All-append_one Addressed s.given (i, m) v.addressed a;
    unbound = v.unbound;
    each = λ j. record {
      signalled = λ h. ground (arith, ==_iff i j, (v.each j).signalled);
      emptied = λ h. ground (arith, ==_iff i j, (v.each j).emptied);
      order = ground (
        arith,
        ==_iff i j,
        (v.each j).order,
        of-append j s.given ((i, m) ∷ []),
        regroup (of j s.dispatched) (s.threads j).deque (m ∷ []),
        append-nil (of j s.given),
      );
    };
  }

  dispatches-IsFifo :
      (m : Message)
      → pcs s i ≡ receiving
      → Addressed (i, m)
      → IsFifo (dispatches i m (record s { receiving_now = false; given = s.given ++ (i, m) ∷ [] }))
  dispatches-IsFifo m here a = record {
    addressed = All-append_one Addressed s.given (i, m) v.addressed a;
    unbound = v.unbound;
    each = λ j. record {
      signalled = λ h. ground (arith, ==_iff i j, (v.each j).signalled);
      emptied = λ h. ground (arith, ==_iff i j, (v.each j).emptied);
      order = ground (
        arith,
        ==_iff i j,
        (v.each j).order,
        (v.each i).emptied here,
        of-append j s.given ((i, m) ∷ []),
        of-append j s.dispatched ((i, m) ∷ []),
        append-nil (of j s.dispatched),
        append-nil (of j s.given),
        append-nil (of j s.dispatched ++ m ∷ []),
      );
    };
  }

pub tell-IsFifo : (o : Option ℕ) (s : Bound) → IsFifo s → IsFifo (tell o s)
tell-IsFifo none s v = record { addressed = v.addressed; unbound = v.unbound; each = v.each }
tell-IsFifo (some k) s v =
    change-IsFifo k s v (record (s.threads k) { event = true }) s.pool false refl (λ h. absurd (cc))
      (λ h. ground (arith, (v.each k).emptied h, h))

pub keep-IsFifo :
    (i : ℕ) (m : Message) (o : Option ℕ) (s : Bound)
    → pcs s i ≡ receiving
    → Addressed (i, m)
    → IsFifo s
    → IsFifo (dispatches i m (record (tell o s) { given = s.given ++ (i, m) ∷ [] }))
keep-IsFifo i m none s here a v = dispatches-IsFifo i s v m here a
keep-IsFifo i m (some k) s here a v =
    dispatches-IsFifo i (tell (some k) s) (tell-IsFifo (some k) s v) m
      (ground (arith, here, ==_iff k i)) a
