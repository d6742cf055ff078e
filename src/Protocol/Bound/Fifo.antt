-- ===== src/Protocol/Bound/Fifo.antt =====
-- Each thread dispatches the messages that it was handed, once and in their order.
use rpyc_async.Prelude.{
  ℕ, Bool, true, false, List, [], ◌∷◌, ◌++◌, All, Option, none, some, ◌==◌, ==_iff, if◌then◌else◌,
  ◌≡◌, refl, ◌≢◌, inl, inr, arith, sym, ap, subst,
}
use rpyc_async.Protocol.Bound.{
  Message, outside, waiting, receiving, Thread, Bound, moves_to, take_first, become_receiver,
  enter_pool, begin, wake, clear, first_unset, tell, pass_on, first_of, first_free, hand_free, keep,
  route, Input, fails, nothing, arrives, receive, start_next, at, Move, serves, wakes, starts,
  receives, occupies, move, run, new_bound, is_free,
}
use rpyc_async.Protocol.Bound.Exclusive.{Excludes, move-Excludes, new_bound-Excludes, at→eq, pcs}
use rpyc_async.Protocol.Bound.Logs.{
  of, Addressed, Unbound, All-append_one, IsFifo, change-IsFifo, take_first-IsFifo,
  hand_over-IsFifo, tell-IsFifo, keep-IsFifo,
}

first_free-is_free :
    (threads : ℕ → Thread) (pool : List ℕ) (k : ℕ)
    → first_free threads pool ≡ some k
    → is_free (threads k) ≡ true
first_free-is_free threads [] k h = absurd (cc)
first_free-is_free threads (i ∷ pool) k h = ground (arith, first_free-is_free threads pool k, h)

either-IsFifo :
    (b : Bool) (s t : Bound)
    → (b ≡ true → IsFifo s)
    → (b ≡ false → IsFifo t)
    → IsFifo (if b then s else t)
either-IsFifo true s t yes_case no_case = yes_case refl
either-IsFifo false s t yes_case no_case = no_case refl

module _ (i : ℕ) (s : Bound) (v : IsFifo s) (x : Excludes s) where
  -- No other thread receives.
  other_place : (k : ℕ) → pcs s i ≡ receiving → i ≢ k → pcs s k ≢ receiving
  other_place k here ne at_k = ne (x.one i k here at_k)

  hand_free-IsFifo :
      (m : Message) (o : Option ℕ)
      → first_free s.threads s.pool ≡ o
      → pcs s i ≡ receiving
      → is_free (s.threads i) ≡ false
      → m.local_thread_id ≡ 0
      → IsFifo (hand_free m o s)
  unfolding hand_free
  hand_free-IsFifo m none e here occupied unbound = record {
    addressed = v.addressed;
    unbound = All-append_one Unbound s.submitted m v.unbound unbound;
    each = v.each;
  }
  hand_free-IsFifo m (some k) e here occupied unbound =
      let free = first_free-is_free s.threads s.pool k e in
      hand_over-IsFifo k s v m
        (other_place k here (λ same. cc (ap (λ j. is_free (s.threads j)) same, free, occupied)))
        (inl unbound)

  route-IsFifo : (m : Message) → pcs s i ≡ receiving → IsFifo (route i m s)
  unfolding route keep pass_on
  route-IsFifo m here =
      let kept =
        λ (a : Addressed (i, m)). keep-IsFifo i m (first_unset s.threads s.pool) s here a v in
      either-IsFifo (m.local_thread_id == 0) _ _
        (λ unbound.
          let zero_id = (==_iff m.local_thread_id 0).0 unbound in
          either-IsFifo (is_free (s.threads i)) _ _ (λ free. kept (inl zero_id))
            (λ occupied.
              hand_free-IsFifo m (first_free s.threads s.pool) refl here occupied zero_id))
        (λ bound.
          either-IsFifo (m.local_thread_id == i) _ _
            (λ own. kept (inr ((==_iff m.local_thread_id i).0 own)))
            (λ other.
              hand_over-IsFifo m.local_thread_id s v m
                (other_place m.local_thread_id here
                  (λ same. cc ((==_iff m.local_thread_id i).1 (sym same), other)))
                (inr refl)))

  begin-IsFifo :
      (event : Bool) (deque : List Message) (busy : Bool)
      → (s.threads i).event ≡ event
      → (s.threads i).deque ≡ deque
      → pcs s i ≢ receiving
      → IsFifo (begin i event deque busy s)
  unfolding begin enter_pool become_receiver
  begin-IsFifo true (m ∷ rest) busy e d before = take_first-IsFifo i s v m rest d
  begin-IsFifo true [] true e d before =
      change-IsFifo i s v (record (s.threads i) { pc = waiting }) (s.pool ++ i ∷ []) s.receiving_now
        refl (v.each i).signalled (λ h. absurd (cc))
  begin-IsFifo true [] false e d before =
      change-IsFifo i s v (record (s.threads i) { pc = receiving }) s.pool true refl
        (v.each i).signalled (λ h. d)
  begin-IsFifo false deque true e d before =
      change-IsFifo i s v (record (s.threads i) { pc = waiting }) (s.pool ++ i ∷ []) s.receiving_now
        refl (v.each i).signalled (λ h. absurd (cc))
  begin-IsFifo false deque false e d before =
      change-IsFifo i s v (record (s.threads i) { pc = receiving }) s.pool true refl
        (v.each i).signalled (λ h. (v.each i).signalled e)

goes_out-IsFifo : (i : ℕ) (s : Bound) → IsFifo s → IsFifo (moves_to i outside s)
goes_out-IsFifo i s v =
    change-IsFifo i s v (record (s.threads i) { pc = outside }) s.pool s.receiving_now refl
      (v.each i).signalled (λ h. absurd (cc))

pool-IsFifo : (pool : List ℕ) (s : Bound) → IsFifo s → IsFifo (record s { pool = pool })
pool-IsFifo pool s v = record { addressed = v.addressed; unbound = v.unbound; each = v.each }

cleared-IsFifo : (i : ℕ) (s : Bound) → (s.threads i).deque ≡ [] → IsFifo s → IsFifo (clear i s)
cleared-IsFifo i s d v =
    change-IsFifo i s v (record (s.threads i) { event = false }) s.pool s.receiving_now refl
      (λ h. d) (v.each i).emptied

received-IsFifo :
    (i : ℕ) (s : Bound) → (s.threads i).deque ≡ [] → IsFifo s → IsFifo (become_receiver i s)
unfolding become_receiver
received-IsFifo i s d v =
    change-IsFifo i s v (record (s.threads i) { pc = receiving }) s.pool true refl
      (v.each i).signalled (λ h. d)

wake-IsFifo :
    (i : ℕ) (event : Bool) (deque : List Message) (busy : Bool) (s : Bound)
    → (s.threads i).deque ≡ deque
    → IsFifo s
    → IsFifo (wake i event deque busy s)
unfolding wake
wake-IsFifo i false deque busy s d v = goes_out-IsFifo i s v
wake-IsFifo i true (m ∷ rest) busy s d v =
    pool-IsFifo _ (take_first i m rest s) (take_first-IsFifo i s v m rest d)
wake-IsFifo i true [] true s d v = cleared-IsFifo i s d v
wake-IsFifo i true [] false s d v =
    pool-IsFifo _ (become_receiver i (clear i s))
      (received-IsFifo i (clear i s) (ground (arith, ==_iff i i, d)) (cleared-IsFifo i s d v))

receive-IsFifo :
    (i : ℕ) (input : Input) (s : Bound)
    → pcs s i ≡ receiving
    → Excludes s
    → IsFifo s
    → IsFifo (receive i input s)
unfolding receive pass_on
receive-IsFifo i fails s here x v =
    goes_out-IsFifo i (tell (first_of s.pool) s) (tell-IsFifo (first_of s.pool) s v)
receive-IsFifo i nothing s here x v =
    goes_out-IsFifo i (tell (first_unset s.threads s.pool) s)
      (tell-IsFifo (first_unset s.threads s.pool) s v)
receive-IsFifo i (arrives m) s here x v = route-IsFifo i s v x m here

start_next-IsFifo :
    (i : ℕ) (submitted : List Message) (s : Bound)
    → s.submitted ≡ submitted
    → pcs s i ≢ receiving
    → IsFifo s
    → IsFifo (start_next i submitted s)
unfolding start_next
start_next-IsFifo i [] s e before v = v
start_next-IsFifo i (m ∷ rest) s e before v =
    let (first, others) = subst (All Unbound) e v.unbound in
    hand_over-IsFifo i (record s { submitted = rest })
      (record { addressed = v.addressed; unbound = others; each = v.each }) m before (inl first)

move-IsFifo : (m : Move) (s : Bound) → Excludes s → IsFifo s → IsFifo (move m s)
unfolding move
move-IsFifo (serves i) s x v =
    either-IsFifo (at outside (pcs s i)) _ s
      (λ h.
        begin-IsFifo i s v x (s.threads i).event (s.threads i).deque s.receiving_now refl refl
          (cc (at→eq outside (pcs s i) h)))
      (λ h. v)
move-IsFifo (wakes i) s x v =
    either-IsFifo (at waiting (pcs s i)) _ s
      (λ h. wake-IsFifo i (s.threads i).event (s.threads i).deque s.receiving_now s refl v) (λ h. v)
move-IsFifo (receives i input) s x v =
    either-IsFifo (at receiving (pcs s i)) _ s
      (λ h. receive-IsFifo i input s (at→eq receiving (pcs s i) h) x v) (λ h. v)
move-IsFifo (starts i) s x v =
    either-IsFifo (at outside (pcs s i)) _ s
      (λ h. start_next-IsFifo i s.submitted s refl (cc (at→eq outside (pcs s i) h)) v) (λ h. v)
move-IsFifo (occupies i n) s x v =
    change-IsFifo i s v (record (s.threads i) { occupation_count = n }) s.pool s.receiving_now refl
      (v.each i).signalled (v.each i).emptied

run-IsFifo : (moves : List Move) (s : Bound) → Excludes s → IsFifo s → IsFifo (run moves s)
unfolding run
run-IsFifo [] s x v = v
run-IsFifo (m ∷ moves) s x v =
    run-IsFifo moves (move m s) (move-Excludes m s x) (move-IsFifo m s x v)

new_bound-IsFifo : IsFifo new_bound
new_bound-IsFifo = record {
  addressed = tt;
  unbound = tt;
  each = λ i. record { signalled = λ h. refl; emptied = λ h. refl; order = refl };
}

-- However bound threads serve, wake up, time out and receive, the messages that a thread has
-- dispatched, followed by those in its deque, are those that it was handed, each once and in their
-- order; and a message that names a thread is handed to that thread only.
pub run-order :
    (moves : List Move) (i : ℕ)
    → (of i (run moves new_bound).dispatched ++ ((run moves new_bound).threads i).deque
        ≡ of i (run moves new_bound).given)
      × All Addressed (run moves new_bound).given
run-order moves i =
    let v = run-IsFifo moves new_bound new_bound-Excludes new_bound-IsFifo in
    ((v.each i).order, v.addressed)
