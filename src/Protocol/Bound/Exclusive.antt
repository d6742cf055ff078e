-- ===== src/Protocol/Bound/Exclusive.antt =====
-- At most one thread receives.
use rpyc_async.Prelude.{
  ℕ, Bool, true, false, List, [], ◌∷◌, ◌++◌, Option, none, some, ◌==◌, ==_iff, if◌then◌else◌, ◌≡◌,
  refl, ◌≢◌, ◌⊎◌, inl, inr, arith, sym, ◌∙◌,
}
use rpyc_async.Protocol.Bound.{
  Message, Pc, outside, waiting, receiving, Bound, moves_to, hand_over, dispatches, take_first,
  become_receiver, enter_pool, begin, wake, clear, first_unset, tell, pass_on, first_of, first_free,
  hand_free, keep, route, Input, fails, nothing, arrives, receive, start_next, at, Move, serves,
  wakes, starts, receives, occupies, move, run, new_bound, is_free,
}

abbrev pub pcs : Bound → ℕ → Pc
pcs s i = (s.threads i).pc

pub record IsExclusive (flag : Bool) (pc : ℕ → Pc) : Type 0 where
  pub one : (i j : ℕ) → pc i ≡ receiving → pc j ≡ receiving → i ≡ j
  pub announced : (i : ℕ) → pc i ≡ receiving → flag ≡ true
  pub somebody : (flag ≡ false) ⊎ ((i : ℕ) × (pc i ≡ receiving))

-- The threads are where they were, but for one.
abbrev pub Moved : (ℕ → Pc) → ℕ → Pc → (ℕ → Pc) → Type 0
Moved f i p g = (j : ℕ) → g j ≡ (if i == j then p else f j)

module _ {flag : Bool} {f g : ℕ → Pc} (v : IsExclusive flag f) where
  pub stays-IsExclusive : ((j : ℕ) → g j ≡ f j) → IsExclusive flag g
  stays-IsExclusive same = record {
    one = λ i j at_i at_j. v.one i j (sym (same i) ∙ at_i) (sym (same j) ∙ at_j);
    announced = λ i at_i. v.announced i (sym (same i) ∙ at_i);
    somebody = elim v.somebody [ inl nobody ↦ inl nobody | inr (i, here) ↦ inr (i, same i ∙ here) ];
  }

  -- A thread that does not receive goes where it does not receive.
  pub moves-IsExclusive :
      (i : ℕ) (p : Pc) → p ≢ receiving → f i ≢ receiving → Moved f i p g → IsExclusive flag g
  moves-IsExclusive i p still before moved = record {
    one = λ j k at_j at_k. ground (arith, moved j, moved k, v.one j k);
    announced = λ j at_j. ground (arith, moved j, v.announced j);
    somebody = elim v.somebody [
      | inl nobody ↦ inl nobody
      | inr (j, here) ↦ inr (j, ground (arith, moved j, ==_iff i j))
    ];
  }

  pub begins-IsExclusive : (i : ℕ) → flag ≡ false → Moved f i receiving g → IsExclusive true g
  begins-IsExclusive i nobody moved = record {
    one = λ j k at_j at_k.
        ground
          (arith, moved j, moved k, v.announced j, v.announced k, nobody, ==_iff i j, ==_iff i k);
    announced = λ j at_j. refl;
    somebody = inr (i, ground (arith, moved i, ==_iff i i));
  }

  pub ends-IsExclusive :
      (i : ℕ) (p : Pc) → p ≢ receiving → f i ≡ receiving → Moved f i p g → IsExclusive false g
  ends-IsExclusive i p still here moved = record {
    one = λ j k at_j at_k. ground (arith, moved j, v.one i j, ==_iff i j);
    announced = λ j at_j. ground (arith, moved j, v.one i j, ==_iff i j);
    somebody = inl refl;
  }

pub hand_over-pcs : (i j : ℕ) (m : Message) (s : Bound) → pcs (hand_over i m s) j ≡ pcs s j
unfolding hand_over
hand_over-pcs i j m s = ground (arith, ==_iff i j)

pub tell-pcs : (o : Option ℕ) (j : ℕ) (s : Bound) → pcs (tell o s) j ≡ pcs s j
tell-pcs none j s = refl
tell-pcs (some i) j s = ground (arith, ==_iff i j)

tell-receiving_now : (o : Option ℕ) (s : Bound) → (tell o s).receiving_now ≡ false
tell-receiving_now none s = refl
tell-receiving_now (some i) s = refl

abbrev pub Excludes : Bound → Type 0
Excludes s = IsExclusive s.receiving_now (pcs s)

module _ (i : ℕ) (s : Bound) (v : Excludes s) where
  take_first-Excludes :
      (m : Message) (rest : List Message) → pcs s i ≢ receiving → Excludes (take_first i m rest s)
  unfolding take_first
  take_first-Excludes m rest before =
      moves-IsExclusive v i outside (cc) before (λ j. ground (arith, ==_iff i j))

  enter_pool-Excludes : pcs s i ≢ receiving → Excludes (enter_pool i s)
  unfolding enter_pool
  enter_pool-Excludes before =
      moves-IsExclusive v i waiting (cc) before (λ j. ground (arith, ==_iff i j))

  become_receiver-Excludes : s.receiving_now ≡ false → Excludes (become_receiver i s)
  unfolding become_receiver
  become_receiver-Excludes nobody = begins-IsExclusive v i nobody (λ j. ground (arith, ==_iff i j))

  clear-Excludes : Excludes (clear i s)
  clear-Excludes = stays-IsExclusive v (λ j. ground (arith, ==_iff i j))

  hand_over-Excludes : (m : Message) → Excludes (hand_over i m s)
  unfolding hand_over
  hand_over-Excludes m = stays-IsExclusive v (λ j. ground (arith, ==_iff i j))

  goes_out-Excludes : pcs s i ≢ receiving → Excludes (moves_to i outside s)
  goes_out-Excludes before =
      moves-IsExclusive v i outside (cc) before (λ j. ground (arith, ==_iff i j))

  begin-Excludes :
      (event : Bool) (deque : List Message) (busy : Bool)
      → s.receiving_now ≡ busy
      → pcs s i ≢ receiving
      → Excludes (begin i event deque busy s)
  unfolding begin
  begin-Excludes true (m ∷ rest) busy e before = take_first-Excludes m rest before
  begin-Excludes true [] true e before = enter_pool-Excludes before
  begin-Excludes true [] false e before = become_receiver-Excludes e
  begin-Excludes false deque true e before = enter_pool-Excludes before
  begin-Excludes false deque false e before = become_receiver-Excludes e

  -- The receiver tells another thread, or nobody, and leaves.
  told-Excludes : (o : Option ℕ) → pcs s i ≡ receiving → Excludes (moves_to i outside (tell o s))
  told-Excludes none here = ends-IsExclusive v i outside (cc) here (λ j. ground (arith, ==_iff i j))
  told-Excludes (some k) here =
      ends-IsExclusive v i outside (cc) here (λ j. ground (arith, ==_iff i j, ==_iff k j))

  kept-Excludes :
      (m : Message) (o : Option ℕ) (given : List (ℕ × Message))
      → pcs s i ≡ receiving
      → Excludes (dispatches i m (record (tell o s) { given = given }))
  kept-Excludes m none given here =
      ends-IsExclusive v i outside (cc) here (λ j. ground (arith, ==_iff i j))
  kept-Excludes m (some k) given here =
      ends-IsExclusive v i outside (cc) here (λ j. ground (arith, ==_iff i j, ==_iff k j))

wake-Excludes :
    (i : ℕ) (event : Bool) (deque : List Message) (busy : Bool) (s : Bound)
    → s.receiving_now ≡ busy
    → pcs s i ≢ receiving
    → Excludes s
    → Excludes (wake i event deque busy s)
unfolding wake
wake-Excludes i false deque busy s e before v = goes_out-Excludes i s v before
wake-Excludes i true (m ∷ rest) busy s e before v = take_first-Excludes i s v m rest before
wake-Excludes i true [] true s e before v = clear-Excludes i s v
wake-Excludes i true [] false s e before v =
    become_receiver-Excludes i (clear i s) (clear-Excludes i s v) e

if-Excludes :
    (b : Bool) (s t : Bound)
    → (b ≡ true → Excludes s)
    → (b ≡ false → Excludes t)
    → Excludes (if b then s else t)
if-Excludes true s t yes_case no_case = yes_case refl
if-Excludes false s t yes_case no_case = no_case refl

hand_free-Excludes :
    (m : Message) (o : Option ℕ) (s : Bound) → Excludes s → Excludes (hand_free m o s)
unfolding hand_free
hand_free-Excludes m none s v = v
hand_free-Excludes m (some j) s v = hand_over-Excludes j s v m

route-Excludes :
    (i : ℕ) (m : Message) (s : Bound) → pcs s i ≡ receiving → Excludes s → Excludes (route i m s)
unfolding route keep pass_on
route-Excludes i m s here v =
    let kept = kept-Excludes i s v m (first_unset s.threads s.pool) (s.given ++ (i, m) ∷ []) here in
    if-Excludes (m.local_thread_id == 0) _ _
      (λ unbound.
        if-Excludes (is_free (s.threads i)) _ _ (λ free. kept)
          (λ occupied. hand_free-Excludes m (first_free s.threads s.pool) s v))
      (λ bound.
        if-Excludes (m.local_thread_id == i) _ _ (λ own. kept)
          (λ other. hand_over-Excludes m.local_thread_id s v m))

receive-Excludes :
    (i : ℕ) (input : Input) (s : Bound)
    → pcs s i ≡ receiving
    → Excludes s
    → Excludes (receive i input s)
unfolding receive pass_on
receive-Excludes i fails s here v = told-Excludes i s v (first_of s.pool) here
receive-Excludes i nothing s here v = told-Excludes i s v (first_unset s.threads s.pool) here
receive-Excludes i (arrives m) s here v = route-Excludes i m s here v

start_next-Excludes :
    (i : ℕ) (submitted : List Message) (s : Bound)
    → Excludes s
    → Excludes (start_next i submitted s)
unfolding start_next
start_next-Excludes i [] s v = v
start_next-Excludes i (m ∷ rest) s v = hand_over-Excludes i (record s { submitted = rest }) v m

pub at→eq : (p q : Pc) → at p q ≡ true → q ≡ p
at→eq outside outside h = refl
at→eq waiting waiting h = refl
at→eq receiving receiving h = refl
at→eq outside waiting h = absurd (cc)
at→eq outside receiving h = absurd (cc)
at→eq waiting outside h = absurd (cc)
at→eq waiting receiving h = absurd (cc)
at→eq receiving outside h = absurd (cc)
at→eq receiving waiting h = absurd (cc)

pub move-Excludes : (m : Move) (s : Bound) → Excludes s → Excludes (move m s)
unfolding move
move-Excludes (serves i) s v =
    if-Excludes (at outside (pcs s i)) _ s
      (λ h.
        begin-Excludes i s v (s.threads i).event (s.threads i).deque s.receiving_now refl
          (cc (at→eq outside (pcs s i) h)))
      (λ h. v)
move-Excludes (wakes i) s v =
    if-Excludes (at waiting (pcs s i)) _ s
      (λ h.
        wake-Excludes i (s.threads i).event (s.threads i).deque s.receiving_now s refl
          (cc (at→eq waiting (pcs s i) h)) v)
      (λ h. v)
move-Excludes (receives i input) s v =
    if-Excludes (at receiving (pcs s i)) _ s
      (λ h. receive-Excludes i input s (at→eq receiving (pcs s i) h) v) (λ h. v)
move-Excludes (starts i) s v =
    if-Excludes (at outside (pcs s i)) _ s (λ h. start_next-Excludes i s.submitted s v) (λ h. v)
move-Excludes (occupies i n) s v = stays-IsExclusive v (λ j. ground (arith, ==_iff i j))

pub run-Excludes : (moves : List Move) (s : Bound) → Excludes s → Excludes (run moves s)
unfolding run
run-Excludes [] s v = v
run-Excludes (m ∷ moves) s v = run-Excludes moves (move m s) (move-Excludes m s v)

pub new_bound-Excludes : Excludes new_bound
new_bound-Excludes = record { one = λ i j. cc; announced = λ i. cc; somebody = inl refl }

-- However bound threads serve, wake up, time out and receive, at most one of them is in the loop
-- that receives, and `_receiving` is set exactly while there is one.
pub run-IsExclusive :
    (moves : List Move)
    → IsExclusive (run moves new_bound).receiving_now (pcs (run moves new_bound))
run-IsExclusive moves = run-Excludes moves new_bound new_bound-Excludes
