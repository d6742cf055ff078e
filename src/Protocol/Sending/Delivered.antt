-- ===== src/Protocol/Sending/Delivered.antt =====
-- Nothing is left in the send queue, and nothing is sent out of order.
use rpyc_async.Prelude.{
  ℕ, Bool, true, false, List, [], ◌∷◌, ◌++◌, All, Option, none, some, ◌==◌, ==_iff, ◌≡◌, refl, ◌⊎◌,
  inl, inr, arith, append_assoc, append-nil, sym, ◌∙◌, ap, subst, Bool-cases,
}
use rpyc_async.Protocol.Sending.{
  Pc, idle, checking, trying, holding, sending, releasing, raising, Sender, update, goes, check,
  acquire, pop_first, advance, enter, Move, calls, steps, fails, move, run, new_sender,
}

-- Between the acquisition of the lock and its release.
abbrev inside : Pc → Bool
inside idle = false
inside checking = false
inside trying = false
inside holding = true
inside (sending d) = true
inside releasing = true
inside raising = true

abbrev busy : Pc → Bool
busy idle = false
busy checking = true
busy trying = true
busy holding = true
busy (sending d) = true
busy releasing = true
busy raising = false

abbrev carried : Pc → List ℕ
carried idle = []
carried checking = []
carried trying = []
carried holding = []
carried (sending d) = d ∷ []
carried releasing = []
carried raising = []

-- The message that the call with the lock has taken out of the queue.
abbrev in_hand : Option ℕ → (ℕ → Pc) → List ℕ
in_hand none pc = []
in_hand (some i) pc = carried (pc i)

abbrev Owns : ℕ → Sender → Type 0
Owns i s = inside (s.pc i) ≡ true → s.sendlock ≡ some i

abbrev Owned : Option ℕ → (ℕ → Pc) → Type 0
Owned none pc = Unit
Owned (some i) pc = (inside (pc i) ≡ true) × (busy (pc i) ≡ true)

record IsSender (s : Sender) : Type 0 where
  owns : (i : ℕ) → Owns i s
  owned : Owned s.sendlock s.pc
  order : s.sent ++ (in_hand s.sendlock s.pc ++ s.queue) ≡ s.appended
  lively : (s.queue ≡ []) ⊎ ((i : ℕ) × (busy (s.pc i) ≡ true))

abbrev Succeeds : Move → Type 0
Succeeds (calls i d) = Unit
Succeeds (steps i) = Unit
Succeeds (fails i) = ⊥

busy_moved : (f : ℕ → Pc) (i : ℕ) (p : Pc) → busy p ≡ true → busy (update f i p i) ≡ true
busy_moved f i p h = ground (arith, ==_iff i i)

-- A call that stays busy keeps a queue from being forgotten.
lively-goes :
    (queue : List ℕ) (f : ℕ → Pc) (i : ℕ) (p : Pc)
    → busy p ≡ true
    → (queue ≡ []) ⊎ ((j : ℕ) × (busy (update f i p j) ≡ true))
lively-goes queue f i p h = inr (i, busy_moved f i p h)

update_self : (f : ℕ → Pc) (i : ℕ) (p : Pc) → update f i p i ≡ p
update_self f i p = ground (arith, ==_iff i i)

regroup : (xs ys zs ws : List ℕ) → xs ++ (ys ++ (zs ++ ws)) ≡ (xs ++ (ys ++ zs)) ++ ws
regroup xs ys zs ws = simp append_assoc

module _ (i : ℕ) (s : Sender) (v : IsSender s) where
  -- A call without the lock does not disturb the one with it.
  outside-Owned :
      (p : Pc) (lock : Option ℕ)
      → s.sendlock ≡ lock
      → inside (s.pc i) ≡ false
      → Owned lock (update s.pc i p) × (in_hand lock (update s.pc i p) ≡ in_hand lock s.pc)
  outside-Owned p none e out = (tt, refl)
  outside-Owned p (some j) e out =
      let held : Owned (some j) s.pc = subst (λ o. Owned o s.pc) e v.owned in
      elim (Bool-cases (i == j)) [
        | inl same ↦ absurd (cc (out, held.0, ap (λ k. inside (s.pc k)) ((==_iff i j).0 same)))
        | inr other ↦ rw other (held, refl)
      ]

  -- A call goes on without the lock.
  outside-IsSender :
      (p : Pc)
      → inside (s.pc i) ≡ false
      → inside p ≡ false
      → (s.queue ≡ []) ⊎ ((j : ℕ) × (busy (update s.pc i p j) ≡ true))
      → IsSender (goes i p s)
  outside-IsSender p out stays lively =
      let (owned, same) = outside-Owned p s.sendlock refl out in
      record {
        owns = λ j. ground (arith, v.owns j, stays);
        owned = owned;
        order = ap (λ h. s.sent ++ (h ++ s.queue)) same ∙ v.order;
        lively = lively;
      }

  check-IsSender :
      (queue : List ℕ) → s.queue ≡ queue → s.pc i ≡ checking → IsSender (check i queue s)
  check-IsSender [] e at = outside-IsSender idle (ap inside at) refl (inl e)
  check-IsSender (d ∷ ds) e at =
      outside-IsSender trying (ap inside at) refl (lively-goes s.queue s.pc i trying refl)

  acquire-IsSender :
      (lock : Option ℕ) → s.sendlock ≡ lock → s.pc i ≡ trying → IsSender (acquire i lock s)
  acquire-IsSender none e at = record {
    owns = λ j. ground (arith, v.owns j, e, ==_iff i j);
    owned = ground (arith, ==_iff i i);
    order =
        ap (λ p. s.sent ++ (carried p ++ s.queue)) (update_self s.pc i holding)
        ∙ (ap (λ o. s.sent ++ (in_hand o s.pc ++ s.queue)) (sym e) ∙ v.order);
    lively = lively-goes s.queue s.pc i holding refl;
  }
  acquire-IsSender (some j) e at =
      let held : Owned (some j) s.pc = subst (λ o. Owned o s.pc) e v.owned in
      let (still, same) = outside-Owned idle (some j) e (ap inside at) in
      outside-IsSender idle (ap inside at) refl (inr (j, still.1))

  -- The call that has the lock, and its message.
  owner : inside (s.pc i) ≡ true → s.sendlock ≡ some i
  owner within = v.owns i within

  owner_order :
      (p : Pc) → s.pc i ≡ p → inside p ≡ true → s.sent ++ (carried p ++ s.queue) ≡ s.appended
  owner_order p at within =
      ap (λ q. s.sent ++ (carried q ++ s.queue)) (sym at)
      ∙ (ap (λ o. s.sent ++ (in_hand o s.pc ++ s.queue)) (sym (owner (ap inside at ∙ within)))
          ∙ v.order)

  -- It goes on with the lock.
  inside-IsSender :
      (p : Pc) (queue sent : List ℕ)
      → s.sendlock ≡ some i
      → inside p ≡ true
      → busy p ≡ true
      → sent ++ (carried p ++ queue) ≡ s.appended
      → IsSender (goes i p (record s { queue = queue; sent = sent }))
  inside-IsSender p queue sent lock within active order =
      let t = goes i p (record s { queue = queue; sent = sent }) in
      let self = update_self s.pc i p in
      record {
        owns = λ j. ground (arith, v.owns j, lock, ==_iff i j);
        owned =
            subst (λ o. Owned o t.pc) (sym lock) (ap inside self ∙ within, ap busy self ∙ active);
        order =
            ap (λ o. sent ++ (in_hand o t.pc ++ queue)) lock
            ∙ (ap (λ q. sent ++ (carried q ++ queue)) self ∙ order);
        lively = lively-goes queue s.pc i p active;
      }

  pop_first-IsSender :
      (queue : List ℕ) → s.queue ≡ queue → s.pc i ≡ holding → IsSender (pop_first i queue s)
  pop_first-IsSender [] e at =
      inside-IsSender releasing s.queue s.sent (owner (ap inside at)) refl refl
        (owner_order holding at refl)
  pop_first-IsSender (d ∷ ds) e at =
      inside-IsSender (sending d) ds s.sent (owner (ap inside at)) refl refl
        (ap (λ q. s.sent ++ q) (sym e) ∙ owner_order holding at refl)

  sent-IsSender :
      (d : ℕ)
      → s.pc i ≡ sending d
      → IsSender (goes i releasing (record s { sent = s.sent ++ d ∷ [] }))
  sent-IsSender d at =
      inside-IsSender releasing s.queue (s.sent ++ d ∷ []) (owner (ap inside at)) refl refl
        (append_assoc s.sent (d ∷ []) s.queue ∙ owner_order (sending d) at refl)

  released-IsSender : s.pc i ≡ releasing → IsSender (goes i checking (record s { sendlock = none }))
  released-IsSender at =
      let lock = owner (ap inside at) in
      record {
        owns = λ j. ground (arith, v.owns j, lock, ==_iff i j);
        owned = tt;
        order = owner_order releasing at refl;
        lively = lively-goes s.queue s.pc i checking refl;
      }

  enter-IsSender : (d : ℕ) (p : Pc) → s.pc i ≡ p → IsSender (enter i d p s)
  enter-IsSender d idle at =
      let (owned, same) = outside-Owned checking s.sendlock refl (ap inside at) in
      record {
        owns = λ j. ground (arith, v.owns j);
        owned = owned;
        order =
            ap (λ h. s.sent ++ (h ++ (s.queue ++ d ∷ []))) same
            ∙ (regroup s.sent (in_hand s.sendlock s.pc) s.queue (d ∷ [])
                ∙ ap (λ q. q ++ d ∷ []) v.order);
        lively = lively-goes (s.queue ++ d ∷ []) s.pc i checking refl;
      }
  enter-IsSender d checking at = v
  enter-IsSender d trying at = v
  enter-IsSender d holding at = v
  enter-IsSender d (sending e) at = v
  enter-IsSender d releasing at = v
  enter-IsSender d raising at = v

  advance-IsSender : (p : Pc) → s.pc i ≡ p → IsSender (advance i p s)
  unfolding advance
  advance-IsSender idle at = v
  advance-IsSender checking at = check-IsSender s.queue refl at
  advance-IsSender trying at = acquire-IsSender s.sendlock refl at
  advance-IsSender holding at = pop_first-IsSender s.queue refl at
  advance-IsSender (sending d) at = sent-IsSender d at
  advance-IsSender releasing at = released-IsSender at
  advance-IsSender raising at =
      let held : Owned (some i) s.pc = subst (λ o. Owned o s.pc) (owner (ap inside at)) v.owned in
      absurd (cc (held.1, ap busy at))

move-IsSender : (m : Move) (s : Sender) → Succeeds m → IsSender s → IsSender (move m s)
unfolding move
move-IsSender (calls i d) s fine v = enter-IsSender i s v d (s.pc i) refl
move-IsSender (steps i) s fine v = advance-IsSender i s v (s.pc i) refl
move-IsSender (fails i) s fine v = absurd fine

run-IsSender :
    (moves : List Move) (s : Sender) → All Succeeds moves → IsSender s → IsSender (run moves s)
unfolding run
run-IsSender [] s fine v = v
run-IsSender (m ∷ moves) s (fine, more) v =
    run-IsSender moves (move m s) more (move-IsSender m s fine v)

new_sender-IsSender : IsSender new_sender
new_sender-IsSender = record { owns = λ i. cc; owned = tt; order = refl; lively = inl refl }

-- The call with the lock is not idle.
idle_lock :
    (s : Sender) (lock : Option ℕ)
    → ((i : ℕ) → s.pc i ≡ idle)
    → Owned lock s.pc
    → in_hand lock s.pc ≡ []
idle_lock s none quiet owned = refl
idle_lock s (some i) quiet owned = ap carried (quiet i)

-- However calls of `_send` are interleaved, as long as the channel takes every message, when all
-- calls have returned the queue is empty and the channel was given the messages of all calls, each
-- once, in the order in which they were appended.
pub run-sent :
    (moves : List Move)
    → All Succeeds moves
    → ((i : ℕ) → (run moves new_sender).pc i ≡ idle)
    → ((run moves new_sender).queue ≡ [])
      × ((run moves new_sender).sent ≡ (run moves new_sender).appended)
run-sent moves fine quiet =
    let s = run moves new_sender in
    let v = run-IsSender moves new_sender fine new_sender-IsSender in
    let empty : s.queue ≡ [] = elim v.lively [
      | inl none_left ↦ none_left
      | inr (i, active) ↦ absurd (cc (ap busy (quiet i)))
    ] in
    let all : s.sent ++ ([] ++ []) ≡ s.appended =
      subst (λ h. s.sent ++ (h ++ []) ≡ s.appended) (idle_lock s s.sendlock quiet v.owned)
        (subst (λ q. s.sent ++ (in_hand s.sendlock s.pc ++ q) ≡ s.appended) empty v.order) in
    (empty, sym (append-nil s.sent) ∙ all)
