-- ===== src/Protocol/Awaits/Settled.antt =====
-- An answer settles the futures, one call of the loop at a time.
use rpyc_async.Prelude.{
  ℕ, suc, Bool, true, false, List, [], ◌∷◌, ◌++◌, Option, none, some, ◌≡◌, refl, inl, inr, ◌==◌,
  ==_iff, arith, ℕ_eq, sym, subst, Bool-cases, ◌≢◌,
}
use rpyc_async.Prelude.Dict.{get, get-set_item}
use rpyc_async.Protocol.Awaits.Stranded.{holds}
use rpyc_async.Protocol.Awaits.{
  Fate, pending, cancelled, returned, raised, Handle, settle, done, Awaiting, finish,
  settle_pending, settle_open, fate_of,
}
use rpyc_async.Protocol.Awaits.Told.{Has, Tells, IsAnswered, Tells-append, settling-append}

-- What a future has does not get lost when a done callback joins the queue.
queued_keeps :
    (s : Awaiting) (fut f : ℕ) (futures : List (ℕ × Fate)) (found : Option Fate)
    → Has s f found
    → Has (record s { futures = futures; ready = s.ready ++ done fut ∷ [] }) f found
queued_keeps s fut f futures none h = tt
queued_keeps s fut f futures (some fate) (inl same) = inl same
queued_keeps s fut f futures (some fate) (inr (waits, soon)) =
    inr (waits, ground (arith, settling-append f s.ready (done fut ∷ [])))

-- What another future has does not depend on the call at the front.
pub others_keep :
    (s : Awaiting) (hs : List Handle) (fut f : ℕ) (is_exc : Bool) (obj : ℕ) (found : Option Fate)
    → s.ready ≡ settle fut is_exc obj ∷ hs
    → (fut == f) ≡ false
    → Has s f found
    → Has (record s { ready = hs }) f found
others_keep s hs fut f is_exc obj none e ne h = tt
others_keep s hs fut f is_exc obj (some fate) e ne (inl same) = inl same
others_keep s hs fut f is_exc obj (some fate) e ne (inr (waits, soon)) =
    inr (waits, ground (arith, e, ne, soon))

settled_keeps :
    (s : Awaiting) (hs : List Handle) (fut : ℕ) (fate : Fate)
    → fate ≢ pending
    → Has s fut (some fate)
    → Has (record s { ready = hs }) fut (some fate)
settled_keeps s hs fut fate settled (inl same) = inl same
settled_keeps s hs fut fate settled (inr (waits, soon)) = absurd (settled waits)

-- Every future has what it needs if one has and the others have.
all_keep :
    (s : Awaiting) (fut : ℕ)
    → Has s fut (get fut s.futures)
    → ((f : ℕ) → (fut == f) ≡ false → Has s f (get f s.futures))
    → (f : ℕ) → Has s f (get f s.futures)
all_keep s fut own others f = elim (Bool-cases (fut == f)) [
  | inl same ↦ subst (λ k. Has s k (get k s.futures)) ((==_iff fut f).0 same) own
  | inr other ↦ others f other
]

-- The state without what one future has.
pub record IsNearly (self fut : ℕ) (s : Awaiting) : Type 0 where
  pub unheld : (number : ℕ) → holds self (get number s.slots) ≡ false
  pub there : s.result.is_ready ≡ true
  pub tells : Tells s.result.is_exc s.result.obj s.ready
  pub others : (f : ℕ) → (fut == f) ≡ false → Has s f (get f s.futures)

finish-IsAnswered :
    (self fut : ℕ) (fate : Fate) (s : Awaiting)
    → fate ≡ fate_of s.result.is_exc s.result.obj
    → IsNearly self fut s
    → IsAnswered self (finish fut fate s)
unfolding finish
finish-IsAnswered self fut fate s known v =
    let t = finish fut fate s in
    record {
      unheld = v.unheld;
      there = v.there;
      tells = Tells-append s.result.is_exc s.result.obj s.ready (done fut ∷ []) v.tells tt;
      has = λ f.
          subst (Has t f) (sym (get-set_item fut f fate s.futures)) (elim (Bool-cases (fut == f)) [
            | inl same ↦ rw same (inl known)
            | inr other ↦
                rw other (queued_keeps s fut f t.futures (get f s.futures) (v.others f other))
          ]);
    }

settled-IsAnswered :
    (self fut refused : ℕ) (s : Awaiting)
    → IsNearly self fut s
    → Has s fut (get fut s.futures)
    → IsAnswered self (record s { refused = refused })
settled-IsAnswered self fut refused s v own = record {
  unheld = v.unheld;
  there = v.there;
  tells = v.tells;
  has = λ f. refused_keeps s refused f (get f s.futures) (all_keep s fut own v.others f);
}
  where
    refused_keeps :
        (s : Awaiting) (refused f : ℕ) (found : Option Fate)
        → Has s f found
        → Has (record s { refused = refused }) f found
    refused_keeps s refused f none h = tt
    refused_keeps s refused f (some fate) h = h

-- A future that is still pending: the answer settles it, or it cannot.
settle_open-IsAnswered :
    (self fut : ℕ) (fate : Fate) (s : Awaiting)
    → fate ≡ fate_of s.result.is_exc s.result.obj
    → get fut s.futures ≡ some pending
    → IsNearly self fut s
    → IsAnswered self (settle_open fut fate s)
unfolding settle_open
settle_open-IsAnswered self fut pending s known e v =
    settled-IsAnswered self fut (suc s.refused) s v (subst (Has s fut) (sym e) (inl known))
settle_open-IsAnswered self fut cancelled s known e v =
    finish-IsAnswered self fut cancelled s known v
settle_open-IsAnswered self fut (returned r) s known e v =
    finish-IsAnswered self fut (returned r) s known v
settle_open-IsAnswered self fut (raised r) s known e v =
    finish-IsAnswered self fut (raised r) s known v

pub settle-IsAnswered :
    (self fut : ℕ) (hs : List Handle) (found : Option Fate) (s : Awaiting)
    → get fut s.futures ≡ found
    → Has s fut found
    → IsNearly self fut (record s { ready = hs })
    → IsAnswered self
        (settle_pending fut (fate_of s.result.is_exc s.result.obj) found (record s { ready = hs }))
unfolding settle_pending
settle-IsAnswered self fut hs (some pending) s e h v =
    settle_open-IsAnswered self fut (fate_of s.result.is_exc s.result.obj) (record s { ready = hs })
      refl e v
settle-IsAnswered self fut hs none s e h v =
    settled-IsAnswered self fut s.refused (record s { ready = hs }) v
      (subst (Has (record s { ready = hs }) fut) (sym e) tt)
settle-IsAnswered self fut hs (some cancelled) s e h v =
    settled-IsAnswered self fut (suc s.refused) (record s { ready = hs }) v
      (subst (Has (record s { ready = hs }) fut) (sym e) (settled_keeps s hs fut cancelled (cc) h))
settle-IsAnswered self fut hs (some (returned r)) s e h v =
    settled-IsAnswered self fut (suc s.refused) (record s { ready = hs }) v
      (subst (Has (record s { ready = hs }) fut) (sym e)
        (settled_keeps s hs fut (returned r) (cc) h))
settle-IsAnswered self fut hs (some (raised r)) s e h v =
    settled-IsAnswered self fut (suc s.refused) (record s { ready = hs }) v
      (subst (Has (record s { ready = hs }) fut) (sym e) (settled_keeps s hs fut (raised r) (cc) h))
