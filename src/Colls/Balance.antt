-- ===== src/Colls/Balance.antt =====
-- What the counts mean: a bag of references.
use rpyc_async.Prelude.{
  ℕ, suc, ◌+◌, ◌-◌, ◌≤◌, ◌<◌, ◌≡◌, refl, Bool, true, false, List, Option, none, some, if◌then◌else◌,
  pos, negsuc, ◌-ℤ◌, ltb_ℤ, ltb, leb, ◌&&◌, Keyed, arith, Option-cases, Bool-cases, inl, inr, ◌⊎◌,
  ap, sym, ◌∙◌, ltb→lt, ltb-false→le,
}
use rpyc_async.Prelude.Dict.{get, set_item, pop, get-set_item, get-pop}
use rpyc_async.Colls.Counting.{Slot, add, decref}

-- The references that a slot stands for; no slot stands for none.
abbrev pub refs_of {κ} : {A : Type κ} → Option (Slot A) → ℕ
refs_of none = 0
refs_of (some slot) = elim slot.refcount [ pos n ↦ n | negsuc n ↦ 0 ]

-- A slot that is there counts at least one reference.
abbrev pub IsCounted {κ} : {A : Type κ} → Option (Slot A) → Type 0
IsCounted none = Unit {0}
IsCounted (some slot) = (n : ℕ) × (slot.refcount ≡ pos (suc n))

-- A slot that was found counts the references of its key, and there are some.
counted {κ} :
    {A : Type κ} (o : Option (Slot A)) (slot : Slot A)
    → IsCounted o
    → o ≡ some slot
    → (slot.refcount ≡ pos (refs_of o)) × (0 < refs_of o)
counted none slot v h = cc
counted (some s) slot (n, c) h = ground arith

inc : (n : ℕ) → pos n -ℤ negsuc 0 ≡ pos (suc n)
inc n = ground arith

dec : (n count : ℕ) → count < n → pos n -ℤ pos count ≡ pos (suc (n - count - 1))
dec n count h = ground arith

dec_test : (n count : ℕ) → ltb_ℤ (pos 0) (pos n -ℤ pos count) ≡ ltb count n
dec_test n count = ground arith

module _ {ℓ κ} {K : Type ℓ} ⦃e : Keyed K⦄ {A : Type κ} where
  abbrev pub refs : K → List (K × Slot A) → ℕ
  refs key coll = refs_of (get key coll)

  abbrev pub IsColl : List (K × Slot A) → Type ℓ
  IsColl coll = (key : K) → IsCounted (get key coll)

  -- A key's slot, and what the same key's other spellings find.
  same_slot :
      (key other : K) (coll : List (K × Slot A))
      → e.matches key other ≡ true
      → get other coll ≡ get key coll
  same_slot key other coll h = ap (λ k. get k coll) (sym ((e.matches_iff key other).0 h))

  refs-set_item :
      (key other : K) (slot : Slot A) (n : ℕ) (coll : List (K × Slot A))
      → slot.refcount ≡ pos n
      → refs other (set_item key slot coll) ≡ (if e.matches key other then n else refs other coll)
  refs-set_item key other slot n coll h =
      rw (get-set_item key other slot coll)
        (elim (Bool-cases (e.matches key other)) [ inl hit ↦ rw (hit, h) | inr miss ↦ rw miss ])

  refs-pop :
      (key other : K) (coll : List (K × Slot A))
      → refs other (pop key coll) ≡ (if e.matches key other then 0 else refs other coll)
  refs-pop key other coll =
      rw (get-pop key other coll)
        (elim (Bool-cases (e.matches key other)) [ inl hit ↦ rw hit | inr miss ↦ rw miss ])

  refs-same :
      (key other : K) (coll : List (K × Slot A))
      → e.matches key other ≡ true
      → refs other coll ≡ refs key coll
  refs-same key other coll h = ap refs_of (same_slot key other coll h)

  IsColl-set_item :
      (key : K) (slot : Slot A) (n : ℕ) (coll : List (K × Slot A))
      → slot.refcount ≡ pos (suc n)
      → IsColl coll
      → IsColl (set_item key slot coll)
  IsColl-set_item key slot n coll h v other =
      rw (get-set_item key other slot coll) (elim (Bool-cases (e.matches key other)) [
        | inl hit ↦ rw hit (n, h)
        | inr miss ↦ rw miss (v other)
      ])

  IsColl-pop : (key : K) (coll : List (K × Slot A)) → IsColl coll → IsColl (pop key coll)
  IsColl-pop key coll v other =
      rw (get-pop key other coll) (elim (Bool-cases (e.matches key other)) [
        | inl hit ↦ rw hit tt
        | inr miss ↦ rw miss (v other)
      ])

  abbrev Bumped : K → List (K × Slot A) → A → Slot A → Type κ
  Bumped key coll obj slot =
      (slot.refcount ≡ pos (suc (refs key coll)))
      × ((get key coll ≡ none) × (slot.object ≡ obj)
          ⊎ ((old : Slot A) × (get key coll ≡ some old) × (slot.object ≡ old.object)))

  add-set_item :
      (key : K) (obj : A) (coll : List (K × Slot A))
      → IsColl coll
      → (slot : Slot A) × (add key obj coll ≡ set_item key slot coll) × Bumped key coll obj slot
  unfolding add
  add-set_item key obj coll v = elim (Option-cases (get key coll)) [
    | inl missing ↦ (
      record { object = obj; refcount = pos 1 },
      rw (missing, add),
      (ground (arith, missing), inl (missing, refl)),
    )
    | inr (slot, there) ↦
        let c = counted (get key coll) slot (v key) there in
        (
          record slot { refcount = slot.refcount -ℤ negsuc 0 },
          rw (there, add),
          (ap (λ z. z -ℤ negsuc 0) c.0 ∙ inc (refs key coll), inr (slot, there, refl)),
        )
  ]

  -- `add` counts one reference more to its key and none to any other, in a collection where every
  -- slot counts at least one.
  pub refs-add :
      (key other : K) (obj : A) (coll : List (K × Slot A))
      → IsColl coll
      → refs other (add key obj coll) ≡ refs other coll + (if e.matches key other then 1 else 0)
  refs-add key other obj coll v =
      let (slot, set, bumped) = add-set_item key obj coll v in
      rw set (
        refs-set_item key other slot (suc (refs key coll)) coll bumped.0
        ∙ (elim (Bool-cases (e.matches key other)) [
          | inl hit ↦ rw hit (omega (arith, refs-same key other coll hit))
          | inr miss ↦ rw miss (omega arith)
        ]))

  pub add-IsColl :
      (key : K) (obj : A) (coll : List (K × Slot A)) → IsColl coll → IsColl (add key obj coll)
  add-IsColl key obj coll v =
      let (slot, set, bumped) = add-set_item key obj coll v in
      rw set (IsColl-set_item key slot (refs key coll) coll bumped.0 v)

  -- The three ways in which `decref` ends.
  abbrev Dropped : K → ℕ → List (K × Slot A) → List (K × Slot A) × Bool → Type (ℓ ⊔ κ)
  Dropped key count coll r =
      ((get key coll ≡ none) × (r ≡ (coll, false)))
      ⊎ ((slot : Slot A) × (n : ℕ) × (refs key coll ≡ suc n + count)
          × (slot.refcount ≡ pos (suc n))
          × (r ≡ (set_item key slot coll, false)))
      ⊎ ((0 < refs key coll) × (refs key coll ≤ count) × (r ≡ (pop key coll, true)))

  decref-Dropped :
      (key : K) (count : ℕ) (coll : List (K × Slot A))
      → IsColl coll
      → Dropped key count coll (decref key (pos count) coll)
  unfolding decref
  decref-Dropped key count coll v = elim (Option-cases (get key coll)) [
    | inl missing ↦ inl (missing, rw (missing, decref))
    | inr (slot, there) ↦
        let (c, some_left) = counted (get key coll) slot (v key) there in
        let n = refs key coll in
        let test : ltb_ℤ (pos 0) (slot.refcount -ℤ pos count) ≡ ltb count n =
          ap (λ z. ltb_ℤ (pos 0) (z -ℤ pos count)) c ∙ dec_test n count in
        elim (Bool-cases (ltb count n)) [
          | inl more ↦
              let few = ltb→lt count n more in
              inr (
                inl (
                  record slot { refcount = slot.refcount -ℤ pos count },
                  n - count - 1,
                  omega arith,
                  ap (λ z. z -ℤ pos count) c ∙ dec n count few,
                  rw (there, decref) (rw (test ∙ more)),
                ))
          | inr last ↦
              inr
                (inr (some_left, ltb-false→le count n last, rw (there, decref) (rw (test ∙ last))))
        ]
  ]

  -- `decref` takes `count` references from its key, all of them if it has no more, and none from
  -- another, and says whether the key had references and lost its last; in a collection where
  -- every slot counts at least one.
  pub refs-decref :
      (key other : K) (count : ℕ) (coll : List (K × Slot A))
      → IsColl coll
      → (refs other (decref key (pos count) coll).0
          ≡ refs other coll - (if e.matches key other then count else 0))
        × ((decref key (pos count) coll).1 ≡ (ltb 0 (refs key coll) && leb (refs key coll) count))
  refs-decref key other count coll v = elim (decref-Dropped key count coll v) [
    | inl (missing, r) ↦
        let none_left : refs key coll ≡ 0 = ap refs_of missing in
        rw r (untouched none_left, rw none_left)
    | inr (inl (slot, n, size, c, r)) ↦ rw r (
      refs-set_item key other slot (suc n) coll c ∙ taken (refs-same key other coll) (suc n) size,
      ground (arith, size),
    )
    | inr (inr (some_left, few, r)) ↦
        rw r (refs-pop key other coll ∙ emptied (refs-same key other coll) few, ground arith)
  ]
    where
      untouched :
          refs key coll ≡ 0
          → refs other coll ≡ refs other coll - (if e.matches key other then count else 0)
      untouched h = ground (arith, refs-same key other coll)

      taken :
          (e.matches key other ≡ true → refs other coll ≡ refs key coll)
          → (n : ℕ) → refs key coll ≡ n + count
          → (if e.matches key other then n else refs other coll)
            ≡ refs other coll - (if e.matches key other then count else 0)
      taken same n h = ground arith

      emptied :
          (e.matches key other ≡ true → refs other coll ≡ refs key coll)
          → refs key coll ≤ count
          → (if e.matches key other then 0 else refs other coll)
            ≡ refs other coll - (if e.matches key other then count else 0)
      emptied same h = ground arith

  pub decref-IsColl :
      (key : K) (count : ℕ) (coll : List (K × Slot A))
      → IsColl coll
      → IsColl (decref key (pos count) coll).0
  decref-IsColl key count coll v = elim (decref-Dropped key count coll v) [
    | inl (missing, r) ↦ rw r v
    | inr (inl (slot, n, size, c, r)) ↦ rw r (IsColl-set_item key slot n coll c v)
    | inr (inr (some_left, few, r)) ↦ rw r (IsColl-pop key coll v)
  ]
