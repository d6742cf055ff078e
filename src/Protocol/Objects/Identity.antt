-- ===== src/Protocol/Objects/Identity.antt =====
-- Which object a number stands for.
use rpyc_async.Prelude.{
  ℕ, suc, ◌<◌, ◌≤◌, true, false, List, ◌∷◌, none, some, ◌≡◌, ◌≢◌, refl, ◌==◌, if◌then◌else◌, ◌&&◌,
  arith, ap, ◌∙◌, sym, subst, Bool-cases, Option-cases, inl, inr, ◌⊎◌, ℕ_eq, ==_iff,
}
use rpyc_async.Prelude.Dict.{get, set_item, get-set_item}
use rpyc_async.Protocol.Objects.{Heap, Ids, weak_get, alloc_by_id, alloc_stable_obj_id}

module _ (heap : Heap) where
  -- The number that the dictionaries keep for an object.
  abbrev pub Owns : Ids → ℕ → ℕ → Type 0
  Owns ids obj seq =
      (weak_get heap obj ids.weak ≡ some seq) ⊎ (get (heap.id obj) ids.by_id ≡ some (obj, seq))

  -- The numbers in use are below the counter, and each stands for one object.
  abbrev pub IsIds : Ids → Type 0
  IsIds ids =
      ((obj seq : ℕ) → Owns ids obj seq → seq < ids.next)
      × ((obj other seq : ℕ) → Owns ids obj seq → Owns ids other seq → obj ≡ other)

  -- A new number for `obj`, and nothing else.
  abbrev Grew : ℕ → ℕ → Ids → Ids → Type 0
  Grew obj seq ids ids' =
      (ids.next ≤ seq)
      × (seq < ids'.next)
      × Owns ids' obj seq
      × ((other old : ℕ) → Owns ids' other old → Owns ids other old ⊎ ((other ≡ obj) × (old ≡ seq)))

  abbrev Kept : ℕ → ℕ → Ids → Ids → Type 0
  Kept obj seq ids ids' =
      Owns ids obj seq × (ids.next ≤ ids'.next) × (ids'.weak ≡ ids.weak) × (ids'.by_id ≡ ids.by_id)

  module _ (one : (obj other : ℕ) → heap.matches obj other ≡ true → obj ≡ other)
      (self : (obj : ℕ) → heap.matches obj obj ≡ true) where
    weak_get-cons :
        (obj other seq : ℕ) (weak : List (ℕ × ℕ)) (old : ℕ)
        → weak_get heap other ((obj, seq) ∷ weak) ≡ some old
        → (weak_get heap other weak ≡ some old) ⊎ ((other ≡ obj) × (old ≡ seq))
    unfolding weak_get
    weak_get-cons obj other seq weak old h = ground (arith, one obj other)

    put_weak :
        (obj : ℕ) (ids : Ids)
        → heap.is_weakrefable obj ≡ true
        → heap.is_hashable obj ≡ true
        → Grew obj ids.next ids
            (record ids { weak = (obj, ids.next) ∷ ids.weak; next = suc ids.next })
    unfolding weak_get
    put_weak obj ids w h = (
      omega arith,
      omega arith,
      inl (rw (w, h, self obj) refl),
      λ other old o. elim o [
        | inl there ↦ elim (weak_get-cons obj other ids.next ids.weak old there) [
          | inl before ↦ inl (inl before)
          | inr new ↦ inr new
        ]
        | inr there ↦ inl (inr there)
      ],
    )

    put_by_id :
        (obj : ℕ) (ids : Ids)
        → Grew obj ids.next ids (record ids {
          by_id = set_item (heap.id obj) (obj, ids.next) ids.by_id;
          next = suc ids.next;
        })
    put_by_id obj ids = (
      omega arith,
      omega arith,
      inr (
          rw (get-set_item (heap.id obj) (heap.id obj) (obj, ids.next) ids.by_id)
            (ground (arith, ==_iff (heap.id obj) (heap.id obj)))),
      λ other old o. elim o [
        | inl there ↦ inl (inl there)
        | inr there ↦
            ground (arith, get-set_item (heap.id obj) (heap.id other) (obj, ids.next) ids.by_id)
      ],
    )

    abbrev Step : ℕ → Ids → ℕ × Ids → Type 0
    Step obj ids r = Kept obj r.0 ids r.1 ⊎ Grew obj r.0 ids r.1

    by_id-new :
        (obj : ℕ) (ids : Ids) (seq : ℕ)
        → (get (heap.id obj) ids.by_id ≡ none)
          ⊎ ((key : ℕ) × (get (heap.id obj) ids.by_id ≡ some (key, seq)) × ((key == obj) ≡ false))
        → alloc_by_id heap obj ids ≡ (
          ids.next,
          record ids {
            by_id = set_item (heap.id obj) (obj, ids.next) ids.by_id;
            next = suc ids.next;
          },
        )
    unfolding alloc_by_id
    by_id-new obj ids seq (inl missing) = rw (missing, alloc_by_id)
    by_id-new obj ids seq (inr (key, there, another)) = rw (there, alloc_by_id) (rw another)

    by_id-old :
        (obj key : ℕ) (ids : Ids) (seq : ℕ)
        → get (heap.id obj) ids.by_id ≡ some (key, seq)
        → (key == obj) ≡ true
        → alloc_by_id heap obj ids ≡ (seq, ids)
    unfolding alloc_by_id
    by_id-old obj key ids seq there own = rw (there, alloc_by_id) (rw own)

    by_id-Step : (obj : ℕ) (ids : Ids) → Step obj ids (alloc_by_id heap obj ids)
    by_id-Step obj ids = elim (Option-cases (get (heap.id obj) ids.by_id)) [
      | inl missing ↦ rw (by_id-new obj ids 0 (inl missing)) (inr (put_by_id obj ids))
      | inr ((key, seq), there) ↦ elim (Bool-cases (key == obj)) [
        | inl own ↦ rw (by_id-old obj key ids seq there own) (
            inl (
              inr (there ∙ ap (λ k. some (k, seq)) ((==_iff key obj).0 own)),
              omega arith,
              refl,
              refl,
            ))
        | inr another ↦
            rw (by_id-new obj ids seq (inr (key, there, another))) (inr (put_by_id obj ids))
      ]
    ]

    later :
        (obj : ℕ) (ids : Ids) (r : ℕ × Ids)
        → Step obj (record ids { next = suc ids.next }) r
        → Step obj ids r
    later obj ids r (inl (own, n, w, b)) = inl (own, omega (arith, n), w, b)
    later obj ids r (inr (n, m, own, old)) = inr (omega (arith, n), m, own, old)

    seen :
        (obj seq : ℕ) (ids : Ids) → weak_get heap obj ids.weak ≡ some seq → Step obj ids (seq, ids)
    seen obj seq ids h = inl (inl h, omega arith, refl, refl)

    alloc-seen :
        (obj seq : ℕ) (ids : Ids)
        → heap.is_class obj ≡ false
        → weak_get heap obj ids.weak ≡ some seq
        → alloc_stable_obj_id heap obj ids ≡ (seq, ids)
    unfolding alloc_stable_obj_id
    alloc-seen obj seq ids c h = rw (c, h)

    alloc-unseen :
        (obj : ℕ) (ids : Ids)
        → heap.is_class obj ≡ false
        → weak_get heap obj ids.weak ≡ none
        → alloc_stable_obj_id heap obj ids ≡ (
            if heap.is_weakrefable obj
            then (if heap.is_hashable obj
                then (
                  ids.next,
                  record ids { weak = (obj, ids.next) ∷ ids.weak; next = suc ids.next },
                )
                else alloc_by_id heap obj (record ids { next = suc ids.next }))
            else alloc_by_id heap obj ids)
    unfolding alloc_stable_obj_id
    alloc-unseen obj ids c h = rw (c, h)

    alloc-Step :
        (obj : ℕ) (ids : Ids)
        → heap.is_class obj ≡ false
        → Step obj ids (alloc_stable_obj_id heap obj ids)
    alloc-Step obj ids c = elim (Option-cases (weak_get heap obj ids.weak)) [
      | inr (seq, there) ↦ rw (alloc-seen obj seq ids c there) (seen obj seq ids there)
      | inl missing ↦
          rw (alloc-unseen obj ids c missing) (elim (Bool-cases (heap.is_weakrefable obj)) [
            | inl weak ↦ elim (Bool-cases (heap.is_hashable obj)) [
              | inl hash ↦ rw (weak, hash) (inr (put_weak obj ids weak hash))
              | inr unhash ↦
                  rw (weak, unhash)
                    (later obj ids (alloc_by_id heap obj (record ids { next = suc ids.next }))
                      (by_id-Step obj (record ids { next = suc ids.next })))
            ]
            | inr strong ↦ rw strong (by_id-Step obj ids)
          ])
    ]

    owned : (obj : ℕ) (ids : Ids) (r : ℕ × Ids) → Step obj ids r → Owns r.1 obj r.0
    owned obj ids (seq, ids') (inl (own, n, w, b)) = rw (w, b) own
    owned obj ids (seq, ids') (inr (n, m, own, old)) = own

    IsIds-Step : (obj : ℕ) (ids : Ids) (r : ℕ × Ids) → IsIds ids → Step obj ids r → IsIds r.1
    IsIds-Step obj ids (seq, ids') (below, unique) (inl (own, n, w, b)) =
        rw (w, b) (λ o s h. omega (arith, n, below o s h), unique)
    IsIds-Step obj ids (seq, ids') (below, unique) (inr (n, m, own, old)) = (
      λ o s h. elim (old o s h) [
        | inl before ↦ omega (arith, n, m, below o s before)
        | inr (same, new) ↦ omega (arith, m, new)
      ],
      λ o p s h k. elim (old o s h) [
        | inl before ↦ elim (old p s k) [
          | inl before' ↦ unique o p s before before'
          | inr (same, new) ↦ ground (arith, below o s before)
        ]
        | inr (same, new) ↦ elim (old p s k) [
          | inl before' ↦ ground (arith, below p s before')
          | inr (same', new') ↦ cc
        ]
      ],
    )

    -- The allocator keeps the numbers apart.
    pub alloc-IsIds :
        (obj : ℕ) (ids : Ids)
        → heap.is_class obj ≡ false
        → IsIds ids
        → IsIds (alloc_stable_obj_id heap obj ids).1
    alloc-IsIds obj ids c v =
        IsIds-Step obj ids (alloc_stable_obj_id heap obj ids) v (alloc-Step obj ids c)

    -- Two objects that are no classes get two numbers from a state whose numbers are below the
    -- counter and stand for one object each, if dictionaries tell any two objects apart and know
    -- every object again.
    pub alloc-distinct :
        (obj other : ℕ) (ids : Ids)
        → heap.is_class obj ≡ false
        → heap.is_class other ≡ false
        → IsIds ids
        → obj ≢ other
        → (alloc_stable_obj_id heap obj ids).0
          ≢ (alloc_stable_obj_id heap other (alloc_stable_obj_id heap obj ids).1).0
    alloc-distinct obj other ids c d v ne same =
        let r = alloc_stable_obj_id heap obj ids in
        let r' = alloc_stable_obj_id heap other r.1 in
        let (below, unique) = alloc-IsIds obj ids c v in
        let first = owned obj ids r (alloc-Step obj ids c) in
        elim (alloc-Step other r.1 d) [
          | inl kept ↦
              ne (unique obj other r.0 first (subst (λ t. Owns r.1 other t) (sym same) kept.0))
          | inr grew ↦ ground (arith, below obj r.0 first)
        ]

  -- Two objects with weak references and a hash that a dictionary takes for one key get one
  -- number, though they are not one object.
  pub alloc-equal :
      (obj other : ℕ) (ids : Ids)
      → heap.matches obj other ≡ true
      → heap.is_class obj ≡ false
      → heap.is_class other ≡ false
      → (heap.is_weakrefable obj && heap.is_hashable obj) ≡ true
      → (heap.is_weakrefable other && heap.is_hashable other) ≡ true
      → weak_get heap obj ids.weak ≡ none
      → alloc_stable_obj_id heap other (alloc_stable_obj_id heap obj ids).1
        ≡ alloc_stable_obj_id heap obj ids
  unfolding alloc_stable_obj_id weak_get
  alloc-equal obj other ids same c d w v new = rw (c, new) (ground arith)
