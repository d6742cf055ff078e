-- ===== src/Protocol/Link/Counts.antt =====
-- What each operation does to the references that it moves.
use Prim.Native.String.{String}
use rpyc_async.Prelude.{
  ℕ, suc, ◌+◌, ◌≤◌, Bool, true, false, Option, none, some, ◌≡◌, refl, arith, if◌then◌else◌,
  Bool-cases, Option-cases, inl, inr, ap, sym, ◌∙◌, subst,
}
use rpyc_async.Prelude.Dict.{get, set_item, get-set_item}
use rpyc_async.Outcome.{Outcome, ok, raise, out_of_fuel}
use rpyc_async.Colls.Balance.{refs, IsColl, refs-add, add-IsColl}
use rpyc_async.Protocol.Objects.{IdPack, pack_key, same_pack, same_pack_iff, Heap, stable_id_pack}
use rpyc_async.Brine.Syntax.{Items}
use rpyc_async.Protocol.Boxing.{
  add_proxy, box_tuple, and_items, Object, Objects, atom, tup, no_objects, and, as_values, netref,
  local, box, box_all, Package, Packages, no_packages, and_package, unbox_all, remote_ref,
  local_ref, by_value, by_tuple, ill_formed, Proxy, Conn, box_local, unbox, unbox_ref, unbox_proxy,
  netref_class,
}
use rpyc_async.Protocol.Link.{carried, carried_all, is_own, are_own, proxy_refs, Counts}

module _ (heap : Heap) where
  -- Boxing counts each reference that it sends.
  abbrev pub Sent : Conn → Conn → (IdPack → ℕ) → Type 0
  Sent c c' load =
      IsColl c'.local_objects
      × ((p : IdPack) → refs p c'.local_objects ≡ refs p c.local_objects + load p)

  box_local-Sent :
      (n : ℕ) (c : Conn)
      → IsColl c.local_objects
      → Sent c (box_local heap n c).1 (λ p. carried p (box_local heap n c).0)
  unfolding box_local
  box_local-Sent n c v =
      let q = (stable_id_pack heap n c.ids).0 in
      (add-IsColl q (local n) c.local_objects v, λ p. refs-add q p (local n) c.local_objects v)

  box_tuple-Sent :
      (o : Option Items) (r : Packages × Conn) (c : Conn)
      → IsColl c.local_objects
      → Sent c r.1 (λ p. carried_all p r.0)
      → Sent c (box_tuple o r c).1 (λ p. carried p (box_tuple o r c).0)
  unfolding box_tuple
  box_tuple-Sent (some vs) r c coll sent = (coll, λ p. omega arith)
  box_tuple-Sent none (ps, c') c coll sent = sent

  mutual
    unfolding box is_own

    pub box-Sent :
        (obj : Object) (c : Conn)
        → is_own obj ≡ true
        → IsColl c.local_objects
        → Sent c (box heap obj c).1 (λ p. carried p (box heap obj c).0)
    box-Sent (atom v) c own coll = (coll, λ p. omega arith)
    box-Sent (tup os) c own coll =
        box_tuple-Sent (as_values os) (box_all heap os c) c coll (box_all-Sent os c own coll)
    box-Sent (netref identity p is_async) c own coll = cc
    box-Sent (local n) c own coll = box_local-Sent n c coll

    box_all-Sent :
        (os : Objects) (c : Conn)
        → are_own os ≡ true
        → IsColl c.local_objects
        → Sent c (box_all heap os c).1 (λ p. carried_all p (box_all heap os c).0)
    box_all-Sent no_objects c own coll = (coll, λ p. omega arith)
    box_all-Sent (and o os) c own coll =
        let (pkg, c1) = box heap o c in
        let (coll1, sent1) = box-Sent o c (ground (arith, own)) coll in
        let (coll2, sent2) = box_all-Sent os (box heap o c).1 (ground (arith, own)) coll1 in
        (coll2, λ p. omega (arith, sent1 p, sent2 p))

module _ (builtin : String → Option ℕ) (inspect : IdPack → Outcome ℕ) (guard : Option ℕ) where
  -- Unboxing counts at most the references that came, and touches no queue.
  abbrev pub Took : Conn → Conn → (IdPack → ℕ) → Type 0
  Took c c' load =
      (Counts c → Counts c')
      × (c'.pending ≡ c.pending)
      × ((p : IdPack)
          → proxy_refs (get p c'.proxy_cache) ≤ proxy_refs (get p c.proxy_cache) + load p)

  kept :
      (c c' : Conn)
      → c'.proxy_cache ≡ c.proxy_cache
      → c'.pending ≡ c.pending
      → (load : IdPack → ℕ) → Took c c' load
  kept c c' e f load = (
    λ v p proxy h. v p proxy (ap (get p) (sym e) ∙ h),
    f,
    λ p. omega (arith, ap (λ d. proxy_refs (get p d)) e),
  )

  cached :
      (q : IdPack) (proxy : Proxy) (c c' : Conn)
      → c'.proxy_cache ≡ set_item q proxy c.proxy_cache
      → c'.pending ≡ c.pending
      → (proxy.refcount ≡ suc (proxy_refs (get q c.proxy_cache)))
      → Took c c' (λ p. if same_pack q p then 1 else 0)
  cached q proxy c c' e f n =
      let found : (p : IdPack)
          → get p c'.proxy_cache ≡ (if same_pack q p then some proxy else get p c.proxy_cache) =
        λ p. ap (get p) e ∙ get-set_item q p proxy c.proxy_cache in
      (
        λ v p other h. ground (arith, found p, v p other),
        f,
        λ p. elim (Bool-cases (same_pack q p)) [
          | inl hit ↦
              let same : q ≡ p = (same_pack_iff q p).0 hit in
              rw (found p, hit) (omega (arith, n, ap (λ k. proxy_refs (get k c.proxy_cache)) same))
          | inr miss ↦ rw (found p, miss) (omega arith)
        ],
      )

  netref_class-kept :
      (q : IdPack) (c : Conn)
      → ((netref_class builtin inspect guard q c).1.proxy_cache ≡ c.proxy_cache)
        × ((netref_class builtin inspect guard q c).1.pending ≡ c.pending)
  unfolding netref_class
  netref_class-kept q c = ground arith

  abbrev one : IdPack → IdPack → ℕ
  one q p = if same_pack q p then 1 else 0

  add_proxy-Took :
      (q : IdPack) (is_async : Bool) (c : Conn) (r : Outcome ℕ × Conn)
      → get q c.proxy_cache ≡ none
      → r.1.proxy_cache ≡ c.proxy_cache
      → r.1.pending ≡ c.pending
      → Took c (add_proxy builtin inspect guard q is_async r).1 (one q)
  unfolding add_proxy
  add_proxy-Took q is_async c (ok cls, c') missing e f =
      cached q (record { identity = c'.born; cls = cls; refcount = 1; is_async = is_async }) c
        (add_proxy builtin inspect guard q is_async (ok cls, c')).1
        (ap
          (set_item q (record { identity = c'.born; cls = cls; refcount = 1; is_async = is_async }))
          e)
        f (ground (arith, ap proxy_refs missing))
  add_proxy-Took q is_async c (raise e, c') missing k f = kept c c' k f (one q)
  add_proxy-Took q is_async c (out_of_fuel, c') missing k f = kept c c' k f (one q)

  unbox_proxy-old :
      (q : IdPack) (is_async : Bool) (c : Conn) (proxy : Proxy)
      → get q c.proxy_cache ≡ some proxy
      → unbox_proxy builtin inspect guard q is_async c ≡ (
        ok (netref proxy.identity q is_async),
        record c {
          proxy_cache =
              set_item q
                (record proxy { refcount = suc proxy.refcount; is_async = is_async })
                c.proxy_cache;
        },
      )
  unfolding unbox_proxy
  unbox_proxy-old q is_async c proxy there = rw (there, unbox_proxy)

  unbox_proxy-new :
      (q : IdPack) (is_async : Bool) (c : Conn)
      → get q c.proxy_cache ≡ none
      → unbox_proxy builtin inspect guard q is_async c
        ≡ add_proxy builtin inspect guard q is_async (netref_class builtin inspect guard q c)
  unfolding unbox_proxy
  unbox_proxy-new q is_async c missing = rw (missing, unbox_proxy)

  unbox_proxy-Took :
      (q : IdPack) (is_async : Bool) (c : Conn)
      → Took c (unbox_proxy builtin inspect guard q is_async c).1 (one q)
  unbox_proxy-Took q is_async c = elim (Option-cases (get q c.proxy_cache)) [
    | inr (proxy, there) ↦
        subst (λ r. Took c r.1 (one q)) (sym (unbox_proxy-old q is_async c proxy there))
          (cached q (record proxy { refcount = suc proxy.refcount; is_async = is_async }) c
            (record c {
              proxy_cache =
                  set_item q (record proxy { refcount = suc proxy.refcount; is_async = is_async })
                    c.proxy_cache;
            })
            refl refl (ap suc (sym (ap proxy_refs there))))
    | inl missing ↦
        let (e, f) = netref_class-kept q c in
        subst (λ r. Took c r.1 (one q)) (sym (unbox_proxy-new q is_async c missing))
          (add_proxy-Took q is_async c (netref_class builtin inspect guard q c) missing e f)
  ]

  unbox_ref-Took :
      (q : IdPack) (is_async : Bool) (c : Conn)
      → Took c (unbox_ref builtin inspect guard q is_async c).1 (one q)
  unfolding unbox_ref
  unbox_ref-Took q is_async c = elim (Option-cases (get q c.local_objects)) [
    | inr (slot, there) ↦ rw (there, unbox_ref) (kept c c refl refl (one q))
    | inl missing ↦ rw (missing, unbox_ref) (unbox_proxy-Took q is_async c)
  ]

  compose :
      (c c1 c2 : Conn) (load1 load2 : IdPack → ℕ)
      → Took c c1 load1
      → Took c1 c2 load2
      → Took c c2 (λ p. load1 p + load2 p)
  compose c c1 c2 load1 load2 (k1, f1, t1) (k2, f2, t2) =
      (λ v. k2 (k1 v), f2 ∙ f1, λ p. omega (arith, t1 p, t2 p))

  more :
      (c c' : Conn) (load load' : IdPack → ℕ)
      → ((p : IdPack) → load p ≤ load' p)
      → Took c c' load
      → Took c c' load'
  more c c' load load' le (k, f, t) = (k, f, λ p. omega (arith, le p, t p))

  and_items-Took :
      (c : Conn) (r : Outcome Object × Conn) (later : Outcome Objects × Conn)
      (load load' : IdPack → ℕ)
      → Took c r.1 load
      → Took r.1 later.1 load'
      → Took c (and_items builtin inspect guard r later).1 (λ p. load p + load' p)
  unfolding and_items
  and_items-Took c (ok o, c1) (os, c2) load load' t t' = compose c c1 c2 load load' t t'
  and_items-Took c (raise e, c1) later load load' t t' =
      more c c1 load (λ p. load p + load' p) (λ p. omega arith) t
  and_items-Took c (out_of_fuel, c1) later load load' t t' =
      more c c1 load (λ p. load p + load' p) (λ p. omega arith) t

  mutual
    unfolding unbox

    pub unbox-Took :
        (pkg : Package) (c : Conn)
        → Took c (unbox builtin inspect guard pkg c).1 (λ p. carried p pkg)
    unbox-Took (by_value v) c = kept c c refl refl (λ p. 0)
    unbox-Took (by_tuple ps) c = unbox_all-Took ps c
    unbox-Took (local_ref q) c = kept c c refl refl (λ p. 0)
    unbox-Took (remote_ref q none) c = unbox_ref-Took q false c
    unbox-Took (remote_ref q (some is_async)) c = unbox_ref-Took q is_async c
    unbox-Took ill_formed c = kept c c refl refl (λ p. 0)

    pub unbox_all-Took :
        (ps : Packages) (c : Conn)
        → Took c (unbox_all builtin inspect guard ps c).1 (λ p. carried_all p ps)
    unbox_all-Took no_packages c = kept c c refl refl (λ p. 0)
    unbox_all-Took (and_package pkg ps) c =
        and_items-Took c (unbox builtin inspect guard pkg c)
          (unbox_all builtin inspect guard ps (unbox builtin inspect guard pkg c).1)
          (λ p. carried p pkg) (λ p. carried_all p ps) (unbox-Took pkg c)
          (unbox_all-Took ps (unbox builtin inspect guard pkg c).1)
