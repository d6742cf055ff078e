-- ===== src/Protocol/Link/Alive.antt =====
-- The owner keeps what the holder refers to.
use Prim.Native.String.{String}
use rpyc_async.Prelude.{
  ℕ, ◌+◌, ◌-◌, ◌≤◌, Bool, true, false, List, [], ◌∷◌, ◌++◌, Option, ◌≡◌, refl, arith, if◌then◌else◌,
  Bool-cases, Option-cases, inl, inr, ap,
}
use rpyc_async.Prelude.Dict.{get, get-pop}
use rpyc_async.Outcome.{Outcome}
use rpyc_async.Colls.Balance.{refs, IsColl, refs-decref, decref-IsColl}
use rpyc_async.Protocol.Objects.{IdPack, pack_key, same_pack, same_pack_iff, Heap}
use rpyc_async.Protocol.Boxing.{Package, Conn, box, handle_del, netref_del}
use rpyc_async.Protocol.Deletions.{collect, send_next, total, total-append, total-group}
use rpyc_async.Protocol.Link.{
  Link, carried, sent, Step, ship, arrive, drop, begin, turn, handle, Reachable, at_start,
  then_step, under_way, proxy_refs, Counts, IsLink,
}
use rpyc_async.Protocol.Link.Counts.{box-Sent, unbox-Took}

under_way-append :
    (p : IdPack) (flight : List Package) (pkg : Package)
    → under_way p (flight ++ pkg ∷ []) ≡ under_way p flight + carried p pkg
under_way-append p [] pkg = omega arith
under_way-append p (other ∷ flight) pkg = omega (arith, under_way-append p flight pkg)

-- The end of a proxy moves its references to the queue.
netref_del-same :
    (p q : IdPack) (c : Conn)
    → (proxy_refs (get q (netref_del p c).proxy_cache) + total q (netref_del p c).pending)
      ≡ proxy_refs (get q c.proxy_cache) + total q c.pending
unfolding netref_del
netref_del-same p q c = elim (Option-cases (get p c.proxy_cache)) [
  | inl missing ↦ rw (missing, netref_del) refl
  | inr (proxy, there) ↦
      rw (there, netref_del)
        (elim (Bool-cases (same_pack p q)) [
          | inl hit ↦
              let same : p ≡ q = (same_pack_iff p q).0 hit in
              rw (get-pop p q c.proxy_cache, hit)
                (omega (
                  arith,
                  total-append q c.pending ((p, proxy.refcount) ∷ []),
                  ap (λ k. if same_pack p k then proxy.refcount else 0) same,
                  ap (λ b. if b then proxy.refcount else 0) hit,
                  ap (λ k. proxy_refs (get k c.proxy_cache)) same,
                  ap proxy_refs there,
                ))
          | inr miss ↦
              rw (get-pop p q c.proxy_cache, miss)
                (omega (
                  arith,
                  total-append q c.pending ((p, proxy.refcount) ∷ []),
                  ap (λ b. if b then proxy.refcount else 0) miss,
                ))
        ])
]

under_way-parts :
    (q : IdPack) (before rest : List Package)
    → under_way q (before ++ rest) ≡ under_way q before + under_way q rest
under_way-parts q [] rest = omega arith
under_way-parts q (pkg ∷ before) rest = omega (arith, under_way-parts q before rest)

netref_del-Counts : (p : IdPack) (c : Conn) → Counts c → Counts (netref_del p c)
unfolding netref_del
netref_del-Counts p c v q proxy = elim (Option-cases (get p c.proxy_cache)) [
  | inl missing ↦ rw (missing, netref_del) (v q proxy)
  | inr (old, there) ↦
      rw (there, netref_del)
        (rw (get-pop p q c.proxy_cache) (elim (Bool-cases (same_pack p q)) [
          | inl hit ↦ rw hit (λ h. cc)
          | inr miss ↦ rw miss (v q proxy)
        ]))
]

collect-le :
    (closed : Bool) (q : IdPack) (c : Conn)
    → total q (collect closed c).0 + total q (collect closed c).1.pending ≤ total q c.pending
unfolding collect
collect-le true q c = omega arith
collect-le false q c = omega (arith, total-group q c.pending)

send_next-le :
    (q : IdPack) (batch : List (IdPack × ℕ)) (c : Conn)
    → total q (send_next batch c).1 + total q (sent (send_next batch c).0) ≤ total q batch
unfolding send_next
send_next-le q [] c = omega arith
send_next-le q ((p, n) ∷ batch) c = elim (Option-cases (get p c.proxy_cache)) [
  | inl missing ↦ rw (missing, send_next) (omega arith)
  | inr (proxy, there) ↦ rw (there, send_next) (omega arith)
]

handle_del-refs :
    (p q : IdPack) (count : ℕ) (c : Conn)
    → IsColl c.local_objects
    → IsColl (handle_del p count c).1.local_objects
      × (refs q (handle_del p count c).1.local_objects
          ≡ refs q c.local_objects - (if same_pack p q then count else 0))
unfolding handle_del
handle_del-refs p q count c v =
    (decref-IsColl p count c.local_objects v, (refs-decref p q count c.local_objects v).0)

module _ (heap : Heap) (builtin : String → Option ℕ) (inspect : IdPack → Outcome ℕ)
    (guard : Option ℕ) where
  IsLink-Step : {l l' : Link} → Step heap builtin inspect guard l l' → IsLink l → IsLink l'
  unfolding collect
  IsLink-Step {l} (ship obj own) (coll, counts, le) =
      let (coll', grew) = box-Sent heap obj l.owner own coll in
      (
        coll',
        counts,
        λ q. omega (arith, le q, grew q, under_way-append q l.flight (box heap obj l.owner).0),
      )
  IsLink-Step {l} (arrive pkg before rest e) (coll, counts, le) =
      let (keep, same, took) = unbox-Took builtin inspect guard pkg l.holder in
      (
        coll,
        keep counts,
        λ q. omega (
          arith,
          le q,
          took q,
          ap (under_way q) e,
          ap (total q) same,
          under_way-parts q before (pkg ∷ rest),
          under_way-parts q before rest,
        ),
      )
  IsLink-Step {l} (drop p) (coll, counts, le) = (
    coll,
    netref_del-Counts p l.holder counts,
    λ q. omega (arith, le q, netref_del-same p q l.holder),
  )
  IsLink-Step {l} (begin closed e) (coll, counts, le) =
      (coll, counts, λ q. omega (arith, le q, collect-le closed q l.holder, ap (total q) e))
  IsLink-Step {l} turn (coll, counts, le) = (
    coll,
    counts,
    λ q. omega (
      arith,
      le q,
      send_next-le q l.batch l.holder,
      total-append q l.deletions (sent (send_next l.batch l.holder).0),
    ),
  )
  IsLink-Step {l} (handle p count rest e) (coll, counts, le) = (
    (handle_del-refs p p count l.owner coll).0,
    counts,
    λ q. omega (arith, le q, (handle_del-refs p q count l.owner coll).1, ap (total q) e),
  )

  pub IsLink-Reachable :
      {start l : Link} → IsLink start → Reachable heap builtin inspect guard start l → IsLink l
  IsLink-Reachable v at_start = v
  IsLink-Reachable v (then_step before step) = IsLink-Step step (IsLink-Reachable v before)
