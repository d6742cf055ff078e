-- ===== src/Protocol/Link.antt =====
-- Two connections and what is under way between them: the life of the references to its own
-- objects that one side, the owner, has given to the other, the holder, while neither side is closed.
-- Each side is the owner of its own objects. Proxies that the owner sends back are left out.
pub mod Counts
pub mod Alive
use Prim.Native.String.{String}
use rpyc_async.Prelude.{
  ℕ, suc, ◌+◌, ◌-◌, ◌≤◌, ◌<◌, Bool, ◌&&◌, true, false, List, [], ◌∷◌, ◌++◌, Option, none, some, ◌≡◌,
  refl, arith, if◌then◌else◌, Bool-cases, Option-cases, inl, inr, ◌⊎◌, Keyed, pos, leb, ltb,
}
use rpyc_async.Prelude.Dict.{get, set_item, pop, get-set_item, get-pop}
use rpyc_async.Outcome.{Outcome, ok, raise, out_of_fuel}
use rpyc_async.Colls.Counting.{Slot, add, decref}
use rpyc_async.Colls.Balance.{
  refs, refs_of, IsColl, refs-add, refs-decref, add-IsColl, decref-IsColl,
}
use rpyc_async.Protocol.Objects.{IdPack, pack_key, same_pack, same_pack_iff, Heap, stable_id_pack}
use rpyc_async.Protocol.Boxing.{
  Object, Objects, atom, tup, no_objects, and, as_values, netref, local, box, box_all, Package,
  Packages, no_packages, and_package, unbox_all, remote_ref, local_ref, by_value, by_tuple,
  ill_formed, Proxy, Conn, box_local, box_netref, unbox, unbox_ref, unbox_proxy, netref_class,
  is_foreign, handle_del, netref_del,
}
use rpyc_async.Protocol.Deletions.{group, collect, send_next, total, total-append, total-group}

-- `flight` are references on the way to the holder, `batch` a batch that the holder's cleanup has
-- begun, `deletions` HANDLE_DEL requests on the way to the owner.
pub record Link : Type 0 where
  pub owner : Conn
  pub holder : Conn
  pub flight : List Package
  pub batch : List (IdPack × ℕ)
  pub deletions : List (IdPack × ℕ)

-- The object has no proxy of this connection in it.
unfoldable mutual
  pub is_own : Object → Bool
  is_own (atom v) = true
  is_own (tup os) = are_own os
  is_own (netref identity p is_async) = false
  is_own (local n) = true

  pub are_own : Objects → Bool
  are_own no_objects = true
  are_own (and o os) = is_own o && are_own os

-- The request that a turn of the cleanup sends, if it sends one.
abbrev pub sent : Option (IdPack × ℕ) → List (IdPack × ℕ)
sent none = []
sent (some request) = request ∷ []

module _ (heap : Heap) (builtin : String → Option ℕ) (inspect : IdPack → Outcome ℕ)
    (guard : Option ℕ) where
  -- The owner boxes an object of its own, which may be a tuple, the holder unboxes a package, in
  -- whatever order, since tasks of the event loop unbox the arguments of requests, one of its proxies
  -- ends, its cleanup begins a batch or takes a turn, and the owner handles the next HANDLE_DEL.
  pub data Step (l : Link) : Link → Type 0 where
    ship :
        (obj : Object)
        → is_own obj ≡ true
        → Step l (record l {
          owner = (box heap obj l.owner).1;
          flight = l.flight ++ (box heap obj l.owner).0 ∷ [];
        })
    arrive :
        (pkg : Package) (before rest : List Package)
        → l.flight ≡ before ++ pkg ∷ rest
        → Step l (record l {
          holder = (unbox builtin inspect guard pkg l.holder).1;
          flight = before ++ rest;
        })
    drop : (p : IdPack) → Step l (record l { holder = netref_del p l.holder })
    begin :
        (closed : Bool)
        → l.batch ≡ []
        → Step l
            (record l { holder = (collect closed l.holder).1; batch = (collect closed l.holder).0 })
    turn : Step l (record l {
      batch = (send_next l.batch l.holder).1;
      deletions = l.deletions ++ sent (send_next l.batch l.holder).0;
    })
    handle :
        (p : IdPack) (count : ℕ) (rest : List (IdPack × ℕ))
        → l.deletions ≡ (p, count) ∷ rest
        → Step l (record l { owner = (handle_del p count l.owner).1; deletions = rest })

  pub data Reachable (start : Link) : Link → Type 0 where
    at_start : Reachable start start
    then_step : {l l' : Link} → Reachable start l → Step l l' → Reachable start l'

-- The references to a name that a package carries.
abbrev mutual
  pub carried : IdPack → Package → ℕ
  carried p (by_value v) = 0
  carried p (by_tuple ps) = carried_all p ps
  carried p (local_ref q) = 0
  carried p (remote_ref q flags) = if same_pack q p then 1 else 0
  carried p ill_formed = 0

  pub carried_all : IdPack → Packages → ℕ
  carried_all p no_packages = 0
  carried_all p (and_package pkg ps) = carried p pkg + carried_all p ps

abbrev pub under_way : IdPack → List Package → ℕ
under_way p [] = 0
under_way p (pkg ∷ flight) = carried p pkg + under_way p flight

abbrev pub proxy_refs : Option Proxy → ℕ
proxy_refs none = 0
proxy_refs (some proxy) = proxy.refcount

-- The references that the holder has, has let go or is about to get.
abbrev pub held : IdPack → Link → ℕ
held p l =
    under_way p l.flight
    + proxy_refs (get p l.holder.proxy_cache)
    + total p l.holder.pending
    + total p l.batch
    + total p l.deletions

-- Every proxy counts a reference.
abbrev pub Counts : Conn → Type 0
Counts c = (p : IdPack) (proxy : Proxy) → get p c.proxy_cache ≡ some proxy → 0 < proxy.refcount

-- The owner counts no fewer references than the holder has.
abbrev pub IsLink : Link → Type 0
IsLink l =
    IsColl l.owner.local_objects
    × Counts l.holder
    × ((p : IdPack) → held p l ≤ refs p l.owner.local_objects)
