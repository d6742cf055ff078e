-- ===== src/Protocol/Boxing.antt =====
-- `_box`, `_unbox`, `_netref_factory`, `_handle_del` and the end of a proxy.
use Prim.Native.String.{String}
use rpyc_async.Prelude.{
  ℕ, suc, ◌/◌, Bool, true, false, List, [], ◌∷◌, ◌++◌, Option, none, some, ◌==◌, if◌then◌else◌, pos,
}
use mathlib.Core.Bool.{not}
use rpyc_async.Prelude.Dict.{get, set_item, pop}
use rpyc_async.Outcome.{Outcome, ok, raise, out_of_fuel, value_error, ◌>>=◌}
use rpyc_async.Brine.Syntax.{Value, Items, tuple, nil, cons}
use rpyc_async.Colls.Counting.{Slot, add, decref}
use rpyc_async.Protocol.Objects.{IdPack, pack_key, Heap, Ids, stable_id_pack, forget_stable_obj_id}

-- A Python object as boxing tells objects apart: a value that `brine.dumpable` accepts, a tuple, a
-- proxy of this connection (with its identity and its attributes), or any other object.
mutual
  pub data Object : Type 0 where
    atom : Value → Object
    tup : Objects → Object
    netref : ℕ → IdPack → Bool → Object
    local : ℕ → Object

  pub data Objects : Type 0 where
    no_objects : Objects
    and : Object → Objects → Objects

-- A boxed object: a label and what goes with it. A remote reference has its flags, or comes in the
-- format without. `ill_formed` is another label, or a reference of another length.
mutual
  pub data Package : Type 0 where
    by_value : Value → Package
    by_tuple : Packages → Package
    local_ref : IdPack → Package
    remote_ref : IdPack → Option Bool → Package
    ill_formed : Package

  pub data Packages : Type 0 where
    no_packages : Packages
    and_package : Package → Packages → Packages

pub record Proxy : Type 0 where
  pub identity : ℕ
  pub cls : ℕ
  pub refcount : ℕ
  pub is_async : Bool

-- `_local_objects`, the allocator's state, `_proxy_cache`, `_netref_classes_cache` and
-- `_pending_deletions`; `born` numbers the proxies. A proxy is in the cache as long as it lives.
pub record Conn : Type 0 where
  pub local_objects : List (IdPack × Slot Object)
  pub ids : Ids
  pub proxy_cache : List (IdPack × Proxy)
  pub netref_classes : List (IdPack × ℕ)
  pub pending : List (IdPack × ℕ)
  pub born : ℕ

-- The value that a dumpable object is; none for an object that is not dumpable.
unfoldable mutual
  pub as_value : Object → Option Value
  as_value (atom v) = some v
  as_value (tup os) = elim (as_values os) [ some vs ↦ some (tuple vs) | none ↦ none ]
  as_value (netref identity p is_async) = none
  as_value (local n) = none

  pub as_values : Objects → Option Items
  as_values no_objects = some nil
  as_values (and o os) = elim (as_value o) [
    | none ↦ none
    | some v ↦ elim (as_values os) [ some vs ↦ some (cons v vs) | none ↦ none ]
  ]

-- A proxy that is the cached one goes back as the peer's object, another only if no local object has
-- its name.
unfoldable pub box_netref : ℕ → IdPack → Bool → Conn → Package
unfolding get
box_netref identity p is_async c =
    let ours : Package = elim (get p c.local_objects) [
      | some slot ↦ local_ref p
      | none ↦ remote_ref p (some is_async)
    ] in
    elim (get p c.proxy_cache) [
      | some proxy ↦ if proxy.identity == identity then remote_ref p (some is_async) else ours
      | none ↦ ours
    ]

-- A tuple goes by value if it is dumpable; its items are then not boxed.
unfoldable pub box_tuple : Option Items → Packages × Conn → Conn → Package × Conn
box_tuple (some vs) boxed c = (by_value (tuple vs), c)
box_tuple none (ps, c') c = (by_tuple ps, c')

module _ (heap : Heap) where
  unfoldable pub box_local : ℕ → Conn → Package × Conn
  unfolding stable_id_pack add
  box_local n c =
      let (p, ids') = stable_id_pack heap n c.ids in
      (
        remote_ref p (if heap.is_coroutine n then some true else none),
        record c { local_objects = add p (local n) c.local_objects; ids = ids' },
      )

  unfoldable mutual
    unfolding box_local box_tuple box_netref as_values

    pub box : Object → Conn → Package × Conn
    box (atom v) c = (by_value v, c)
    box (tup os) c = box_tuple (as_values os) (box_all os c) c
    box (netref identity p is_async) c = (box_netref identity p is_async c, c)
    box (local n) c = box_local n c

    pub box_all : Objects → Conn → Packages × Conn
    box_all no_objects c = (no_packages, c)
    box_all (and o os) c =
        let (p, c1) = box o c in let (ps, c2) = box_all os c1 in (and_package p ps, c2)

-- `builtin` is `netref.builtin_classes_cache`, `inspect` the peer's answer to HANDLE_INSPECT, made a
-- class; `guard` is our process id where `debug_refcounting` is set.
module _ (builtin : String → Option ℕ) (inspect : IdPack → Outcome ℕ) (guard : Option ℕ) where
  unfoldable pub known_class : IdPack → Conn → Option ℕ
  unfolding get
  known_class p c =
      let by_name = builtin p.name_pack in
      if p.obj_id == 0
      then elim (get p c.netref_classes) [ some cls ↦ some cls | none ↦ by_name ]
      else by_name

  -- `_netref_factory`, up to the call of the class.
  unfoldable pub netref_class : IdPack → Conn → Outcome ℕ × Conn
  unfolding known_class set_item
  netref_class p c = elim (known_class p c) [
    | some cls ↦ (ok cls, c)
    | none ↦ elim (inspect p) [
      | ok cls ↦ (
        ok cls,
        if p.obj_id == 0 then record c { netref_classes = set_item p cls c.netref_classes } else c,
      )
      | raise e ↦ (raise e, c)
      | out_of_fuel ↦ (out_of_fuel, c)
    ]
  ]

  -- A new proxy, with one reference, or what its class raised.
  unfoldable pub add_proxy : IdPack → Bool → Outcome ℕ × Conn → Outcome Object × Conn
  unfolding set_item
  add_proxy p is_async (ok cls, c) = (
    ok (netref c.born p is_async),
    record c {
      proxy_cache =
          set_item p (record { identity = c.born; cls = cls; refcount = 1; is_async = is_async })
            c.proxy_cache;
      born = suc c.born;
    },
  )
  add_proxy p is_async (raise e, c) = (raise e, c)
  add_proxy p is_async (out_of_fuel, c) = (out_of_fuel, c)

  -- The name under which a reference came has a proxy, which counts it, or gets one.
  unfoldable pub unbox_proxy : IdPack → Bool → Conn → Outcome Object × Conn
  unfolding get set_item netref_class add_proxy
  unbox_proxy p is_async c = elim (get p c.proxy_cache) [
    | some proxy ↦ (
      ok (netref proxy.identity p is_async),
      record c {
        proxy_cache =
            set_item p (record proxy { refcount = suc proxy.refcount; is_async = is_async })
              c.proxy_cache;
      },
    )
    | none ↦ add_proxy p is_async (netref_class p c)
  ]

  -- `owner_pid != my_pid`, where the guard is on.
  unfoldable pub is_foreign : IdPack → Bool
  is_foreign p = elim guard [ none ↦ false | some pid ↦ not (p.obj_id / 4294967296 == pid) ]

  unfoldable pub unbox_ref : IdPack → Bool → Conn → Outcome Object × Conn
  unfolding get is_foreign unbox_proxy
  unbox_ref p is_async c = elim (get p c.local_objects) [
    | some slot ↦ (if is_foreign p then raise value_error else ok slot.object, c)
    | none ↦ unbox_proxy p is_async c
  ]

  -- An item that raises ends the tuple; it and the items before it have had their effect.
  unfoldable pub and_items : Outcome Object × Conn → Outcome Objects × Conn → Outcome Objects × Conn
  and_items (ok o, c1) (os, c2) = (os >>= λ os. ok (and o os), c2)
  and_items (raise e, c1) later = (raise e, c1)
  and_items (out_of_fuel, c1) later = (out_of_fuel, c1)

  unfoldable mutual
    unfolding get unbox_ref and_items

    pub unbox : Package → Conn → Outcome Object × Conn
    unbox (by_value v) c = (ok (atom v), c)
    unbox (by_tuple ps) c = let (os, c') = unbox_all ps c in (os >>= λ os. ok (tup os), c')
    unbox (local_ref p) c =
        (elim (get p c.local_objects) [ some slot ↦ ok slot.object | none ↦ raise value_error ], c)
    unbox (remote_ref p none) c = unbox_ref p false c
    unbox (remote_ref p (some is_async)) c = unbox_ref p is_async c
    unbox ill_formed c = (raise value_error, c)

    pub unbox_all : Packages → Conn → Outcome Objects × Conn
    unbox_all no_packages c = (ok no_objects, c)
    unbox_all (and_package p ps) c = and_items (unbox p c) (unbox_all ps (unbox p c).1)

-- `_handle_del`: whether the object was let go.
unfoldable pub handle_del : IdPack → ℕ → Conn → Bool × Conn
unfolding decref forget_stable_obj_id
handle_del p count c =
    let (objects, deleted) = decref p (pos count) c.local_objects in
    (
      deleted,
      record c {
        local_objects = objects;
        ids = if deleted then forget_stable_obj_id p c.ids else c.ids;
      },
    )

-- `BaseNetref.__del__`: the proxy leaves the cache, and its references are queued.
unfoldable pub netref_del : IdPack → Conn → Conn
unfolding get pop
netref_del p c = elim (get p c.proxy_cache) [
  | none ↦ c
  | some proxy ↦ record c {
    proxy_cache = pop p c.proxy_cache;
    pending = c.pending ++ (p, proxy.refcount) ∷ [];
  }
]
