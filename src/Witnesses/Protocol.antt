-- ===== src/Witnesses/Protocol.antt =====
-- Attributes, numbers, queued deletions and two connections with a reference between them.
use Prim.Native.String.{String}
use rpyc_async.Prelude.{
  ℕ, ◌≡◌, ◌≢◌, refl, true, false, [], ◌∷◌, ◌++◌, Option, none, ◌==◌, ==_iff, arith, ◌&&◌, ◌⊎◌,
}
use mathlib.Core.Bool.{◌||◌, not}
use rpyc_async.Prelude.Dict.{get}
use rpyc_async.Outcome.{Outcome, ok, raise, attribute_error}
use rpyc_async.Protocol.Attributes
use rpyc_async.Protocol.Attributes.{
  Config, Target, Name, check_attr, startswith, is_in, same, is_plain, has_exposed, is_own,
}
use rpyc_async.Protocol.Objects.{IdPack, pack_key, Heap, fresh_ids, weak_get, alloc_stable_obj_id}
use rpyc_async.Protocol.Objects.Identity
use rpyc_async.Protocol.Boxing.{Conn, local, box, unbox}
use rpyc_async.Protocol.Deletions.{Wake, Loop}
use rpyc_async.Protocol.Link.{Link, is_own as is_local}
use rpyc_async.Protocol.Link.Alive

-- The default configuration, with the prefix `e_`.
abbrev config : Config
config = record {
  permitted = true;
  allow_all_attrs = false;
  allow_exposed_attrs = true;
  allow_safe_attrs = true;
  allow_public_attrs = true;
  exposed_prefix = 101 ∷ 95 ∷ [];
  safe_attrs = (95 ∷ 95 ∷ []) ∷ [];
}

-- An object with the attribute `e__x` only.
abbrev target : Target
unfolding same
target = record {
  is_netref = false;
  hasattr = same (101 ∷ 95 ∷ 95 ∷ 120 ∷ []);
  hasattr_static = same (101 ∷ 95 ∷ 95 ∷ 120 ∷ []);
}

abbrev private_name : Name
private_name = 95 ∷ 120 ∷ []

abbrev served_name : Name
served_name = 101 ∷ 95 ∷ 95 ∷ 120 ∷ []

private_served : check_attr config target private_name ≡ ok (101 ∷ 95 ∷ 95 ∷ 120 ∷ [])
unfolding check_attr has_exposed is_plain
private_served = refl

private_refused : check_attr config target (95 ∷ 121 ∷ []) ≡ raise attribute_error
unfolding check_attr has_exposed is_plain
private_refused = refl

check_attr_cases_example :
    ((check_attr config target private_name ≡ raise attribute_error)
      × ((config.permitted
            && (is_plain config private_name || has_exposed config target private_name))
          ≡ false))
    ⊎ ((check_attr config target private_name ≡ ok private_name)
        × (config.permitted ≡ true)
        × (is_plain config private_name ≡ true)
        × ((has_exposed config target private_name && not (is_own target private_name)) ≡ false))
    ⊎ ((check_attr config target private_name ≡ ok (101 ∷ 95 ∷ 95 ∷ 120 ∷ []))
        × (config.permitted ≡ true)
        × (has_exposed config target private_name ≡ true)
        × ((is_plain config private_name && is_own target private_name) ≡ false))
check_attr_cases_example = Attributes.check_attr_cases config target private_name

check_attr-private_example :
    (served_name ≡ config.exposed_prefix ++ private_name)
    × (has_exposed config target private_name ≡ true)
unfolding startswith is_in
check_attr-private_example =
    Attributes.check_attr-private config target private_name served_name refl refl refl refl
      private_served

-- Plain objects, all of one class.
abbrev heap : Heap
heap = record {
  is_class = λ n. false;
  is_weakrefable = λ n. true;
  is_hashable = λ n. true;
  matches = ◌==◌;
  id = λ n. n;
  type_of = λ n. 1000;
  name_pack = λ n. "m.C";
  id_pack = λ n. none;
  is_coroutine = λ n. false;
}

-- Objects that are all equal.
abbrev alike : Heap
alike = record heap { matches = λ m n. true }

fresh-IsIds : Identity.IsIds heap (fresh_ids 7)
unfolding fresh_ids weak_get get
fresh-IsIds = (λ obj seq h. ground arith, λ obj other seq h k. ground arith)

alloc-distinct_example :
    (alloc_stable_obj_id heap 5 (fresh_ids 7)).0
    ≢ (alloc_stable_obj_id heap 6 (alloc_stable_obj_id heap 5 (fresh_ids 7)).1).0
alloc-distinct_example =
    Identity.alloc-distinct heap (λ obj other h. (==_iff obj other).0 h)
      (λ obj. (==_iff obj obj).1 refl) 5 6 (fresh_ids 7) refl refl fresh-IsIds (omega arith)

abbrev pack : IdPack
pack = record { name_pack = "m.C"; type_id = 1000; obj_id = 30064771073 }

abbrev empty : Conn
empty = record {
  local_objects = [];
  ids = record { weak = []; by_id = []; next = 30064771073 };
  proxy_cache = [];
  netref_classes = [];
  pending = [];
  born = 0;
}

abbrev running : Loop
running = record { is_enabled = true; is_closed = false; is_stopping = false }

abbrev asleep : Wake
asleep = record { available = false; signal_pending = false; timers = 0 }

abbrev builtin : String → Option ℕ
builtin name = none

abbrev inspect : IdPack → Outcome ℕ
inspect p = ok 40

abbrev start : Link
start = record { owner = empty; holder = empty; flight = []; batch = []; deletions = [] }

abbrev shipped : Link
shipped = record start {
  owner = (box heap (local 5) empty).1;
  flight = (box heap (local 5) empty).0 ∷ [];
}

abbrev arrived : Link
arrived = record shipped {
  holder = (unbox builtin inspect none (box heap (local 5) empty).0 empty).1;
  flight = [];
}
