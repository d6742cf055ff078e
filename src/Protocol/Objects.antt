-- ===== src/Protocol/Objects.antt =====
-- `_alloc_stable_obj_id`, `_stable_id_pack` and `_forget_stable_obj_id`: the names under which a
-- connection's own objects travel. An object is a number; it stays the same object for ever, while
-- its address `id(obj)` may be another's when it is gone.
pub mod Identity
use Prim.Native.String.{String}
use rpyc_async.Prelude.{
  ℕ, suc, ◌+◌, ◌*◌, ◌^◌, Bool, true, false, List, [], ◌∷◌, Option, none, some, ◌≡◌, refl, ◌==◌,
  if◌then◌else◌, ◌&&◌, arith, Keyed, ==_iff, ap, string_eq, ◌↔◌, ℕ_eq,
}
use rpyc_async.Prelude.Dict.{get, set_item, pop}

-- `(name_pack, type_id, obj_id)`
pub record IdPack : Type 0 where
  pub name_pack : String
  pub type_id : ℕ
  pub obj_id : ℕ

abbrev pub same_pack : IdPack → IdPack → Bool
same_pack p q =
    string_eq.matches p.name_pack q.name_pack && (p.type_id == q.type_id && (p.obj_id == q.obj_id))

pub same_pack_iff : (p q : IdPack) → (same_pack p q ≡ true) ↔ (p ≡ q)
same_pack_iff p q = ground (arith, string_eq.matches_iff p.name_pack q.name_pack)

instance abbrev pub pack_key : Keyed IdPack
pack_key = record { matches = same_pack; matches_iff = same_pack_iff }

-- What the code asks of a local object. `matches` is how a dictionary compares two keys: they are
-- one object, or have one hash and are equal by `==`. `name_pack` is the dotted name that
-- `_stable_id_pack` builds, for a module, a class and any other object; `id_pack` is the attribute
-- `____id_pack__`.
pub record Heap : Type 0 where
  pub is_class : ℕ → Bool
  pub is_weakrefable : ℕ → Bool
  pub is_hashable : ℕ → Bool
  pub matches : ℕ → ℕ → Bool
  pub id : ℕ → ℕ
  pub type_of : ℕ → ℕ
  pub name_pack : ℕ → String
  pub id_pack : ℕ → Option IdPack
  pub is_coroutine : ℕ → Bool

-- `_obj_to_seq_weak`, `_obj_to_seq_by_id` and the counter `_id_pack_seq`.
pub record Ids : Type 0 where
  pub weak : List (ℕ × ℕ)
  pub by_id : List (ℕ × (ℕ × ℕ))
  pub next : ℕ

-- The counter starts at `(os.getpid() << 32) + 1`.
unfoldable pub fresh_ids : ℕ → Ids
fresh_ids pid = record { weak = []; by_id = []; next = pid * 4294967296 + 1 }

module _ (heap : Heap) where
  -- `_obj_to_seq_weak[obj]`: the first key that the dictionary takes for `obj`. An object that has no
  -- weak references or no hash raises TypeError.
  unfoldable pub weak_get : ℕ → List (ℕ × ℕ) → Option ℕ
  weak_get obj [] = none
  weak_get obj ((key, seq) ∷ weak) =
      if heap.is_weakrefable obj && (heap.is_hashable obj && heap.matches key obj)
      then some seq
      else weak_get obj weak

  unfoldable pub alloc_by_id : ℕ → Ids → ℕ × Ids
  unfolding get set_item
  alloc_by_id obj ids =
      let new : ℕ × Ids = (
        ids.next,
        record ids {
          by_id = set_item (heap.id obj) (obj, ids.next) ids.by_id;
          next = suc ids.next;
        },
      ) in
      elim (get (heap.id obj) ids.by_id) [
        | none ↦ new
        | some entry ↦ if entry.0 == obj then (entry.1, ids) else new
      ]

  unfoldable pub alloc_stable_obj_id : ℕ → Ids → ℕ × Ids
  unfolding weak_get alloc_by_id
  alloc_stable_obj_id obj ids =
      if heap.is_class obj then (0, ids) else elim (weak_get obj ids.weak) [
        | some seq ↦ (seq, ids)
        | none ↦
            if heap.is_weakrefable obj
            then (if heap.is_hashable obj
                then (
                  ids.next,
                  record ids { weak = (obj, ids.next) ∷ ids.weak; next = suc ids.next },
                )
                else alloc_by_id obj (record ids { next = suc ids.next }))
            else alloc_by_id obj ids
      ]

  unfoldable pub stable_id_pack : ℕ → Ids → IdPack × Ids
  unfolding alloc_stable_obj_id
  stable_id_pack obj ids = elim (heap.id_pack obj) [
    | some own ↦ (own, ids)
    | none ↦
        if heap.is_class obj
        then (record { name_pack = heap.name_pack obj; type_id = heap.id obj; obj_id = 0 }, ids)
        else (let (seq, ids') = alloc_stable_obj_id obj ids in
            (
              record {
                name_pack = heap.name_pack obj;
                type_id = heap.id (heap.type_of obj);
                obj_id = seq;
              },
              ids',
            ))
  ]

-- The weak dictionary loses the entries of an object that died.
unfoldable pub collected : ℕ → Ids → Ids
unfolding pop
collected obj ids = record ids { weak = pop obj ids.weak }

-- The first address in the dictionary that has the number.
unfoldable pub stale_key : ℕ → List (ℕ × (ℕ × ℕ)) → Option ℕ
stale_key seq [] = none
stale_key seq ((py_id, entry) ∷ by_id) = if entry.1 == seq then some py_id else stale_key seq by_id

unfoldable pub forget_stable_obj_id : IdPack → Ids → Ids
unfolding stale_key pop
forget_stable_obj_id p ids = if p.obj_id == 0 then ids else elim (stale_key p.obj_id ids.by_id) [
  | none ↦ ids
  | some py_id ↦ record ids { by_id = pop py_id ids.by_id }
]
