-- ===== src/Colls/Counting.antt =====
-- `RefCountingColl`. Its lock makes each method one step; the log lines are left out.
use rpyc_async.Prelude.{
  Bool, true, false, List, none, some, if◌then◌else◌, ℤ, pos, negsuc, ◌-ℤ◌, ltb_ℤ, Keyed,
}
use rpyc_async.Prelude.Dict.{get, set_item, pop}
use rpyc_async.Outcome.{Outcome, ok, raise, key_error}

-- `[object, refcount]`
pub record Slot {ℓ} (A : Type ℓ) : Type ℓ where
  pub object : A
  pub refcount : ℤ

module _ {ℓ κ} {K : Type ℓ} ⦃e : Keyed K⦄ {A : Type κ} where
  -- `slot[1] += 1` on a slot that is there; its object stays.
  unfoldable pub add : K → A → List (K × Slot A) → List (K × Slot A)
  add key obj coll = elim (get key coll) [
    | none ↦ set_item key (record { object = obj; refcount = pos 1 }) coll
    | some slot ↦ set_item key (record slot { refcount = slot.refcount -ℤ negsuc 0 }) coll
  ]

  -- True if the slot was deleted.
  unfoldable pub decref : K → ℤ → List (K × Slot A) → List (K × Slot A) × Bool
  decref key count coll = elim (get key coll) [
    | none ↦ (coll, false)
    | some slot ↦
        let left = slot.refcount -ℤ count in
        if ltb_ℤ (pos 0) left
        then (set_item key (record slot { refcount = left }) coll, false)
        else (pop key coll, true)
  ]

  unfoldable pub get_item : K → List (K × Slot A) → Outcome A
  get_item key coll = elim (get key coll) [ none ↦ raise key_error | some slot ↦ ok slot.object ]
