-- ===== src/Witnesses/Colls.antt =====
-- Two references to one key.
use rpyc_async.Prelude.{◌≡◌, refl, List, [], ◌∷◌, ℕ, pos, true, ◌-◌, ℕ_eq, ltb, leb, ◌&&◌}
use rpyc_async.Prelude.Dict.{get, set_item, pop}
use rpyc_async.Colls.Counting.{Slot, add, decref}
use rpyc_async.Colls.Balance
use rpyc_async.Colls.Balance.{refs, IsColl}

abbrev twice : List (ℕ × Slot ℕ)
twice = (5, record { object = 70; refcount = pos 2 }) ∷ []

added_twice : add 5 71 (add 5 70 []) ≡ twice
unfolding add get set_item
added_twice = refl

taken_at_once : decref 5 (pos 3) twice ≡ ([], true)
unfolding decref get pop
taken_at_once = refl

empty-IsColl : IsColl {K = ℕ} {A = ℕ} []
unfolding get
empty-IsColl key = tt

twice-IsColl : IsColl twice
unfolding add get set_item
twice-IsColl = Balance.add-IsColl 5 71 (add 5 70 []) (Balance.add-IsColl 5 70 [] empty-IsColl)

refs-decref_example :
    (refs 5 (decref 5 (pos 2) twice).0 ≡ refs 5 twice - 2)
    × ((decref 5 (pos 2) twice).1 ≡ (ltb 0 (refs 5 twice) && leb (refs 5 twice) 2))
refs-decref_example = Balance.refs-decref 5 5 2 twice twice-IsColl
