-- ===== src/Prelude/Dict.antt =====
-- Python's dictionaries: association lists in the order of insertion. The keys of a dictionary that
-- a program builds are distinct.
use mathlib.Core.Path.{◌≡◌, refl}
use mathlib.Core.Option.{Option, none, some}
use mathlib.Core.List.{List, [], ◌∷◌}
use native.Mathlib.Omega.{arith}
use rpyc_async.Prelude.Tests.{if◌then◌else◌}
use rpyc_async.Prelude.Keys.{Keyed}

module _ {ℓ κ} {K : Type ℓ} ⦃e : Keyed K⦄ {V : Type κ} where
  -- `d.get(k)`
  unfoldable pub get : K → List (K × V) → Option V
  get k [] = none
  get k ((j, v) ∷ d) = if e.matches j k then some v else get k d

  -- `d[k] = v`: an old key keeps its place.
  unfoldable pub set_item : K → V → List (K × V) → List (K × V)
  set_item k v [] = (k, v) ∷ []
  set_item k v ((j, w) ∷ d) = if e.matches j k then (j, v) ∷ d else (j, w) ∷ set_item k v d

  -- `d.pop(k, None)`
  unfoldable pub pop : K → List (K × V) → List (K × V)
  pop k [] = []
  pop k ((j, w) ∷ d) = if e.matches j k then pop k d else (j, w) ∷ pop k d

  pub get-set_item :
      (k j : K) (v : V) (d : List (K × V))
      → get j (set_item k v d) ≡ (if e.matches k j then some v else get j d)
  unfolding get set_item
  get-set_item k j v [] = refl
  get-set_item k j v ((i, w) ∷ d) =
      ground (arith, e.matches_iff k j, e.matches_iff i k, e.matches_iff i j, get-set_item k j v d)

  pub get-pop :
      (k j : K) (d : List (K × V)) → get j (pop k d) ≡ (if e.matches k j then none else get j d)
  unfolding get pop
  get-pop k j [] = ground arith
  get-pop k j ((i, w) ∷ d) =
      ground (arith, e.matches_iff k j, e.matches_iff i k, e.matches_iff i j, get-pop k j d)
