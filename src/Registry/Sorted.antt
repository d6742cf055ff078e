-- ===== src/Registry/Sorted.antt =====
-- The entries of a name, sorted and pruned: the answer of a query.
use rpyc_async.Prelude.{
  ℕ, ◌≡◌, refl, Bool, true, false, ◌&&◌, not, List, [], ◌∷◌, Option, none, some, if◌then◌else◌,
  Keyed, arith, ap, ◌∙◌,
}
use rpyc_async.Prelude.Dict.{get}
use rpyc_async.Registry.Server.{is_stale, insert_by_time, sort_by_time}
use rpyc_async.Registry.Contents.{Distinct}

-- The time is recent enough.
abbrev pub active : ℕ → ℕ → Option ℕ → Bool
active timeout now none = false
active timeout now (some t) = not (is_stale timeout now t)

-- What stays of a registration that was looked at.
abbrev pub pruned : ℕ → ℕ → Option ℕ → Option ℕ
pruned timeout now none = none
pruned timeout now (some t) = if is_stale timeout now t then none else some t

module _ {A : Type 0} ⦃ea : Keyed A⦄ where
  abbrev pub contains : A → List A → Bool
  contains addr [] = false
  contains addr (x ∷ xs) = if ea.matches x addr then true else contains addr xs

  -- The answer of the loop.
  abbrev pub fresh : ℕ → ℕ → List (A × ℕ) → List A
  fresh timeout now [] = []
  fresh timeout now ((addr, t) ∷ rest) =
      if is_stale timeout now t then fresh timeout now rest else addr ∷ fresh timeout now rest

  pub contains-fresh :
      (timeout now : ℕ) (addr : A) (servers : List (A × ℕ))
      → Distinct servers
      → contains addr (fresh timeout now servers) ≡ active timeout now (get addr servers)
  unfolding get
  contains-fresh timeout now addr [] d = refl
  contains-fresh timeout now addr ((x, t) ∷ servers) d =
      ground (arith, contains-fresh timeout now addr servers d.1, ea.matches_iff x addr)

  get-insert_by_time :
      (x addr : A) (t : ℕ) (servers : List (A × ℕ))
      → get x servers ≡ none
      → get addr (insert_by_time (x, t) servers)
        ≡ (if ea.matches x addr then some t else get addr servers)
  unfolding get insert_by_time
  get-insert_by_time x addr t [] h = refl
  get-insert_by_time x addr t ((y, u) ∷ servers) h = ground (
    arith,
    get-insert_by_time x addr t servers,
    ea.matches_iff x addr,
    ea.matches_iff y addr,
    ea.matches_iff y x,
  )

  insert_by_time-Distinct :
      (x : A) (t : ℕ) (servers : List (A × ℕ))
      → get x servers ≡ none
      → Distinct servers
      → Distinct (insert_by_time (x, t) servers)
  unfolding get insert_by_time
  insert_by_time-Distinct x t [] h d = (refl, tt)
  insert_by_time-Distinct x t ((y, u) ∷ servers) h d = ground (
    arith,
    insert_by_time-Distinct x t servers,
    get-insert_by_time x y t servers,
    ea.matches_iff x y,
    ea.matches_iff y x,
  )

  -- Sorting keeps the entries.
  pub get-sort_by_time :
      (servers : List (A × ℕ))
      → Distinct servers
      → Distinct (sort_by_time servers)
        × ((addr : A) → get addr (sort_by_time servers) ≡ get addr servers)
  unfolding get sort_by_time
  get-sort_by_time [] d = (tt, λ addr. refl)
  get-sort_by_time ((x, t) ∷ servers) d =
      let (d', same) = get-sort_by_time servers d.1 in
      let none_there = same x ∙ d.0 in
      (
        insert_by_time-Distinct x t (sort_by_time servers) none_there d',
        λ addr.
            get-insert_by_time x addr t (sort_by_time servers) none_there
            ∙ ap (λ o. if ea.matches x addr then some t else o) (same addr),
      )

  -- A stale entry for the address.
  abbrev pub stale_in : ℕ → ℕ → A → List (A × ℕ) → Bool
  stale_in timeout now addr [] = false
  stale_in timeout now addr ((x, t) ∷ rest) =
      if is_stale timeout now t && ea.matches x addr then true else stale_in timeout now addr rest

  stale_in-none :
      (timeout now : ℕ) (addr : A) (l : List (A × ℕ))
      → get addr l ≡ none
      → stale_in timeout now addr l ≡ false
  unfolding get
  stale_in-none timeout now addr [] e = refl
  stale_in-none timeout now addr ((x, t) ∷ rest) e =
      ground (arith, stale_in-none timeout now addr rest)

  pub stale_in-get :
      (timeout now : ℕ) (addr : A) (l : List (A × ℕ)) (o : Option ℕ)
      → Distinct l
      → get addr l ≡ o
      → (if stale_in timeout now addr l then none else o) ≡ pruned timeout now o
  unfolding get
  stale_in-get timeout now addr [] o d e = ground arith
  stale_in-get timeout now addr ((x, t) ∷ rest) o d e = ground (
    arith,
    stale_in-get timeout now addr rest o d.1,
    stale_in-none timeout now addr rest,
    ea.matches_iff x addr,
  )
