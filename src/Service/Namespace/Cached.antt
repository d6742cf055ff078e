-- ===== src/Service/Namespace/Cached.antt =====
-- The cache gives what `getmodule` gives, and asks once for a module.
use rpyc_async.Prelude.{
  ℕ, suc, ◌+◌, ◌<◌, true, false, List, [], ◌∷◌, ◌++◌, Option, none, some, ◌≡◌, refl, arith,
  if◌then◌else◌, list_eq, list_matches, list_matches_iff, ℕ_eq, ◌⊎◌, inl, inr, Bool-cases, subst,
  sym, ap, ◌∙◌,
}
use rpyc_async.Prelude.Dict.{get, get-set_item}
use rpyc_async.Protocol.Attributes.{Name}
use rpyc_async.Service.{Fetched, a_module, import_error, other_error, attribute_error, Modules}
use rpyc_async.Service.Namespace.{keep, look_up, get_item, get_all, new_modules, preloaded}

abbrev pub count : Name → List Name → ℕ
count name [] = 0
count name (other ∷ names) = (if list_matches other name then 1 else 0) + count name names

count-append :
    (name : Name) (xs ys : List Name) → count name (xs ++ ys) ≡ count name xs + count name ys
count-append name [] ys = omega arith
count-append name (x ∷ xs) ys = omega (arith, count-append name xs ys)

one_more : (name other : Name) → list_matches name other ≡ true → count other (name ∷ []) ≡ 1
one_more name other same = ground (arith, same)

none_more :
    (name other : Name) (fetched : List Name)
    → list_matches name other ≡ false
    → count other (fetched ++ name ∷ []) ≡ count other fetched
none_more name other fetched differs =
    ground (arith, differs, count-append other fetched (name ∷ []))

-- What the cache says of a name: it was never fetched, or it was fetched once, and an earlier call gave
-- the module.
abbrev pub Holds : (ℕ → Name → Fetched) → Name → Option ℕ → ℕ → ℕ → Type 0
Holds getmodule name none n asked = n ≡ 0
Holds getmodule name (some m) n asked =
    (n ≡ 1) × ((i : ℕ) × (i < asked) × (getmodule i name ≡ a_module m))

Holds-later :
    (getmodule : ℕ → Name → Fetched) (name : Name) (found : Option ℕ) (n asked : ℕ)
    → Holds getmodule name found n asked
    → Holds getmodule name found n (suc asked)
Holds-later getmodule name none n asked h = h
Holds-later getmodule name (some m) n asked (once, (i, before, gave)) =
    (once, (i, omega (arith, before), gave))

IsCache : (ℕ → Name → Fetched) → Modules → Type 0
IsCache getmodule s =
    (name : Name) → Holds getmodule name (get name s.cache) (count name s.fetched) s.asked

module _ (getmodule : ℕ → Name → Fetched) where
  kept-Holds :
      (name other : Name) (m : ℕ) (s : Modules)
      → getmodule s.asked name ≡ a_module m
      → get name s.cache ≡ none
      → IsCache getmodule s
      → Holds getmodule other
          (if list_matches name other then some m else get other s.cache)
          (count other (s.fetched ++ name ∷ []))
          (suc s.asked)
  unfolding IsCache
  kept-Holds name other m s e new v =
      let unseen : count name s.fetched ≡ 0 =
        subst (λ o. Holds getmodule name o (count name s.fetched) s.asked) new (v name) in
      elim (Bool-cases (list_matches name other)) [
        | inl same ↦
            let which = (list_matches_iff name other).0 same in
            rw same (
              (
                omega (
                  arith,
                  count-append other s.fetched (name ∷ []),
                  same,
                  ap (λ k. count k s.fetched) which,
                  unseen,
                  one_more name other same,
                ),
                (s.asked, omega arith, ap (getmodule s.asked) (sym which) ∙ e),
              ))
        | inr differs ↦ rw differs (
            subst (λ n. Holds getmodule other (get other s.cache) n (suc s.asked))
              (sym (none_more name other s.fetched differs))
              (Holds-later getmodule other (get other s.cache) (count other s.fetched) s.asked
                (v other)))
      ]

  keep-IsCache :
      (name : Name) (fetched : Fetched) (s : Modules)
      → getmodule s.asked name ≡ fetched
      → get name s.cache ≡ none
      → IsCache getmodule s
      → IsCache getmodule (keep name fetched s).1
  unfolding keep IsCache
  keep-IsCache name (a_module m) s e new v other =
      subst (λ o. Holds getmodule other o (count other (s.fetched ++ name ∷ [])) (suc s.asked))
        (sym (get-set_item name other m s.cache)) (kept-Holds name other m s e new v)
  keep-IsCache name import_error s e new v other = Holds-later getmodule other _ _ s.asked (v other)
  keep-IsCache name other_error s e new v other = Holds-later getmodule other _ _ s.asked (v other)
  keep-IsCache name attribute_error s e new v other =
      Holds-later getmodule other _ _ s.asked (v other)

  look_up-IsCache :
      (name : Name) (found : Option ℕ) (s : Modules)
      → get name s.cache ≡ found
      → IsCache getmodule s
      → IsCache getmodule (look_up getmodule name found s).1
  look_up-IsCache name (some m) s e v = v
  look_up-IsCache name none s e v = keep-IsCache name (getmodule s.asked name) s refl e v

  get_all-IsCache :
      (names : List Name) (s : Modules)
      → IsCache getmodule s
      → IsCache getmodule (get_all getmodule names s).1
  unfolding get_all get_item
  get_all-IsCache [] s v = v
  get_all-IsCache (name ∷ names) s v =
      get_all-IsCache names (look_up getmodule name (get name s.cache) s).1
        (look_up-IsCache name (get name s.cache) s refl v)

  -- What a lookup does, where the name was fetched `n` times.
  abbrev pub Answers : Name → ℕ → Modules → Fetched × Modules → Type 0
  Answers name n s (given, s') =
      ((n ≡ 1)
        × (s' ≡ s)
        × ((m : ℕ) × (given ≡ a_module m)
            × ((i : ℕ) × (i < s.asked) × (getmodule i name ≡ a_module m))))
      ⊎ ((n ≡ 0) × (given ≡ getmodule s.asked name) × (s'.asked ≡ suc s.asked))

  keep-asks :
      (name : Name) (fetched : Fetched) (s : Modules)
      → ((keep name fetched s).0 ≡ fetched) × ((keep name fetched s).1.asked ≡ suc s.asked)
  unfolding keep
  keep-asks name (a_module m) s = (refl, refl)
  keep-asks name import_error s = (refl, refl)
  keep-asks name other_error s = (refl, refl)
  keep-asks name attribute_error s = (refl, refl)

  look_up-Answers :
      (name : Name) (found : Option ℕ) (s : Modules)
      → Holds getmodule name found (count name s.fetched) s.asked
      → Answers name (count name s.fetched) s (look_up getmodule name found s)
  look_up-Answers name (some m) s (once, gave) = inl (once, refl, (m, refl, gave))
  look_up-Answers name none s unseen =
      let asks = keep-asks name (getmodule s.asked name) s in inr (unseen, asks.0, asks.1)

  -- Behind any lookups in a new namespace, whose two own modules can be imported, and whatever
  -- getmodule gives from call to call, a lookup of a name for which getmodule has given a module,
  -- which it has done only once, gives a module that it gave for the name in an earlier call, and
  -- does not call it; a lookup of any other name, also of one that has failed before, calls
  -- getmodule once and gives what it gives.
  pub get_item-Answers :
      (names : List Name) (name : Name)
      → let s = (get_all getmodule names (new_modules getmodule)).1 in
        Answers name (count name s.fetched) s (get_item getmodule name s)
  unfolding IsCache get new_modules get_item
  get_item-Answers names name =
      let fresh =
        get_all-IsCache preloaded (record { cache = []; fetched = []; asked = 0 })
          (λ other. refl) in
      let s = (get_all getmodule names (new_modules getmodule)).1 in
      look_up-Answers name (get name s.cache) s
        (get_all-IsCache names (new_modules getmodule) fresh name)
