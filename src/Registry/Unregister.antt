-- ===== src/Registry/Unregister.antt =====
-- What `cmd_unregister` takes away.
use rpyc_async.Prelude.{
  ℕ, ◌≡◌, refl, Bool, true, false, ◌&&◌, List, [], ◌∷◌, none, some, if◌then◌else◌, Keyed, arith,
  Bool-cases, inl, inr, ap, sym, ◌∙◌, subst,
}
use rpyc_async.Prelude.Dict.{get}
use rpyc_async.Outcome.{ok, >>=-eq-ok}
use rpyc_async.Registry.Server.{Server, remove_service, unregister_loop}
use rpyc_async.Registry.Contents.{Distinct, IsServer, HasNames, remove_service-HasNames}
use rpyc_async.Registry.Removal.{Without, remove_service-Without, remove_service-others}

module _ {N A : Type 0} ⦃en : Keyed N⦄ ⦃ea : Keyed A⦄ where
  abbrev pub is_listed : N → List (N × List (A × ℕ)) → Bool
  is_listed name [] = false
  is_listed name ((other, servers) ∷ names) =
      if en.matches other name then true else is_listed name names

  abbrev pub Listed : List (N × List (A × ℕ)) → Server N A → Type 0
  Listed names s =
      (name : N)
      → is_listed name names ≡ true
      → (servers : List (A × ℕ)) × (get name s.services ≡ some servers)

  is_listed-none :
      (name : N) (names : List (N × List (A × ℕ)))
      → get name names ≡ none
      → is_listed name names ≡ false
  unfolding get
  is_listed-none name [] e = refl
  is_listed-none name ((other, servers) ∷ names) e = ground (arith, is_listed-none name names)

  Listed-rest :
      (name : N) (servers : List (A × ℕ)) (names : List (N × List (A × ℕ))) (s s1 : Server N A)
      → get name names ≡ none
      → ((other : N) → en.matches name other ≡ false → get other s1.services ≡ get other s.services)
      → Listed ((name, servers) ∷ names) s
      → Listed names s1
  Listed-rest name servers names s s1 gone others there other listed =
      elim (Bool-cases (en.matches name other)) [
        | inl hit ↦
            let same : name ≡ other = (en.matches_iff name other).0 hit in
            let unlisted = is_listed-none name names gone in
            let relisted : is_listed name names ≡ true =
              subst (λ n. is_listed n names ≡ true) (sym same) listed in
            cc (sym unlisted ∙ relisted)
        | inr miss ↦ let (d, e) = there other (rw miss listed) in (d, others other miss ∙ e)
      ]

  abbrev pub Unregistered : A → List (N × List (A × ℕ)) → Server N A → Type 0
  Unregistered addr names s =
      (s' : Server N A) × (unregister_loop addr names s ≡ ok s')
      × Without (λ n a. is_listed n names && ea.matches addr a) s s'

  Unregistered-rest :
      (addr : A) (name : N) (servers : List (A × ℕ)) (names : List (N × List (A × ℕ)))
      → (s s1 : Server N A) → remove_service name addr s ≡ ok s1
      → Without (λ n a. en.matches name n && ea.matches addr a) s s1
      → Unregistered addr names s1
      → Unregistered addr ((name, servers) ∷ names) s
  unfolding unregister_loop
  Unregistered-rest addr name servers names s s1 e (v1, lim1, gone1) (s2, loop, (v2, lim2, gone2)) =
      (s2, rw (e) loop, (v2, lim2 ∙ lim1, λ n a. ground (arith, gone1 n a, gone2 n a)))

  -- Every name loses the address.
  pub unregister_loop-Without :
      (addr : A) (names : List (N × List (A × ℕ))) (s : Server N A)
      → IsServer s
      → Distinct names
      → Listed names s
      → Unregistered addr names s
  unfolding unregister_loop
  unregister_loop-Without addr [] s v d there = (s, refl, (v, refl, λ n a. refl))
  unregister_loop-Without addr ((name, servers) ∷ names) s v d there =
      let (own, here) = there name (rw ((en.matches_iff name name).1 refl) refl) in
      let (s1, e, w) = remove_service-Without name addr s own v here in
      Unregistered-rest addr name servers names s s1 e w (
        unregister_loop-Without addr names s1 w.0 d.1 (
          Listed-rest name servers names s s1 d.0
            (λ other. remove_service-others name other addr s s1 e) there))

  pub unregister_loop-HasNames :
      (addr : A) (names : List (N × List (A × ℕ))) (s s' : Server N A)
      → unregister_loop addr names s ≡ ok s'
      → HasNames s
      → HasNames s'
  unfolding unregister_loop
  unregister_loop-HasNames addr [] s s' e h = let same : s ≡ s' = cc in subst HasNames same h
  unregister_loop-HasNames addr ((name, servers) ∷ names) s s' e h =
      let (s1, gone, loop) =
        >>=-eq-ok (remove_service name addr s) (λ s1. unregister_loop addr names s1) e in
      unregister_loop-HasNames addr names s1 s' loop (remove_service-HasNames name addr s s1 gone h)

  pub own_names-Listed :
      (names : List (N × List (A × ℕ))) (name : N)
      → is_listed name names ≡ true
      → (servers : List (A × ℕ)) × (get name names ≡ some servers)
  unfolding get
  own_names-Listed [] name e = cc
  own_names-Listed ((other, servers) ∷ names) name e = elim (Bool-cases (en.matches other name)) [
    | inl hit ↦ (servers, rw hit refl)
    | inr miss ↦
        let (d, there) =
          own_names-Listed names name
            (ap (λ b. if b then true else is_listed name names) (sym miss) ∙ e) in
        (d, rw miss there)
  ]

  pub found-is_listed :
      (name : N) (names : List (N × List (A × ℕ))) (servers : List (A × ℕ))
      → get name names ≡ some servers
      → is_listed name names ≡ true
  unfolding get
  found-is_listed name [] servers e = cc
  found-is_listed name ((other, own) ∷ names) servers e =
      ground (arith, found-is_listed name names servers)
