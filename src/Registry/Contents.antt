-- ===== src/Registry/Contents.antt =====
-- What a registry server knows: the time at which an address last registered under a name.
use rpyc_async.Prelude.{
  ℕ, ◌≡◌, refl, ◌&&◌, List, [], ◌∷◌, ◌++◌, Option, none, some, if◌then◌else◌, Keyed, arith,
  Option-cases, Bool-cases, inl, inr, ap, sym, ◌∙◌, subst,
}
use rpyc_async.Prelude.Dict.{get, set_item, pop, get-set_item, get-pop}
use rpyc_async.Outcome.{ok, raise, key_error}
use rpyc_async.Registry.Server.{Server, servers_of, add_service, without_empty, remove_service}

module _ {K V : Type 0} ⦃e : Keyed K⦄ where
  -- No key is listed twice.
  abbrev pub Distinct : List (K × V) → Type 0
  Distinct [] = Unit {0}
  Distinct ((key, v) ∷ d) = (get key d ≡ none) × Distinct d

  pub set_item-Distinct :
      (key : K) (v : V) (d : List (K × V)) → Distinct d → Distinct (set_item key v d)
  unfolding set_item get
  set_item-Distinct key v [] u = (refl, tt)
  set_item-Distinct key v ((other, w) ∷ d) u = ground (
    arith,
    set_item-Distinct key v d u.1,
    get-set_item key other v d,
    e.matches_iff other key,
    e.matches_iff key other,
  )

  pub pop-Distinct : (key : K) (d : List (K × V)) → Distinct d → Distinct (pop key d)
  unfolding pop
  pop-Distinct key [] u = tt
  pop-Distinct key ((other, w) ∷ d) u = ground (arith, pop-Distinct key d u.1, get-pop key other d)

module _ {A : Type 0} ⦃ea : Keyed A⦄ where
  -- A name that is listed has servers, each once.
  abbrev pub IsListing : Option (List (A × ℕ)) → Type 0
  IsListing none = Unit {0}
  IsListing (some []) = ⊥
  IsListing (some (x ∷ servers)) = Distinct (x ∷ servers)

  -- An entry that is not empty, or none.
  abbrev pub listing : List (A × ℕ) → Option (List (A × ℕ))
  listing [] = none
  listing (x ∷ servers) = some (x ∷ servers)

  pub listing-IsListing : (servers : List (A × ℕ)) → Distinct servers → IsListing (listing servers)
  listing-IsListing [] d = tt
  listing-IsListing (x ∷ servers) d = d

  pub listed-Distinct :
      (o : Option (List (A × ℕ))) (servers : List (A × ℕ))
      → IsListing o
      → o ≡ some servers
      → Distinct servers
  listed-Distinct none servers v e = cc
  listed-Distinct (some []) servers v e = elim v [ ]
  listed-Distinct (some (x ∷ xs)) servers v e =
      let same : x ∷ xs ≡ servers = cc in subst Distinct same v

  pub listing-set_item :
      (addr : A) (now : ℕ) (servers : List (A × ℕ))
      → listing (set_item addr now servers) ≡ some (set_item addr now servers)
  unfolding set_item
  listing-set_item addr now [] = refl
  listing-set_item addr now (x ∷ xs) = ground arith

module _ {N A : Type 0} ⦃en : Keyed N⦄ ⦃ea : Keyed A⦄ where
  abbrev pub seen : Server N A → N → A → Option ℕ
  seen s name addr = get addr (servers_of name s.services)

  abbrev pub IsServer : Server N A → Type 0
  IsServer s = (name : N) → IsListing (get name s.services)

  pub get-without_empty :
      (name other : N) (servers : List (A × ℕ)) (services : List (N × List (A × ℕ)))
      → get other (without_empty name servers services)
        ≡ (if en.matches name other then listing servers else get other services)
  unfolding without_empty
  get-without_empty name other [] services = get-pop name other services
  get-without_empty name other (x ∷ xs) services = get-set_item name other (x ∷ xs) services

  servers_of-listing :
      (name : N) (servers : List (A × ℕ)) (services : List (N × List (A × ℕ)))
      → get name services ≡ listing servers
      → servers_of name services ≡ servers
  unfolding servers_of
  servers_of-listing name [] services e = rw (e, servers_of)
  servers_of-listing name (x ∷ xs) services e = rw (e, servers_of)

  servers_of-other :
      (name other : N) (d e : List (N × List (A × ℕ)))
      → get other d ≡ get other e
      → servers_of other d ≡ servers_of other e
  unfolding servers_of
  servers_of-other name other d e h = rw (h, servers_of) refl

  -- An update of one name's servers, which keeps those of all others.
  abbrev pub Updated : N → List (A × ℕ) → Server N A → Server N A → Type 0
  Updated name servers s s' =
      (other : N)
      → get other s'.services
        ≡ (if en.matches name other then listing servers else get other s.services)

  pub seen-Updated :
      (name : N) (servers : List (A × ℕ)) (s s' : Server N A) (other : N) (addr : A)
      → Updated name servers s s'
      → seen s' other addr ≡ (if en.matches name other then get addr servers else seen s other addr)
  seen-Updated name servers s s' other addr u = elim (Bool-cases (en.matches name other)) [
    | inl hit ↦ rw hit (
        ap (get addr) (
          servers_of-listing other servers s'.services
            (u other ∙ ap (λ b. if b then listing servers else get other s.services) hit)))
    | inr miss ↦ rw miss (
        ap (get addr) (
          servers_of-other name other s'.services s.services
            (u other ∙ ap (λ b. if b then listing servers else get other s.services) miss)))
  ]

  pub Updated-IsServer :
      (name : N) (servers : List (A × ℕ)) (s s' : Server N A)
      → Updated name servers s s'
      → Distinct servers
      → IsServer s
      → IsServer s'
  Updated-IsServer name servers s s' u d v other =
      subst IsListing (sym (u other)) (elim (Bool-cases (en.matches name other)) [
        | inl hit ↦ rw hit (listing-IsListing servers d)
        | inr miss ↦ rw miss (v other)
      ])

  servers_of-Distinct :
      (name : N) (s : Server N A) → IsServer s → Distinct (servers_of name s.services)
  unfolding servers_of
  servers_of-Distinct name s v = elim (Option-cases (get name s.services)) [
    | inl missing ↦ rw (missing, servers_of) tt
    | inr (servers, there) ↦
        rw (there, servers_of) (listed-Distinct (get name s.services) servers (v name) there)
  ]

  add_service-Updated :
      (now : ℕ) (name : N) (addr : A) (s : Server N A)
      → Updated name
          (set_item addr now (servers_of name s.services))
          s
          (add_service now name addr s)
  unfolding add_service
  add_service-Updated now name addr s other =
      get-set_item name other (set_item addr now (servers_of name s.services)) s.services
      ∙ ap (λ l. if en.matches name other then l else get other s.services)
          (sym (listing-set_item addr now (servers_of name s.services)))

  pub add_service-IsServer :
      (now : ℕ) (name : N) (addr : A) (s : Server N A)
      → IsServer s
      → IsServer (add_service now name addr s)
  add_service-IsServer now name addr s v =
      Updated-IsServer name (set_item addr now (servers_of name s.services)) s
        (add_service now name addr s) (add_service-Updated now name addr s)
        (set_item-Distinct addr now (servers_of name s.services) (servers_of-Distinct name s v)) v

  -- A registration is the last one of its address under its name, and changes no other.
  pub seen-add_service :
      (now : ℕ) (name other : N) (addr peer : A) (s : Server N A)
      → seen (add_service now name addr s) other peer
        ≡ (if en.matches name other && ea.matches addr peer then some now else seen s other peer)
  seen-add_service now name other addr peer s =
      seen-Updated name (set_item addr now (servers_of name s.services)) s
        (add_service now name addr s) other peer (add_service-Updated now name addr s)
      ∙ ground (
        arith,
        get-set_item addr peer now (servers_of name s.services),
        en.matches_iff name other,
      )

  -- No name is listed twice.
  abbrev pub HasNames : Server N A → Type 0
  HasNames s = Distinct s.services

  pub add_service-HasNames :
      (now : ℕ) (name : N) (addr : A) (s : Server N A)
      → HasNames s
      → HasNames (add_service now name addr s)
  unfolding add_service
  add_service-HasNames now name addr s h =
      set_item-Distinct name (set_item addr now (servers_of name s.services)) s.services h

  without_empty-Distinct :
      (name : N) (servers : List (A × ℕ)) (services : List (N × List (A × ℕ)))
      → Distinct services
      → Distinct (without_empty name servers services)
  unfolding without_empty
  without_empty-Distinct name [] services h = pop-Distinct name services h
  without_empty-Distinct name (x ∷ xs) services h = set_item-Distinct name (x ∷ xs) services h

  pub remove_service-HasNames :
      (name : N) (addr : A) (s s' : Server N A)
      → remove_service name addr s ≡ ok s'
      → HasNames s
      → HasNames s'
  unfolding remove_service
  remove_service-HasNames name addr s s' e h = elim (Option-cases (get name s.services)) [
    | inl missing ↦
        let refused : remove_service name addr s ≡ raise key_error =
          rw (missing, remove_service) refl in
        cc (sym refused ∙ e)
    | inr (servers, there) ↦
        let left = record s {
          services = without_empty name (pop addr servers) s.services;
          removed = s.removed ++ (name, addr) ∷ [];
        } in
        let done : remove_service name addr s ≡ ok left = rw (there, remove_service) refl in
        let same : left ≡ s' = cc (sym done ∙ e) in
        subst HasNames same (without_empty-Distinct name (pop addr servers) s.services h)
  ]
