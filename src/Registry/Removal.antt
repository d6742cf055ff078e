-- ===== src/Registry/Removal.antt =====
-- What `_remove_service` takes away.
use rpyc_async.Prelude.{
  ℕ, ◌≡◌, refl, Bool, false, ◌&&◌, List, [], ◌∷◌, ◌++◌, none, some, if◌then◌else◌, Keyed,
  Option-cases, Bool-cases, inl, inr, ap, sym, ◌∙◌,
}
use rpyc_async.Prelude.Dict.{get, pop, get-pop}
use rpyc_async.Outcome.{ok, raise, key_error}
use rpyc_async.Registry.Server.{Server, servers_of, without_empty, remove_service}
use rpyc_async.Registry.Contents.{
  listing, pop-Distinct, listed-Distinct, seen, IsServer, Updated, seen-Updated, Updated-IsServer,
  get-without_empty,
}

module _ {N A : Type 0} ⦃en : Keyed N⦄ ⦃ea : Keyed A⦄ where
  pub found :
      (name : N) (s : Server N A) (addr : A) (t : ℕ)
      → seen s name addr ≡ some t
      → (servers : List (A × ℕ)) × (get name s.services ≡ some servers)
  unfolding servers_of get
  found name s addr t h = elim (Option-cases (get name s.services)) [
    | inl missing ↦
        let gone : seen s name addr ≡ none = rw (missing, servers_of) refl in cc (sym gone ∙ h)
    | inr there ↦ there
  ]

  pub servers_of-found :
      (name : N) (s : Server N A) (servers : List (A × ℕ))
      → get name s.services ≡ some servers
      → servers_of name s.services ≡ servers
  unfolding servers_of
  servers_of-found name s servers there = rw (there, servers_of) refl

  -- `s'` is `s` without the registrations that `gone` says.
  abbrev pub Without : (N → A → Bool) → Server N A → Server N A → Type 0
  Without gone s s' =
      IsServer s'
      × (s'.pruning_timeout ≡ s.pruning_timeout)
      × ((name : N) (addr : A)
          → seen s' name addr ≡ (if gone name addr then none else seen s name addr))

  pub remove_service-Without :
      (name : N) (addr : A) (s : Server N A) (servers : List (A × ℕ))
      → IsServer s
      → get name s.services ≡ some servers
      → (s' : Server N A) × (remove_service name addr s ≡ ok s')
        × Without (λ n a. en.matches name n && ea.matches addr a) s s'
  unfolding remove_service
  remove_service-Without name addr s servers v there =
      let s' : Server N A = record s {
        services = without_empty name (pop addr servers) s.services;
        removed = s.removed ++ (name, addr) ∷ [];
      } in
      let u : Updated name (pop addr servers) s s' =
        λ other. get-without_empty name other (pop addr servers) s.services in
      let d =
        pop-Distinct addr servers (listed-Distinct (get name s.services) servers (v name) there) in
      (
        s',
        rw (there, remove_service) refl,
        (
          Updated-IsServer name (pop addr servers) s s' u d v,
          refl,
          λ other peer. seen-Updated name (pop addr servers) s s' other peer u ∙ removed other peer,
        ),
      )
    where
      removed :
          (other : N) (peer : A)
          → (if en.matches name other then get peer (pop addr servers) else seen s other peer)
            ≡ (if en.matches name other && ea.matches addr peer then none else seen s other peer)
      removed other peer = elim (Bool-cases (en.matches name other)) [
        | inl hit ↦
            let same : name ≡ other = (en.matches_iff name other).0 hit in
            rw hit (
              get-pop addr peer servers
              ∙ ap (λ o. if ea.matches addr peer then none else o)
                  (sym (ap (get peer) (servers_of-found name s servers there))
                    ∙ ap (λ n. seen s n peer) same))
        | inr miss ↦ rw miss refl
      ]

  pub remove_service-others :
      (name other : N) (addr : A) (s s' : Server N A)
      → remove_service name addr s ≡ ok s'
      → en.matches name other ≡ false
      → get other s'.services ≡ get other s.services
  unfolding remove_service
  remove_service-others name other addr s s' e miss = elim (Option-cases (get name s.services)) [
    | inl missing ↦
        let refused : remove_service name addr s ≡ raise key_error =
          rw (missing, remove_service) refl in
        cc (sym refused ∙ e)
    | inr (servers, there) ↦
        let left = record s {
          services = without_empty name (pop addr servers) s.services;
          removed = s.removed ++ (name, addr) ∷ [];
        } in
        let done : remove_service name addr s ≡ ok left = rw (there, remove_service) refl in
        let same : left ≡ s' = cc (sym done ∙ e) in
        ap (λ q. get other q.services) (sym same)
        ∙ (get-without_empty name other (pop addr servers) s.services
            ∙ ap (λ b. if b then listing (pop addr servers) else get other s.services) miss)
  ]

  pub unseen :
      (name : N) (s : Server N A) (addr : A) → get name s.services ≡ none → seen s name addr ≡ none
  unfolding servers_of get
  unseen name s addr missing = rw (missing, servers_of) refl
