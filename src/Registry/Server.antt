-- ===== src/Registry/Server.antt =====
-- `RegistryServer`: the operations on `services`. Names and addresses are any types of keys, times
-- are numbers, and `upper` is `str.upper`.
use rpyc_async.Prelude.{
  ℕ, ◌+◌, Bool, true, false, List, [], ◌∷◌, ◌++◌, Option, none, some, ltb, leb, if◌then◌else◌,
  Keyed,
}
use rpyc_async.Prelude.Dict.{get, set_item, pop}
use rpyc_async.Outcome.{Outcome, ok, raise, key_error, ◌>>=◌}

-- `services`, each with the time of its last registration; `added` and `removed` are the calls of
-- `on_service_added` and `on_service_removed` so far.
pub record Server (N A : Type 0) : Type 0 where
  pub services : List (N × List (A × ℕ))
  pub pruning_timeout : ℕ
  pub allow_listing : Bool
  pub added : List (N × A)
  pub removed : List (N × A)

module _ {A : Type 0} ⦃ea : Keyed A⦄ where
  -- `sorted(items, key=lambda x: x[1])`, which is stable.
  unfoldable pub insert_by_time : A × ℕ → List (A × ℕ) → List (A × ℕ)
  insert_by_time x [] = x ∷ []
  insert_by_time x (y ∷ ys) = if leb x.1 y.1 then x ∷ y ∷ ys else y ∷ insert_by_time x ys

  unfoldable pub sort_by_time : List (A × ℕ) → List (A × ℕ)
  unfolding insert_by_time
  sort_by_time [] = []
  sort_by_time (x ∷ xs) = insert_by_time x (sort_by_time xs)

  unfoldable pub is_registered : A → List (A × ℕ) → Bool
  unfolding get
  is_registered addr servers = elim (get addr servers) [ none ↦ false | some t ↦ true ]

-- `t < oldest`, where `oldest` is `time.time() - pruning_timeout`.
abbrev pub is_stale : ℕ → ℕ → ℕ → Bool
is_stale timeout now t = ltb (t + timeout) now

module _ {N A : Type 0} ⦃en : Keyed N⦄ ⦃ea : Keyed A⦄ where
  -- `services[name]`, where a missing name has no servers yet.
  unfoldable pub servers_of : N → List (N × List (A × ℕ)) → List (A × ℕ)
  unfolding get
  servers_of name services = elim (get name services) [ none ↦ [] | some servers ↦ servers ]

  unfoldable pub add_service : ℕ → N → A → Server N A → Server N A
  unfolding servers_of is_registered set_item
  add_service now name addr s =
      let servers = servers_of name s.services in
      record s {
        services = set_item name (set_item addr now servers) s.services;
        added = if is_registered addr servers then s.added else s.added ++ (name, addr) ∷ [];
      }

  -- `if not self.services[name]: del self.services[name]`
  unfoldable pub without_empty :
      N → List (A × ℕ) → List (N × List (A × ℕ)) → List (N × List (A × ℕ))
  unfolding set_item pop
  without_empty name [] services = pop name services
  without_empty name (x ∷ xs) services = set_item name (x ∷ xs) services

  unfoldable pub remove_service : N → A → Server N A → Outcome (Server N A)
  unfolding get pop without_empty
  remove_service name addr s = elim (get name s.services) [
    | none ↦ raise key_error
    | some servers ↦ ok (record s {
      services = without_empty name (pop addr servers) s.services;
      removed = s.removed ++ (name, addr) ∷ [];
    })
  ]

  -- The loop of `cmd_query`: stale servers go, the others are the answer.
  unfoldable pub query_loop : ℕ → N → List (A × ℕ) → Server N A → Outcome (List A × Server N A)
  unfolding remove_service
  query_loop now name [] s = ok ([], s)
  query_loop now name ((addr, t) ∷ rest) s =
      if is_stale s.pruning_timeout now t
      then (remove_service name addr s >>= λ s'. query_loop now name rest s')
      else (query_loop now name rest s >>= λ r. ok (addr ∷ r.0, r.1))

  unfoldable pub unregister_loop : A → List (N × List (A × ℕ)) → Server N A → Outcome (Server N A)
  unfolding remove_service
  unregister_loop addr [] s = ok s
  unregister_loop addr ((name, servers) ∷ names) s =
      remove_service name addr s >>= λ s'. unregister_loop addr names s'

  unfoldable pub cmd_unregister : A → Server N A → Outcome (Server N A)
  unfolding unregister_loop
  cmd_unregister addr s = unregister_loop addr s.services s

  module _ (upper : N → N) where
    unfoldable pub cmd_query : ℕ → N → Server N A → Outcome (List A × Server N A)
    unfolding get query_loop sort_by_time
    cmd_query now name s = elim (get (upper name) s.services) [
      | none ↦ ok ([], s)
      | some servers ↦ query_loop now (upper name) (sort_by_time servers) s
    ]

    unfoldable pub cmd_register : ℕ → List N → A → Server N A → Server N A
    unfolding add_service
    cmd_register now [] addr s = s
    cmd_register now (name ∷ names) addr s =
        cmd_register now names addr (add_service now (upper name) addr s)

-- `filter_host[0] in known_hosts`
module _ {A H : Type 0} ⦃eh : Keyed H⦄ (host : A → H) where
  unfoldable pub knows_host : H → List (A × ℕ) → Bool
  knows_host h [] = false
  knows_host h ((addr, t) ∷ servers) =
      if eh.matches h (host addr) then true else knows_host h servers

-- `cmd_list`: None where listing is disabled; `filter_host[0]` may be false.
module _ {N A H : Type 0} ⦃eh : Keyed H⦄ (host : A → H) where
  unfoldable pub names_at : Option H → List (N × List (A × ℕ)) → List N
  unfolding knows_host
  names_at none [] = []
  names_at (some h) [] = []
  names_at none ((name, servers) ∷ services) = name ∷ names_at none services
  names_at (some h) ((name, servers) ∷ services) =
      let rest = names_at (some h) services in
      if knows_host host h servers then name ∷ rest else rest

  unfoldable pub cmd_list : Option H → Server N A → Option (List N)
  unfolding names_at
  cmd_list filter s = if s.allow_listing then some (names_at filter s.services) else none

-- `RegistryServer.__init__`
abbrev pub new_server : {N A : Type 0} → ℕ → Bool → Server N A
new_server timeout listing = record {
  services = [];
  pruning_timeout = timeout;
  allow_listing = listing;
  added = [];
  removed = [];
}
