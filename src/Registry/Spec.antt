-- ===== src/Registry/Spec.antt =====
-- The registry against its specification: a table of the last registrations.
use rpyc_async.Prelude.{ℕ, ◌≡◌, ◌&&◌, List, [], ◌∷◌, Option, none, some, if◌then◌else◌, Keyed}
use rpyc_async.Outcome.{Outcome, ok, ◌>>=◌}
use rpyc_async.Registry.Server.{Server, cmd_query, cmd_register, cmd_unregister}
use rpyc_async.Registry.Contents.{seen, IsServer, HasNames}
use rpyc_async.Registry.Sorted.{active, pruned, contains}

-- When an address last registered under a name.
abbrev pub Table : Type 0 → Type 0 → Type 0
Table N A = N → A → Option ℕ

pub data Command (N A : Type 0) : Type 0 where
  register : List N → A → Command N A
  unregister : A → Command N A
  query : N → Command N A

pub data Reply (A : Type 0) : Type 0 where
  done : Reply A
  addresses : List A → Reply A

module _ {N A : Type 0} ⦃en : Keyed N⦄ ⦃ea : Keyed A⦄ (upper : N → N) where
  unfoldable pub execute : ℕ → Command N A → Server N A → Outcome (Reply A × Server N A)
  unfolding cmd_register cmd_unregister cmd_query
  execute now (register names addr) s = ok (done, cmd_register upper now names addr s)
  execute now (unregister addr) s = cmd_unregister addr s >>= λ s'. ok (done, s')
  execute now (query name) s = cmd_query upper now name s >>= λ r. ok (addresses r.0, r.1)

  unfoldable pub run : List (ℕ × Command N A) → Server N A → Outcome (List (Reply A) × Server N A)
  unfolding execute
  run [] s = ok ([], s)
  run ((now, command) ∷ rest) s =
      execute now command s >>= λ r. run rest r.1 >>= λ q. ok (r.0 ∷ q.0, q.1)

  abbrev pub registered : ℕ → List N → A → Table N A → Table N A
  registered now [] addr table = table
  registered now (name ∷ names) addr table =
      registered now names addr
        (λ n a. if en.matches (upper name) n && ea.matches addr a then some now else table n a)

  -- What a command does to the table. A query forgets what is stale under its name.
  abbrev pub after : ℕ → ℕ → Command N A → Table N A → Table N A
  after timeout now (register names addr) table = registered now names addr table
  after timeout now (unregister addr) table = λ n a. if ea.matches addr a then none else table n a
  after timeout now (query name) table =
      λ n a. if en.matches (upper name) n then pruned timeout now (table n a) else table n a

  -- A query answers with the addresses that are recent enough under its name, and with no other.
  abbrev pub Answers : ℕ → ℕ → Command N A → Table N A → Reply A → Type 0
  Answers timeout now (register names addr) table reply = reply ≡ done
  Answers timeout now (unregister addr) table reply = reply ≡ done
  Answers timeout now (query name) table done = ⊥
  Answers timeout now (query name) table (addresses l) =
      (addr : A) → contains addr l ≡ active timeout now (table (upper name) addr)

  abbrev pub AllAnswer : ℕ → List (ℕ × Command N A) → Table N A → List (Reply A) → Type 0
  AllAnswer timeout [] table [] = Unit {0}
  AllAnswer timeout [] table (r ∷ rs) = ⊥
  AllAnswer timeout (c ∷ cs) table [] = ⊥
  AllAnswer timeout ((now, command) ∷ rest) table (r ∷ rs) =
      Answers timeout now command table r
      × AllAnswer timeout rest (after timeout now command table) rs

  abbrev pub after_all : ℕ → List (ℕ × Command N A) → Table N A → Table N A
  after_all timeout [] table = table
  after_all timeout ((now, command) ∷ rest) table =
      after_all timeout rest (after timeout now command table)

module _ {N A : Type 0} ⦃en : Keyed N⦄ ⦃ea : Keyed A⦄ where
  -- The server implements the table.
  pub record Tracks (timeout : ℕ) (s : Server N A) (table : Table N A) : Type 0 where
    pub valid : IsServer s
    pub names : HasNames s
    pub limit : s.pruning_timeout ≡ timeout
    pub same : (n : N) (a : A) → seen s n a ≡ table n a
