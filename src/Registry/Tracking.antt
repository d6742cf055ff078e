-- ===== src/Registry/Tracking.antt =====
-- Each command of a registry server keeps it in step with the table.
use rpyc_async.Prelude.{
  ℕ, ◌≡◌, refl, ◌&&◌, List, [], ◌∷◌, none, some, if◌then◌else◌, Keyed, arith, Option-cases,
  Bool-cases, inl, inr, ap, sym, ◌∙◌,
}
use rpyc_async.Prelude.Dict.{get}
use rpyc_async.Outcome.{ok}
use rpyc_async.Registry.Server.{Server, sort_by_time, add_service, cmd_query, cmd_register}
use rpyc_async.Registry.Contents.{
  Distinct, listed-Distinct, seen, seen-add_service, add_service-IsServer, add_service-HasNames,
}
use rpyc_async.Registry.Sorted.{
  active, pruned, contains, fresh, stale_in, contains-fresh, get-sort_by_time, stale_in-get,
}
use rpyc_async.Registry.Removal.{unseen, servers_of-found}
use rpyc_async.Registry.Query.{query_loop-Answered, query_loop-HasNames}
use rpyc_async.Registry.Spec.{Table, query, registered, after, Tracks}

module _ {N A : Type 0} ⦃en : Keyed N⦄ ⦃ea : Keyed A⦄ (upper : N → N) where
  Tracks-add_service :
      (timeout now : ℕ) (name : N) (addr : A) (s : Server N A) (table : Table N A)
      → Tracks timeout s table
      → Tracks timeout
          (add_service now name addr s)
          (λ n a. if en.matches name n && ea.matches addr a then some now else table n a)
  unfolding add_service
  Tracks-add_service timeout now name addr s table k = record {
    valid = add_service-IsServer now name addr s k.valid;
    names = add_service-HasNames now name addr s k.names;
    limit = k.limit;
    same = λ n a.
        seen-add_service now name n addr a s
        ∙ ap (λ o. if en.matches name n && ea.matches addr a then some now else o) (k.same n a);
  }

  pub Tracks-register :
      (timeout now : ℕ) (names : List N) (addr : A) (s : Server N A) (table : Table N A)
      → Tracks timeout s table
      → Tracks timeout (cmd_register upper now names addr s) (registered upper now names addr table)
  unfolding cmd_register
  Tracks-register timeout now [] addr s table k = k
  Tracks-register timeout now (name ∷ names) addr s table k =
      Tracks-register timeout now names addr (add_service now (upper name) addr s)
        (λ n a. if en.matches (upper name) n && ea.matches addr a then some now else table n a)
        (Tracks-add_service timeout now (upper name) addr s table k)

  -- What a query does, and what it says.
  abbrev Queried : ℕ → ℕ → N → Server N A → Table N A → Type 0
  Queried timeout now name s table =
      (l : List A) × (s' : Server N A) × (cmd_query upper now name s ≡ ok (l, s'))
      × ((addr : A) → contains addr l ≡ active timeout now (table (upper name) addr))
      × Tracks timeout s' (after upper timeout now (query name) table)

  missing_query :
      (timeout now : ℕ) (name : N) (s : Server N A) (table : Table N A)
      → Tracks timeout s table
      → get (upper name) s.services ≡ none
      → Queried timeout now name s table
  unfolding cmd_query
  missing_query timeout now name s table k missing =
      let empty : (addr : A) → table (upper name) addr ≡ none =
        λ addr. sym (k.same (upper name) addr) ∙ unseen (upper name) s addr missing in
      (
        [],
        s,
        rw (missing, cmd_query) refl,
        λ addr. ap (active timeout now) (sym (empty addr)),
        record {
          valid = k.valid;
          names = k.names;
          limit = k.limit;
          same = λ n a. ground (arith, k.same n a, empty a, en.matches_iff (upper name) n);
        },
      )

  pruned_at :
      (timeout now : ℕ) (name n : N) (a : A) (s : Server N A) (servers l : List (A × ℕ))
      → get name s.services ≡ some servers
      → Distinct l
      → get a l ≡ get a servers
      → (if en.matches name n && stale_in timeout now a l then none else seen s n a)
        ≡ (if en.matches name n then pruned timeout now (seen s n a) else seen s n a)
  pruned_at timeout now name n a s servers l there d e = elim (Bool-cases (en.matches name n)) [
    | inl hit ↦
        let same : name ≡ n = (en.matches_iff name n).0 hit in
        rw hit (
          stale_in-get timeout now a l (seen s n a) d (
            e
            ∙ (sym (ap (get a) (servers_of-found name s servers there))
                ∙ ap (λ m. seen s m a) same)))
    | inr miss ↦ rw miss refl
  ]

  listed_query :
      (timeout now : ℕ) (name : N) (s : Server N A) (table : Table N A) (servers : List (A × ℕ))
      → Tracks timeout s table
      → get (upper name) s.services ≡ some servers
      → Queried timeout now name s table
  unfolding cmd_query
  listed_query timeout now name s table servers k there =
      let d = listed-Distinct (get (upper name) s.services) servers (k.valid (upper name)) there in
      let (d', same) = get-sort_by_time servers d in
      let at : (a : A) → get a servers ≡ table (upper name) a = λ a.
        sym (ap (get a) (servers_of-found (upper name) s servers there)) ∙ k.same (upper name) a in
      let (s', loop, (v', lim', gone)) =
        query_loop-Answered timeout now (upper name) (sort_by_time servers) s k.limit k.valid d'
          (λ a t h. k.same (upper name) a ∙ (sym (at a) ∙ (sym (same a) ∙ h))) in
      (
        fresh timeout now (sort_by_time servers),
        s',
        rw (there, cmd_query) loop,
        λ a.
            contains-fresh timeout now a (sort_by_time servers) d'
            ∙ ap (active timeout now) (same a ∙ at a),
        record {
          valid = v';
          names =
              query_loop-HasNames now (upper name) (sort_by_time servers) s
                (fresh timeout now (sort_by_time servers), s') loop k.names;
          limit = lim' ∙ k.limit;
          same = λ n a.
              gone n a
              ∙ (pruned_at timeout now (upper name) n a s servers (sort_by_time servers) there d'
                    (same a)
                  ∙ ap (λ o. if en.matches (upper name) n then pruned timeout now o else o)
                      (k.same n a));
        },
      )

  pub Tracks-query :
      (timeout now : ℕ) (name : N) (s : Server N A) (table : Table N A)
      → Tracks timeout s table
      → Queried timeout now name s table
  Tracks-query timeout now name s table k = elim (Option-cases (get (upper name) s.services)) [
    | inl missing ↦ missing_query timeout now name s table k missing
    | inr (servers, there) ↦ listed_query timeout now name s table servers k there
  ]
