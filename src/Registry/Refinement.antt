-- ===== src/Registry/Refinement.antt =====
-- The registry server implements the table of the last registrations.
use rpyc_async.Prelude.{
  ℕ, ◌≡◌, refl, Bool, false, List, [], ◌∷◌, none, Keyed, arith, Option-cases, inl, inr, sym, ◌∙◌,
}
use rpyc_async.Prelude.Dict.{get}
use rpyc_async.Outcome.{ok}
use rpyc_async.Registry.Server.{new_server, Server, servers_of, cmd_register, cmd_unregister}
use rpyc_async.Registry.Unregister.{
  unregister_loop-Without, unregister_loop-HasNames, own_names-Listed, found-is_listed, is_listed,
}
use rpyc_async.Registry.Spec.{
  Table, Command, register, unregister, query, Reply, done, addresses, execute, run, after,
  after_all, Answers, AllAnswer, Tracks,
}
use rpyc_async.Registry.Removal.{unseen}
use rpyc_async.Registry.Tracking.{Tracks-register, Tracks-query}

module _ {N A : Type 0} ⦃en : Keyed N⦄ ⦃ea : Keyed A⦄ (upper : N → N) where
  unlisted_none :
      (timeout : ℕ) (n : N) (a : A) (s : Server N A) (table : Table N A)
      → Tracks timeout s table
      → is_listed n s.services ≡ false
      → table n a ≡ none
  unlisted_none timeout n a s table k hidden = elim (Option-cases (get n s.services)) [
    | inl missing ↦ sym (k.same n a) ∙ unseen n s a missing
    | inr (servers, there) ↦
        let listed = found-is_listed n s.services servers there in cc (sym hidden ∙ listed)
  ]

  Tracks-unregister :
      (timeout now : ℕ) (addr : A) (s : Server N A) (table : Table N A)
      → Tracks timeout s table
      → (s' : Server N A) × (cmd_unregister addr s ≡ ok s')
        × Tracks timeout s' (after upper timeout now (unregister addr) table)
  unfolding cmd_unregister
  Tracks-unregister timeout now addr s table k =
      let (s', loop, (v', lim', gone)) =
        unregister_loop-Without addr s.services s k.valid k.names (own_names-Listed s.services) in
      (
        s',
        loop,
        record {
          valid = v';
          names = unregister_loop-HasNames addr s.services s s' loop k.names;
          limit = lim' ∙ k.limit;
          same = λ n a. gone n a ∙ ground (arith, k.same n a, unlisted_none timeout n a s table k);
        },
      )

  execute-Tracks :
      (timeout now : ℕ) (command : Command N A) (s : Server N A) (table : Table N A)
      → Tracks timeout s table
      → (r : Reply A) × (s' : Server N A) × (execute upper now command s ≡ ok (r, s'))
        × Answers upper timeout now command table r
        × Tracks timeout s' (after upper timeout now command table)
  unfolding execute
  execute-Tracks timeout now (register names addr) s table k = (
    done,
    cmd_register upper now names addr s,
    refl,
    refl,
    Tracks-register upper timeout now names addr s table k,
  )
  execute-Tracks timeout now (unregister addr) s table k =
      let (s', e, k') = Tracks-unregister timeout now addr s table k in
      (done, s', rw e refl, refl, k')
  execute-Tracks timeout now (query name) s table k =
      let (l, s', e, right, k') = Tracks-query upper timeout now name s table k in
      (addresses l, s', rw e refl, right, k')

  pub run-Tracks :
      (timeout : ℕ) (commands : List (ℕ × Command N A)) (s : Server N A) (table : Table N A)
      → Tracks timeout s table
      → (replies : List (Reply A)) × (s' : Server N A) × (run upper commands s ≡ ok (replies, s'))
        × AllAnswer upper timeout commands table replies
        × Tracks timeout s' (after_all upper timeout commands table)
  unfolding run
  run-Tracks timeout [] s table k = ([], s, refl, tt, k)
  run-Tracks timeout ((now, command) ∷ rest) s table k =
      let (r, s1, e, right, k1) = execute-Tracks timeout now command s table k in
      let (replies, s2, e2, rights, k2) =
        run-Tracks timeout rest s1 (after upper timeout now command table) k1 in
      (r ∷ replies, s2, rw (e, e2) refl, (right, rights), k2)

  nothing_registered :
      (timeout : ℕ) (listing : Bool)
      → Tracks {N = N} {A = A} timeout (new_server timeout listing) (λ n a. none)
  unfolding servers_of get
  nothing_registered timeout listing = record {
    valid = λ n. tt;
    names = tt;
    limit = refl;
    same = λ n a. refl;
  }

  -- A new registry server that is sent any registrations, queries and unregistrations, at any
  -- times, raises nothing, and ends in step with the table of the last registrations: no name is
  -- listed twice or without servers, no address twice under a name, and each has the time of its
  -- last registration. Each query is answered with the addresses that registered last under its
  -- name within the pruning timeout, and no others.
  pub run-new_server :
      (timeout : ℕ) (listing : Bool) (commands : List (ℕ × Command N A))
      → (replies : List (Reply A)) × (s : Server N A) × (run upper commands
            (new_server timeout listing)
          ≡ ok (replies, s))
        × AllAnswer upper timeout commands (λ n a. none) replies
        × Tracks timeout s (after_all upper timeout commands (λ n a. none))
  run-new_server timeout listing commands =
      run-Tracks timeout commands (new_server timeout listing) (λ n a. none)
        (nothing_registered timeout listing)
