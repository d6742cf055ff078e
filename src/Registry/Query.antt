-- ===== src/Registry/Query.antt =====
-- What `cmd_query` answers and takes away.
use rpyc_async.Prelude.{
  ℕ, ◌≡◌, refl, true, false, ◌&&◌, List, [], ◌∷◌, none, some, if◌then◌else◌, Keyed, arith,
  Bool-cases, inl, inr, ap, sym, ◌∙◌, subst,
}
use rpyc_async.Prelude.Dict.{get}
use rpyc_async.Outcome.{ok, ◌>>=◌, >>=-eq-ok}
use rpyc_async.Registry.Server.{Server, is_stale, remove_service, query_loop}
use rpyc_async.Registry.Contents.{Distinct, seen, IsServer, HasNames, remove_service-HasNames}
use rpyc_async.Registry.Sorted.{fresh, stale_in}
use rpyc_async.Registry.Removal.{found, Without, remove_service-Without}

module _ {N A : Type 0} ⦃en : Keyed N⦄ ⦃ea : Keyed A⦄ where
  abbrev pub Held : N → List (A × ℕ) → Server N A → Type 0
  Held name l s = (addr : A) (t : ℕ) → get addr l ≡ some t → seen s name addr ≡ some t

  query_loop-stale :
      (now t : ℕ) (name : N) (addr : A) (rest : List (A × ℕ)) (s s1 : Server N A)
      → is_stale s.pruning_timeout now t ≡ true
      → remove_service name addr s ≡ ok s1
      → query_loop now name ((addr, t) ∷ rest) s ≡ query_loop now name rest s1
  unfolding query_loop
  query_loop-stale now t name addr rest s s1 stale e = rw (stale, e) refl

  query_loop-recent :
      (now t : ℕ) (name : N) (addr : A) (rest : List (A × ℕ)) (s : Server N A)
      → is_stale s.pruning_timeout now t ≡ false
      → query_loop now name ((addr, t) ∷ rest) s
        ≡ (query_loop now name rest s >>= λ r. ok (addr ∷ r.0, r.1))
  unfolding query_loop
  query_loop-recent now t name addr rest s recent = rw recent refl

  Held-rest :
      (name : N) (addr : A) (t : ℕ) (rest : List (A × ℕ)) (s s1 : Server N A)
      → get addr rest ≡ none
      → Held name ((addr, t) ∷ rest) s
      → ((peer : A) → seen s1 name peer ≡ (if ea.matches addr peer then none else seen s name peer))
      → Held name rest s1
  unfolding get
  Held-rest name addr t rest s s1 gone held only peer u there =
      ground (arith, held peer u, only peer, ea.matches_iff addr peer)

  abbrev pub Answered : ℕ → ℕ → N → List (A × ℕ) → Server N A → Type 0
  Answered timeout now name l s =
      (s' : Server N A) × (query_loop now name l s ≡ ok (fresh timeout now l, s'))
      × Without (λ n a. en.matches name n && stale_in timeout now a l) s s'

  Answered-stale :
      (timeout now t : ℕ) (name : N) (addr : A) (rest : List (A × ℕ)) (s s1 : Server N A)
      → s.pruning_timeout ≡ timeout
      → is_stale timeout now t ≡ true
      → remove_service name addr s ≡ ok s1
      → Without (λ n a. en.matches name n && ea.matches addr a) s s1
      → Answered timeout now name rest s1
      → Answered timeout now name ((addr, t) ∷ rest) s
  Answered-stale timeout now t name addr rest s s1 lim stale e (v1, lim1, gone1)
        (s2, loop, (v2, lim2, gone2)) =
      (
        s2,
        query_loop-stale now t name addr rest s s1 (ap (λ l. is_stale l now t) lim ∙ stale) e
            ∙ (loop
                ∙ ap
                    (λ b.
                      ok
                        ((if b then fresh timeout now rest else addr ∷ fresh timeout now rest), s2))
                    (sym stale)),
        (v2, lim2 ∙ lim1, λ n a. ground (arith, stale, gone1 n a, gone2 n a)),
      )

  Answered-recent :
      (timeout now t : ℕ) (name : N) (addr : A) (rest : List (A × ℕ)) (s : Server N A)
      → s.pruning_timeout ≡ timeout
      → is_stale timeout now t ≡ false
      → Answered timeout now name rest s
      → Answered timeout now name ((addr, t) ∷ rest) s
  Answered-recent timeout now t name addr rest s lim recent (s2, loop, (v2, lim2, gone)) = (
    s2,
    query_loop-recent now t name addr rest s (ap (λ l. is_stale l now t) lim ∙ recent)
        ∙ (ap (λ q. q >>= λ r. ok (addr ∷ r.0, r.1)) loop
            ∙ ap
                (λ b.
                  ok ((if b then fresh timeout now rest else addr ∷ fresh timeout now rest), s2))
                (sym recent)),
    (v2, lim2, λ n a. ground (arith, recent, gone n a)),
  )

  seen_only :
      (name : N) (addr : A) (s s1 : Server N A)
      → Without (λ n a. en.matches name n && ea.matches addr a) s s1
      → (peer : A) → seen s1 name peer ≡ (if ea.matches addr peer then none else seen s name peer)
  seen_only name addr s s1 w peer =
      w.2 name peer
      ∙ ap (λ b. if b && ea.matches addr peer then none else seen s name peer)
          ((en.matches_iff name name).1 refl)

  head-Held :
      (name : N) (addr : A) (t : ℕ) (rest : List (A × ℕ)) (s : Server N A)
      → Held name ((addr, t) ∷ rest) s
      → seen s name addr ≡ some t
  unfolding get
  head-Held name addr t rest s held = held addr t (rw ((ea.matches_iff addr addr).1 refl) refl)

  tail-Held :
      (name : N) (addr : A) (t : ℕ) (rest : List (A × ℕ)) (s : Server N A)
      → get addr rest ≡ none
      → Held name ((addr, t) ∷ rest) s
      → Held name rest s
  unfolding get
  tail-Held name addr t rest s gone held peer u there =
      ground (arith, held peer u, ea.matches_iff addr peer)

  -- The loop of a query over entries that are there.
  pub query_loop-Answered :
      (timeout now : ℕ) (name : N) (l : List (A × ℕ)) (s : Server N A)
      → s.pruning_timeout ≡ timeout
      → IsServer s
      → Distinct l
      → Held name l s
      → Answered timeout now name l s
  unfolding query_loop
  query_loop-Answered timeout now name [] s lim v d held = (s, refl, (v, refl, λ n a. ground arith))
  query_loop-Answered timeout now name ((addr, t) ∷ rest) s lim v d held =
      elim (Bool-cases (is_stale timeout now t)) [
        | inl stale ↦
            let (servers, there) = found name s addr t (head-Held name addr t rest s held) in
            let (s1, e, w) = remove_service-Without name addr s servers v there in
            Answered-stale timeout now t name addr rest s s1 lim stale e w (
              query_loop-Answered timeout now name rest s1 (w.1 ∙ lim) w.0 d.1
                (Held-rest name addr t rest s s1 d.0 held (seen_only name addr s s1 w)))
        | inr recent ↦ Answered-recent timeout now t name addr rest s lim recent (
            query_loop-Answered timeout now name rest s lim v d.1
              (tail-Held name addr t rest s d.0 held))
      ]

  pub query_loop-HasNames :
      (now : ℕ) (name : N) (l : List (A × ℕ)) (s : Server N A) (r : List A × Server N A)
      → query_loop now name l s ≡ ok r
      → HasNames s
      → HasNames r.1
  unfolding query_loop
  query_loop-HasNames now name [] s r e h =
      let same : ([], s) ≡ r = cc in subst (λ q. HasNames q.1) same h
  query_loop-HasNames now name ((addr, t) ∷ rest) s r e h =
      elim (Bool-cases (is_stale s.pruning_timeout now t)) [
        | inl stale ↦
            let (s1, gone, loop) =
              >>=-eq-ok (remove_service name addr s) (λ s1. query_loop now name rest s1)
                (removes s r stale e) in
            query_loop-HasNames now name rest s1 r loop
              (remove_service-HasNames name addr s s1 gone h)
        | inr recent ↦
            let (q, loop, last) =
              >>=-eq-ok (query_loop now name rest s) (λ q. ok (addr ∷ q.0, q.1))
                (sym (query_loop-recent now t name addr rest s recent) ∙ e) in
            let same : (addr ∷ q.0, q.1) ≡ r = cc last in
            subst (λ q. HasNames q.1) same (query_loop-HasNames now name rest s q loop h)
      ]
    where
      removes :
          (s : Server N A) (r : List A × Server N A)
          → is_stale s.pruning_timeout now t ≡ true
          → query_loop now name ((addr, t) ∷ rest) s ≡ ok r
          → (remove_service name addr s >>= λ s1. query_loop now name rest s1) ≡ ok r
      removes s r stale e =
          sym (
            ap
              (λ b.
                if b
                then (remove_service name addr s >>= λ s1. query_loop now name rest s1)
                else (query_loop now name rest s >>= λ q. ok (addr ∷ q.0, q.1)))
              stale)
          ∙ e
