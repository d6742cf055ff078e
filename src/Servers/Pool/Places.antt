-- ===== src/Servers/Pool/Places.antt =====
-- A connection is in one place at a time, and none gets lost.
use rpyc_async.Prelude.{
  ℕ, zero, suc, ◌+◌, Bool, true, false, List, [], ◌∷◌, ◌++◌, Option, none, some, ◌==◌, ==_iff,
  if◌then◌else◌, ◌≡◌, refl, arith, ap, Bool-cases, inl, inr,
}
use rpyc_async.Servers.Pool.{
  Pool, update, add_inactive_connection, remove_from_inactive_connection, put, drop_connection,
  handle_poll_result, take_first, Answer, served, nothing, ended, fails, answered, serve_requests,
  find_work, remove_work, go_on, Move, accepts, polls, takes, works, move, run, new_pool,
}

abbrev pub count : ℕ → List ℕ → ℕ
count fd [] = 0
count fd (other ∷ queue) = (if other == fd then 1 else 0) + count fd queue

abbrev pub count_work : ℕ → List (ℕ × ℕ) → ℕ
count_work fd [] = 0
count_work fd ((other, n) ∷ work) = (if other == fd then 1 else 0) + count_work fd work

abbrev pub one : Bool → ℕ
one b = if b then 1 else 0

-- How often a connection is registered, in the queue and with a worker.
abbrev pub places : ℕ → Pool → ℕ
places fd s = one (s.registered fd) + count fd s.queue + count_work fd s.working

count-append : (fd : ℕ) (xs ys : List ℕ) → count fd (xs ++ ys) ≡ count fd xs + count fd ys
count-append fd [] ys = omega arith
count-append fd (x ∷ xs) ys = omega (arith, count-append fd xs ys)

count_work-remove :
    (g fd n : ℕ) (work : List (ℕ × ℕ))
    → find_work fd work ≡ some n
    → count_work g work ≡ (if fd == g then 1 else 0) + count_work g (remove_work fd work)
count_work-remove g fd n [] h = absurd (cc)
count_work-remove g fd n ((other, m) ∷ work) h =
    ground (arith, ==_iff other fd, ==_iff other g, ==_iff fd g, count_work-remove g fd n work)

record IsPool (s : Pool) : Type 0 where
  placed : (fd : ℕ) → places fd s ≡ one (s.conns fd)
  none_zero : s.conns 0 ≡ false

-- A connection that is nowhere yet is put into one place.
record IsLoose (fd : ℕ) (s : Pool) : Type 0 where
  loose : places fd s ≡ 0
  open_conn : s.conns fd ≡ true
  others : (g : ℕ) → (fd == g) ≡ false → places g s ≡ one (s.conns g)
  none_zero : s.conns 0 ≡ false

module _ (fd : ℕ) (s : Pool) (v : IsLoose fd s) where
  put-IsPool : IsPool (put fd s)
  put-IsPool = record {
    placed = λ g.
        ground
          (arith, v.loose, v.open_conn, v.others g, count-append g s.queue (fd ∷ []), ==_iff fd g);
    none_zero = v.none_zero;
  }

  add_inactive-IsPool : IsPool (add_inactive_connection fd s)
  add_inactive-IsPool = record {
    placed = λ g. ground (arith, v.loose, v.open_conn, v.others g, ==_iff fd g);
    none_zero = v.none_zero;
  }

  drop-IsPool : IsPool (drop_connection fd s)
  drop-IsPool = rw v.open_conn (record {
    placed = λ g. ground (arith, v.loose, v.others g, ==_iff fd g);
    none_zero = ground (arith, v.none_zero);
  })

  with_worker-IsPool : (n : ℕ) → IsPool (record s { working = (fd, n) ∷ s.working })
  with_worker-IsPool n = record {
    placed = λ g. ground (arith, v.loose, v.open_conn, v.others g, ==_iff fd g);
    none_zero = v.none_zero;
  }

  answered-IsPool : (n : ℕ) (answer : Answer) → IsPool (answered fd n answer s)
  answered-IsPool n served = with_worker-IsPool n
  answered-IsPool n nothing = add_inactive-IsPool
  answered-IsPool n ended = drop-IsPool
  answered-IsPool n fails = put-IsPool

  serve_requests-IsPool : (n : ℕ) (answer : Answer) → IsPool (serve_requests fd n answer s)
  unfolding serve_requests
  serve_requests-IsPool zero answer = put-IsPool
  serve_requests-IsPool (suc n) answer = rw v.open_conn (answered-IsPool n answer)

-- A registered connection, one at the head of the queue, and one with a worker, taken out of there.
unregister-IsLoose :
    (fd : ℕ) (s : Pool)
    → s.registered fd ≡ true
    → IsPool s
    → IsLoose fd (remove_from_inactive_connection fd s)
unregister-IsLoose fd s here v = record {
  loose = ground (arith, v.placed fd, ==_iff fd fd);
  open_conn = ground (arith, v.placed fd);
  others = λ g other. ground (arith, v.placed g, other);
  none_zero = v.none_zero;
}

take-IsLoose :
    (fd : ℕ) (rest : List ℕ) (s : Pool)
    → s.queue ≡ fd ∷ rest
    → IsPool s
    → IsLoose fd (record s { queue = rest })
take-IsLoose fd rest s e v = record {
  loose = ground (arith, v.placed fd, e, ==_iff fd fd);
  open_conn = ground (arith, v.placed fd, e, ==_iff fd fd);
  others = λ g other. ground (arith, v.placed g, e, other);
  none_zero = v.none_zero;
}

remove_work-IsLoose :
    (fd n : ℕ) (s : Pool)
    → find_work fd s.working ≡ some n
    → IsPool s
    → IsLoose fd (record s { working = remove_work fd s.working })
remove_work-IsLoose fd n s e v = record {
  loose = ground (arith, v.placed fd, count_work-remove fd fd n s.working e, ==_iff fd fd);
  open_conn = ground (arith, v.placed fd, count_work-remove fd fd n s.working e, ==_iff fd fd);
  others = λ g other. ground (arith, v.placed g, count_work-remove g fd n s.working e, other);
  none_zero = v.none_zero;
}

accept-IsLoose :
    (fd : ℕ) (s : Pool)
    → s.conns fd ≡ false
    → (fd == 0) ≡ false
    → IsPool s
    → IsLoose fd (record s { conns = update s.conns fd true })
accept-IsLoose fd s fresh real v = record {
  loose = ground (arith, v.placed fd, fresh);
  open_conn = ground (arith, ==_iff fd fd);
  others = λ g other. ground (arith, v.placed g, other);
  none_zero = ground (arith, v.none_zero, real);
}

handle_poll_result-IsPool :
    (fd : ℕ) (failed : Bool) (s : Pool)
    → s.registered fd ≡ true
    → IsPool s
    → IsPool (handle_poll_result fd failed s)
unfolding handle_poll_result
handle_poll_result-IsPool fd true s here v = drop-IsPool fd _ (unregister-IsLoose fd s here v)
handle_poll_result-IsPool fd false s here v = put-IsPool fd _ (unregister-IsLoose fd s here v)

take_first-IsPool :
    (batch : ℕ) (queue : List ℕ) (s : Pool)
    → s.queue ≡ queue
    → IsPool s
    → IsPool (take_first batch queue s)
unfolding take_first
take_first-IsPool batch [] s e v = v
take_first-IsPool batch (fd ∷ rest) s e v =
    let loose = take-IsLoose fd rest s e v in
    elim (Bool-cases (fd == 0)) [
      | inl nil ↦ absurd (cc (v.none_zero, loose.open_conn, ap s.conns ((==_iff fd 0).0 nil)))
      | inr real ↦ rw real (with_worker-IsPool fd (record s { queue = rest }) loose batch)
    ]

go_on-IsPool :
    (fd : ℕ) (found : Option ℕ) (answer : Answer) (s : Pool)
    → find_work fd s.working ≡ found
    → IsPool s
    → IsPool (go_on fd found answer s)
unfolding go_on
go_on-IsPool fd none answer s e v = v
go_on-IsPool fd (some n) answer s e v =
    serve_requests-IsPool fd _ (remove_work-IsLoose fd n s e v) n answer

if-IsPool :
    (b : Bool) (s t : Pool)
    → (b ≡ true → IsPool s)
    → (b ≡ false → IsPool t)
    → IsPool (if b then s else t)
if-IsPool true s t yes_case no_case = yes_case refl
if-IsPool false s t yes_case no_case = no_case refl

-- A new connection has a descriptor that is not 0 and not in `fd_to_conn`.
abbrev pub IsFresh : Move → Pool → Type 0
IsFresh (accepts fd) s = (s.conns fd ≡ false) × ((fd == 0) ≡ false)
IsFresh (polls fd failed) s = Unit {0}
IsFresh takes s = Unit {0}
IsFresh (works fd answer) s = Unit {0}

abbrev pub Fresh : ℕ → List Move → Pool → Type 0
Fresh batch [] s = Unit {0}
Fresh batch (m ∷ moves) s = IsFresh m s × Fresh batch moves (move batch m s)

move-IsPool : (batch : ℕ) (m : Move) (s : Pool) → IsFresh m s → IsPool s → IsPool (move batch m s)
unfolding move
move-IsPool batch (accepts fd) s (new, real) v =
    add_inactive-IsPool fd _ (accept-IsLoose fd s new real v)
move-IsPool batch (polls fd failed) s fresh v =
    if-IsPool (s.registered fd) _ s (λ here. handle_poll_result-IsPool fd failed s here v) (λ h. v)
move-IsPool batch takes s fresh v = take_first-IsPool batch s.queue s refl v
move-IsPool batch (works fd answer) s fresh v =
    go_on-IsPool fd (find_work fd s.working) answer s refl v

run-IsPool :
    (batch : ℕ) (moves : List Move) (s : Pool)
    → Fresh batch moves s
    → IsPool s
    → IsPool (run batch moves s)
unfolding run
run-IsPool batch [] s fresh v = v
run-IsPool batch (m ∷ moves) s (fresh, more) v =
    run-IsPool batch moves (move batch m s) more (move-IsPool batch m s fresh v)

-- However the polling thread, the workers and new connections are interleaved, where each new
-- connection has a descriptor that is not 0 and not in `fd_to_conn` at the time, and polling
-- reports only what is registered, a connection in `fd_to_conn` is in exactly one place:
-- registered with the poll object, in the queue of active connections, or with one worker; a
-- descriptor that is not in it is in none.
pub run-places :
    (batch : ℕ) (moves : List Move) (fd : ℕ)
    → Fresh batch moves new_pool
    → places fd (run batch moves new_pool) ≡ one ((run batch moves new_pool).conns fd)
run-places batch moves fd fresh =
    (run-IsPool batch moves new_pool fresh (record { placed = λ g. refl; none_zero = refl })).placed
      fd
