-- ===== src/Protocol/Lifecycle/Abandoned.antt =====
-- A reply that cannot be sent closes the connection without ending it.
use rpyc_async.Prelude.{
  ℕ, ltb, Bool, ◌++◌, append_assoc, refl, ◌∙◌, true, false, List, [], ◌∷◌, ◌≡◌, arith, ◌||◌,
  if◌then◌else◌, not, ap, sym, subst,
}
use rpyc_async.Protocol.Cleanup.{Connection, Service, unregister_reader, channel_close}
use rpyc_async.Protocol.Lifecycle.{
  Farewell, aclose, resume_aclose, Chunk, receive, on_readable, enable_asyncio_serving,
  send_async_result_safe, add_close_callback, wait_closed, Event, adds, waits, calls_close,
  calls_aclose, resumes, enables, readable, replies, hold, holds, happen, run,
}
use rpyc_async.Protocol.Lifecycle.Steps.{close-closed, if-true-second, if-false-second}

-- Closed, with all that an end would release.
abbrev pub Stuck : List ℕ → List ℕ → ℕ → Connection → Type 0
Stuck callbacks waiters disconnects s =
    (s.closed ≡ true)
    × (s.root ≡ true)
    × (s.callbacks ≡ callbacks)
    × (s.waiters ≡ waiters)
    × (s.disconnects ≡ disconnects)
    × (s.closing ≡ 0)

module _ (callbacks waiters : List ℕ) (n : ℕ) (c : Service) where
  abbrev IsStuck : Connection → Type 0
  IsStuck s = Stuck callbacks waiters n s

  aclose-closed : (f : Farewell) (s : Connection) → s.closed ≡ true → (aclose c f s).1 ≡ s
  unfolding aclose
  aclose-closed f s shut = if-true-second s.closed _ _ shut

  resume_aclose-none : (s : Connection) → s.closing ≡ 0 → (resume_aclose c s).1 ≡ s
  unfolding resume_aclose
  resume_aclose-none s none_left = if-false-second (ltb 0 s.closing) _ _ (ap (ltb 0) none_left)

  on_readable-closed :
      (f : Farewell) (chunk : Chunk) (s : Connection)
      → s.closed ≡ true
      → on_readable c f chunk s ≡ (if not s.reader then s else unregister_reader s)
  unfolding on_readable
  on_readable-closed f chunk s shut =
      ap
        (λ b.
          if not s.reader
          then s
          else if b || s.channel_closed
          then unregister_reader s
          else receive c f chunk s)
        shut

  disarm-IsStuck :
      (s : Connection) → IsStuck s → IsStuck (if not s.reader then s else unregister_reader s)
  unfolding unregister_reader
  disarm-IsStuck s v = ground arith

  happen-IsStuck : (e : Event) (s : Connection) → IsStuck s → IsStuck (happen c e s)
  unfolding happen add_close_callback wait_closed enable_asyncio_serving send_async_result_safe
  happen-IsStuck (adds callback) s v = ground arith
  happen-IsStuck (waits waiter) s v = ground arith
  happen-IsStuck (calls_close f) s v = subst IsStuck (sym (close-closed c f s v.0)) v
  happen-IsStuck (calls_aclose f) s v = subst IsStuck (sym (aclose-closed f s v.0)) v
  happen-IsStuck resumes s v =
      let (shut, root, cb, w, d, none_left) = v in
      subst IsStuck (sym (resume_aclose-none s none_left)) v
  happen-IsStuck enables s v = ground arith
  happen-IsStuck (readable f chunk) s v =
      subst IsStuck (sym (on_readable-closed f chunk s v.0)) (disarm-IsStuck s v)
  happen-IsStuck (replies sends) s v = ground arith
  happen-IsStuck (holds objects proxies) s v = v

  unregister-objects :
      (b : Bool) (s : Connection)
      → (if b then s else unregister_reader s).local_objects ≡ s.local_objects
  unfolding unregister_reader
  unregister-objects true s = refl
  unregister-objects false s = refl

  send-objects :
      (sends : Bool) (s : Connection)
      → (send_async_result_safe sends s).local_objects ≡ s.local_objects
  unfolding send_async_result_safe channel_close unregister_reader
  send-objects sends s = ground arith

  -- A closed connection releases no object.
  happen-objects :
      (e : Event) (s : Connection)
      → IsStuck s
      → (more : List ℕ) × ((happen c e s).local_objects ≡ more ++ s.local_objects)
  unfolding happen hold add_close_callback wait_closed enable_asyncio_serving
  happen-objects (adds callback) s v = ([], ground arith)
  happen-objects (waits waiter) s v = ([], ground arith)
  happen-objects (calls_close f) s v = ([], ap (λ t. t.local_objects) (close-closed c f s v.0))
  happen-objects (calls_aclose f) s v = ([], ap (λ t. t.local_objects) (aclose-closed f s v.0))
  happen-objects resumes s v =
      let (shut, root, cb, w, d, none_left) = v in
      ([], ap (λ t. t.local_objects) (resume_aclose-none s none_left))
  happen-objects enables s v = ([], ground arith)
  happen-objects (readable f chunk) s v = (
    [],
    ap (λ t. t.local_objects) (on_readable-closed f chunk s v.0)
        ∙ unregister-objects (not s.reader) s,
  )
  happen-objects (replies sends) s v = ([], send-objects sends s)
  happen-objects (holds objects proxies) s v = (objects, refl)

  append_both : (a b l m n : List ℕ) → m ≡ a ++ l → n ≡ b ++ m → n ≡ (b ++ a) ++ l
  append_both a b l m n first second = second ∙ (ap (λ x. b ++ x) first ∙ sym (append_assoc b a l))

  run-objects :
      (events : List Event) (s : Connection)
      → IsStuck s
      → (more : List ℕ) × ((run c events s).local_objects ≡ more ++ s.local_objects)
  unfolding run
  run-objects [] s v = ([], refl)
  run-objects (e ∷ events) s v =
      let (first, same) = happen-objects e s v in
      let (later, same') = run-objects events (happen c e s) (happen-IsStuck e s v) in
      (later ++ first, append_both first later s.local_objects _ _ same same')

  run-IsStuck : (events : List Event) (s : Connection) → IsStuck s → IsStuck (run c events s)
  unfolding run
  run-IsStuck [] s v = v
  run-IsStuck (e ∷ events) s v = run-IsStuck events (happen c e s) (happen-IsStuck e s v)

failed_reply-Stuck :
    (s : Connection)
    → s.closed ≡ false
    → s.root ≡ true
    → s.closing ≡ 0
    → Stuck s.callbacks s.waiters s.disconnects (send_async_result_safe false s)
unfolding send_async_result_safe channel_close unregister_reader
failed_reply-Stuck s opened alive none_left = ground arith

-- When an asynchronous reply cannot be sent on an open connection with its root, for which no
-- aclose waits, then after any later events, calls of close and aclose and input among them, the
-- connection is closed but still has its root, all its local objects, its close callbacks and its
-- waiters, and on_disconnect was not called again.
pub run-abandoned :
    (c : Service) (events : List Event) (s : Connection)
    → s.closed ≡ false
    → s.root ≡ true
    → s.closing ≡ 0
    → Stuck s.callbacks s.waiters s.disconnects (run c events (send_async_result_safe false s))
      × (more : List ℕ) × ((run c events (send_async_result_safe false s)).local_objects
          ≡ more ++ s.local_objects)
run-abandoned c events s opened alive none_left =
    let stuck = failed_reply-Stuck s opened alive none_left in
    let (more, all) =
      run-objects s.callbacks s.waiters s.disconnects c events (send_async_result_safe false s)
        stuck in
    (
      run-IsStuck s.callbacks s.waiters s.disconnects c events (send_async_result_safe false s)
          stuck,
      more,
      all ∙ ap (λ l. more ++ l) (send-objects s.callbacks s.waiters s.disconnects c false s),
    )
