-- ===== src/Protocol/Lifecycle/Fires.antt =====
-- Which close callbacks are called, and how often.
use rpyc_async.Prelude.{
  ℕ, suc, ◌+◌, ◌==◌, true, List, [], ◌∷◌, ◌++◌, ◌≡◌, ◌≢◌, refl, arith, if◌then◌else◌, ◌&&◌, not,
  ◌∙◌,
}
use rpyc_async.Outcome.{ok}
use rpyc_async.Protocol.Cleanup.{
  Connection, Service, unregister_reader, channel_close, fire_close_notifications, tear_down,
  followed_by, cleanup, disable_asyncio_serving,
}
use rpyc_async.Protocol.Lifecycle.{
  hold, holds, enable_asyncio_serving, add_close_callback, wait_closed, Event, adds, waits,
  calls_close, calls_aclose, resumes, enables, readable, replies, happen, run,
}
use rpyc_async.Protocol.Lifecycle.Steps.{Keeping, followed_by-second, either-second, happen-keeps}

abbrev pub times : ℕ → List ℕ → ℕ
times callback [] = 0
times callback (x ∷ xs) = if x == callback then suc (times callback xs) else times callback xs

times-++ :
    (callback : ℕ) (l r : List ℕ) → times callback (l ++ r) ≡ times callback l + times callback r
times-++ callback [] r = omega arith
times-++ callback (x ∷ l) r = ground (arith, times-++ callback l r)

-- How often a callback was added.
abbrev pub added : ℕ → List Event → ℕ
added callback [] = 0
added callback (adds other ∷ events) =
    if other == callback then suc (added callback events) else added callback events
added callback (e ∷ events) = added callback events

-- The calls of a callback, and those still to come.
abbrev pub known : ℕ → Connection → ℕ
known callback s = times callback s.fired + times callback s.callbacks

module _ (callback n : ℕ) where
  fire-known :
      (s : Connection) → known callback s ≡ n → known callback (fire_close_notifications s) ≡ n
  unfolding fire_close_notifications
  fire-known s v = omega (arith, times-++ callback s.fired s.callbacks)

  channel_close-known :
      (s : Connection) → known callback s ≡ n → known callback (channel_close s) ≡ n
  unfolding channel_close unregister_reader
  channel_close-known s v = ground arith

  tear_down-known : (s : Connection) → known callback s ≡ n → known callback (tear_down s).1 ≡ n
  unfolding tear_down fire_close_notifications
  tear_down-known s v = ground (arith, times-++ callback s.fired s.callbacks)

  cleanup-known :
      (c : Service) (s : Connection)
      → known callback s ≡ n
      → known callback (cleanup c true s).1 ≡ n
  unfolding cleanup
  cleanup-known c s v =
      let t = record s { closed = true } in
      let s' = record (channel_close t) { disconnects = suc s.disconnects } in
      let reached = channel_close-known t v in
      let known_by = λ (q : Connection). known callback q ≡ n in
      either-second known_by (s.closed && not true) (ok tt, s)
        (if s.root
          then followed_by c.on_disconnect s' (tear_down s')
          else (ok tt, fire_close_notifications t))
        v
        (either-second known_by s.root (followed_by c.on_disconnect s' (tear_down s'))
          (ok tt, fire_close_notifications t)
          (followed_by-second known_by c.on_disconnect (tear_down s') reached
            (tear_down-known s' reached))
          (fire-known t v))

  pub keeping_known : (c : Service) → Keeping c (λ s. known callback s ≡ n)
  unfolding hold unregister_reader disable_asyncio_serving enable_asyncio_serving wait_closed
  keeping_known c = record {
    on_cleanup = cleanup-known c;
    on_unregister = λ s v. v;
    on_channel_close = channel_close-known;
    on_disable = λ s v. ground arith;
    on_flag = λ s v. v;
    on_count = λ m s v. v;
    on_enable = λ s v. ground arith;
    on_hold = λ objects proxies s v. v;
    on_wait = λ waiter s v. ground arith;
  }

add-known :
    (callback other n : ℕ) (s : Connection)
    → known callback s ≡ n
    → known callback (add_close_callback other s) ≡ (if other == callback then suc n else n)
unfolding add_close_callback
add-known callback other n s v =
    ground
      (arith, times-++ callback s.fired (other ∷ []), times-++ callback s.callbacks (other ∷ []))

others :
    (c : Service) (callback : ℕ) (e : Event) (s : Connection)
    → ((other : ℕ) → e ≢ adds other)
    → known callback (happen c e s) ≡ known callback s + 0
others c callback e s quiet =
    let kept =
      happen-keeps c (λ q. known callback q ≡ known callback s)
        (keeping_known callback (known callback s) c) e s
        (λ other same. elim (quiet other same) [ ]) refl in
    omega (arith, kept)

added-∷ :
    (callback : ℕ) (e : Event) (events : List Event)
    → added callback (e ∷ events) ≡ added callback (e ∷ []) + added callback events
added-∷ callback (adds other) events = ground arith
added-∷ callback (waits waiter) events = omega arith
added-∷ callback (calls_close f) events = omega arith
added-∷ callback (calls_aclose f) events = omega arith
added-∷ callback resumes events = omega arith
added-∷ callback enables events = omega arith
added-∷ callback (readable f chunk) events = omega arith
added-∷ callback (replies sends) events = omega arith
added-∷ callback (holds objects proxies) events = omega arith

happen-known :
    (c : Service) (callback : ℕ) (e : Event) (s : Connection)
    → known callback (happen c e s) ≡ known callback s + added callback (e ∷ [])
unfolding happen
happen-known c callback (adds other) s =
    add-known callback other (known callback s) s refl ∙ ground arith
happen-known c callback (waits waiter) s = others c callback (waits waiter) s (λ o same. cc)
happen-known c callback (calls_close f) s = others c callback (calls_close f) s (λ o same. cc)
happen-known c callback (calls_aclose f) s = others c callback (calls_aclose f) s (λ o same. cc)
happen-known c callback resumes s = others c callback resumes s (λ o same. cc)
happen-known c callback enables s = others c callback enables s (λ o same. cc)
happen-known c callback (readable f chunk) s = others c callback (readable f chunk) s (λ o same. cc)
happen-known c callback (holds objects proxies) s =
    others c callback (holds objects proxies) s (λ o same. cc)
happen-known c callback (replies sends) s = others c callback (replies sends) s (λ o same. cc)

-- The number of calls of a callback, past and due, grows with its additions alone.
pub run-known :
    (c : Service) (callback : ℕ) (events : List Event) (s : Connection)
    → known callback (run c events s) ≡ known callback s + added callback events
unfolding run
run-known c callback [] s = omega arith
run-known c callback (e ∷ events) s =
    let rest = run-known c callback events (happen c e s) in
    let first = happen-known c callback e s in
    let split = added-∷ callback e events in omega (arith, rest, first, split)
