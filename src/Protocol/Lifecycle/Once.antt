-- ===== src/Protocol/Lifecycle/Once.antt =====
-- An orderly end calls every close callback once.
use rpyc_async.Prelude.{ℕ, ◌+◌, false, List, [], ◌∷◌, ◌≡◌, refl, arith, ap}
use rpyc_async.Outcome.{ok}
use rpyc_async.Protocol.Dispatch.{Inbound}
use rpyc_async.Protocol.Cleanup.{
  new_connection, Connection, Service, unregister_reader, channel_close, disable_asyncio_serving,
}
use rpyc_async.Protocol.Lifecycle.{
  hold, Farewell, close, enable_asyncio_serving, add_close_callback, wait_closed, Event, happen,
  run,
}
use rpyc_async.Protocol.Lifecycle.Fires.{times, added, known, keeping_known, run-known}
use rpyc_async.Protocol.Lifecycle.Steps.{close-keeps, Keeping, happen-keeps}
use rpyc_async.Protocol.Lifecycle.Ends.{IsConnection, cleanup-Ended}
use rpyc_async.Protocol.Lifecycle.Keeps.{keeping-IsConnection, close-EndsWell, run-IsConnection}

-- Once it has ended, a connection stays so.
abbrev HasEnded : Connection → Type 0
HasEnded s = (s.root ≡ false) × IsConnection s

keeping-HasEnded : (c : Service) → c.on_disconnect ≡ ok tt → Keeping c HasEnded
unfolding hold unregister_reader channel_close disable_asyncio_serving enable_asyncio_serving
    wait_closed
keeping-HasEnded c polite =
    let k = keeping-IsConnection c polite in
    record {
      on_cleanup = λ s v. let (fine, gone, kept) = cleanup-Ended c s polite v.1 in (gone, kept);
      on_unregister = λ s v. (v.0, k.on_unregister s v.1);
      on_channel_close = λ s v. (ground (arith, v.0), k.on_channel_close s v.1);
      on_disable = λ s v. (ground (arith, v.0), k.on_disable s v.1);
      on_flag = λ s v. (v.0, k.on_flag s v.1);
      on_count = λ n s v. (v.0, k.on_count n s v.1);
      on_enable = λ s v. (ground (arith, v.0), k.on_enable s v.1);
      on_hold = λ objects proxies s v. (v.0, k.on_hold objects proxies s v.1);
      on_wait = λ waiter s v. (ground (arith, v.0), k.on_wait waiter s v.1);
    }

add-HasEnded :
    (callback : ℕ) (s : Connection) → HasEnded s → HasEnded (add_close_callback callback s)
unfolding add_close_callback
add-HasEnded callback s v = ground arith

run-HasEnded :
    (c : Service) (events : List Event) (s : Connection)
    → c.on_disconnect ≡ ok tt
    → HasEnded s
    → HasEnded (run c events s)
unfolding run
run-HasEnded c [] s polite v = v
run-HasEnded c (e ∷ events) s polite v = run-HasEnded c events (happen c e s) polite (
    happen-keeps c HasEnded (keeping-HasEnded c polite) e s
      (λ callback same. add-HasEnded callback s v) v)

pub new-IsConnection : (inbound : Inbound) → IsConnection (new_connection inbound)
new-IsConnection inbound = ground arith

ended-known :
    (callback : ℕ) (s : Connection)
    → HasEnded s
    → (times callback s.fired ≡ known callback s)
      × (s.callbacks ≡ [])
      × (s.waiters ≡ [])
      × (s.disconnects ≡ 1)
ended-known callback s (gone, (hooked, off, live, ended)) =
    let (closed, none_left, nobody, objects, proxies, channel, handlers, once) = ended gone in
    (omega (arith, ap (times callback) none_left), none_left, nobody, once)

close-adds_none :
    (c : Service) (f : Farewell) (callback : ℕ) (s : Connection)
    → known callback (close c f s).1 ≡ known callback s
close-adds_none c f callback s =
    close-keeps c (λ q. known callback q ≡ known callback s)
      (keeping_known callback (known callback s) c) f s refl

-- When close is called on a connection that is not closed, after any events and before any others,
-- and on_disconnect does not raise, every close callback has been called as often as it was added,
-- before the end or after it, no waiter is left, and on_disconnect was called once. The calls that
-- close makes may fail, the peer may close at the same time, and calls of aclose may be waiting.
pub close-fires :
    (c : Service) (inbound : Inbound) (callback : ℕ) (before after : List Event) (f : Farewell)
    → c.on_disconnect ≡ ok tt
    → (run c before (new_connection inbound)).closed ≡ false
    → let s = run c after (close c f (run c before (new_connection inbound))).1 in
      (times callback s.fired ≡ added callback before + added callback after)
      × (s.callbacks ≡ [])
      × (s.waiters ≡ [])
      × (s.disconnects ≡ 1)
close-fires c inbound callback before after f polite opened =
    let s1 = run c before (new_connection inbound) in
    let s2 = (close c f s1).1 in
    let (ended, kept) =
      close-EndsWell c f s1 polite
        (run-IsConnection c before (new_connection inbound) polite (new-IsConnection inbound))
        opened in
    let (all, none_left, nobody, once) =
      ended-known callback (run c after s2) (run-HasEnded c after s2 polite (ended, kept)) in
    let first = run-known c callback before (new_connection inbound) in
    let second = close-adds_none c f callback s1 in
    let third = run-known c callback after s2 in
    (omega (arith, all, first, second, third), none_left, nobody, once)
