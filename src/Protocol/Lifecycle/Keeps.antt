-- ===== src/Protocol/Lifecycle/Keeps.antt =====
-- Every operation keeps a connection well-formed whose `on_disconnect` does not raise.
use rpyc_async.Prelude.{ℕ, true, false, List, [], ◌∷◌, ◌≡◌, arith, sym, subst}
use rpyc_async.Outcome.{ok}
use rpyc_async.Protocol.Cleanup.{Connection, Service}
use rpyc_async.Protocol.Lifecycle.{
  hold, Farewell, say_goodbye, close, enable_asyncio_serving, add_close_callback, wait_closed,
  Event, happen, run,
}
use rpyc_async.Protocol.Lifecycle.Ends.{
  IsConnection, cleanup-Ended, unregister_reader-IsConnection, channel_close-IsConnection,
  disable-IsConnection, flag-IsConnection,
}
use rpyc_async.Protocol.Lifecycle.Steps.{Keeping, say_goodbye-keeps, close-open, happen-keeps}

count-IsConnection :
    (n : ℕ) (s : Connection) → IsConnection s → IsConnection (record s { closing = n })
count-IsConnection n s v = ground arith

enable-IsConnection : (s : Connection) → IsConnection s → IsConnection (enable_asyncio_serving s).1
unfolding enable_asyncio_serving
enable-IsConnection s v = ground arith

add_close_callback-IsConnection :
    (callback : ℕ) (s : Connection) → IsConnection s → IsConnection (add_close_callback callback s)
unfolding add_close_callback
add_close_callback-IsConnection callback s v = ground arith

wait_closed-IsConnection :
    (waiter : ℕ) (s : Connection) → IsConnection s → IsConnection (wait_closed waiter s)
unfolding wait_closed
wait_closed-IsConnection waiter s v = ground arith

hold-IsConnection :
    (objects proxies : List ℕ) (s : Connection)
    → IsConnection s
    → IsConnection (hold objects proxies s)
unfolding hold
hold-IsConnection objects proxies s v = ground arith

pub keeping-IsConnection : (c : Service) → c.on_disconnect ≡ ok tt → Keeping c IsConnection
keeping-IsConnection c polite = record {
  on_cleanup = λ s v. let (fine, gone, kept) = cleanup-Ended c s polite v in kept;
  on_unregister = unregister_reader-IsConnection;
  on_channel_close = channel_close-IsConnection;
  on_disable = disable-IsConnection;
  on_flag = flag-IsConnection;
  on_count = count-IsConnection;
  on_enable = enable-IsConnection;
  on_hold = hold-IsConnection;
  on_wait = wait_closed-IsConnection;
}

pub close-EndsWell :
    (c : Service) (f : Farewell) (s : Connection)
    → c.on_disconnect ≡ ok tt
    → IsConnection s
    → s.closed ≡ false
    → ((close c f s).1.root ≡ false) × IsConnection (close c f s).1
close-EndsWell c f s polite v opened =
    let t = record s { closed = true } in
    let (fine, gone, kept) = cleanup-Ended c (say_goodbye c f t).1 polite (
      say_goodbye-keeps c IsConnection (keeping-IsConnection c polite) f t
        (flag-IsConnection s v)) in
    subst (λ q. (q.root ≡ false) × IsConnection q) (sym (close-open c f s opened)) (gone, kept)

-- If on_disconnect does not raise, any events, boxing and unboxing at any time among them, keep
-- the following. The reader is on the event loop only while the stream is open and its close hook
-- takes the reader off. A connection with its root has its handlers, and on_disconnect was not
-- called; one without is closed, with its channel, holds no callbacks or waiters and no local
-- objects or proxies but those that were boxed and unboxed behind its end, and on_disconnect was
-- called once.
pub run-IsConnection :
    (c : Service) (events : List Event) (s : Connection)
    → c.on_disconnect ≡ ok tt
    → IsConnection s
    → IsConnection (run c events s)
unfolding run
run-IsConnection c [] s polite v = v
run-IsConnection c (e ∷ events) s polite v = run-IsConnection c events (happen c e s) polite (
    happen-keeps c IsConnection (keeping-IsConnection c polite) e s
      (λ callback same. add_close_callback-IsConnection callback s v) v)
