-- ===== src/Witnesses/Lifecycle.antt =====
-- A connection that is served, closed by its peer, and one whose reply cannot be sent.
use rpyc_async.Prelude.{ℕ, List, ◌++◌, ◌≡◌, refl, [], ◌∷◌, false, true, ◌+◌, ℕ_eq}
use rpyc_async.Outcome.{ok, raise, eof_error}
use rpyc_async.Protocol.Dispatch.{Inbound}
use rpyc_async.Protocol.Cleanup.{Connection, Service, new_connection}
use rpyc_async.Protocol.Lifecycle.{
  Farewell, close, send_async_result_safe, serves, end_of_stream, carries, Event, adds, waits,
  calls_close, calls_aclose, resumes, enables, readable, run,
}
use rpyc_async.Protocol.Lifecycle.Ends.{IsConnection}
use rpyc_async.Protocol.Lifecycle.Fires.{times, added}
use rpyc_async.Protocol.Lifecycle.Abandoned.{Stuck}
use rpyc_async.Protocol.Lifecycle.Keeps
use rpyc_async.Protocol.Lifecycle.Once
use rpyc_async.Protocol.Lifecycle.Abandoned

abbrev inbound : Inbound
inbound = record {
  inflight = 1;
  scheduled = 0;
  quarantined = false;
  cancelled = 0;
  served = 0;
  callbacks = (3, 4) ∷ [];
  next_seq = 4;
  called = [];
}

abbrev service : Service
service = record { close_catchall = false; before_closed = ok tt; on_disconnect = ok tt }

abbrev crossing : Farewell
crossing = record { deletions = ok tt; request = raise eof_error; crosses = true }

abbrev before : List Event
before =
    adds 7
    ∷ enables
    ∷ waits 5
    ∷ calls_aclose crossing
    ∷ readable crossing (carries (serves [] [] ∷ []))
    ∷ []

abbrev after : List Event
after = adds 7 ∷ resumes ∷ readable crossing end_of_stream ∷ adds 8 ∷ []

abbrev served : Connection
served = run service (adds 7 ∷ enables ∷ waits 5 ∷ []) (new_connection inbound)

run-IsConnection_example : IsConnection (run service (before ++ after) (new_connection inbound))
run-IsConnection_example =
    Keeps.run-IsConnection service (before ++ after) (new_connection inbound) refl
      (Once.new-IsConnection inbound)

close-fires_example :
    let s =
      run service after (close service crossing (run service before (new_connection inbound))).1 in
    (times 7 s.fired ≡ added 7 before + added 7 after)
    × (s.callbacks ≡ [])
    × (s.waiters ≡ [])
    × (s.disconnects ≡ 1)
unfolding run
close-fires_example = Once.close-fires service inbound 7 before after crossing refl refl

run-abandoned_example :
    Stuck (7 ∷ []) (5 ∷ []) 0 (
      run service
        (calls_close crossing ∷ calls_aclose crossing ∷ readable crossing end_of_stream ∷ [])
        (send_async_result_safe false served))
    × (more : List ℕ) × ((run service
          (calls_close crossing ∷ calls_aclose crossing ∷ readable crossing end_of_stream ∷ [])
          (send_async_result_safe false served)).local_objects
        ≡ more ++ served.local_objects)
unfolding run
run-abandoned_example =
    Abandoned.run-abandoned service
      (calls_close crossing ∷ calls_aclose crossing ∷ readable crossing end_of_stream ∷ []) served
      refl refl refl
