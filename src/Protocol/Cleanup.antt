-- ===== src/Protocol/Cleanup.antt =====
-- The state of a connection that can end, and `_cleanup`. Threads, locks and the logger are left
-- out; event loops stay open.
use rpyc_async.Prelude.{ℕ, suc, Bool, true, false, ◌&&◌, not, List, [], ◌++◌, if◌then◌else◌}
use rpyc_async.Outcome.{attribute_error, Outcome, ok, raise, out_of_fuel}
use rpyc_async.Protocol.Dispatch.{Inbound, drain}

-- `root` says that `_local_root` is not None, `handlers` that `_HANDLERS` is there, `reader` that the
-- loop calls `on_readable`, `hooked` that the stream's close callback is `_unregister_reader`.
-- `fired` are the calls of close callbacks so far, `resolved` the calls of `wait_closed` that
-- returned, `disconnects` counts the calls of `on_disconnect`, `closing` those of `aclose` that wait.
-- `late_objects` and `late_proxies` are what was boxed and unboxed behind the end.
pub record Connection : Type 0 where
  pub closed : Bool
  pub root : Bool
  pub handlers : Bool
  pub asyncio_enabled : Bool
  pub reader : Bool
  pub hooked : Bool
  pub channel_closed : Bool
  pub callbacks : List ℕ
  pub waiters : List ℕ
  pub fired : List ℕ
  pub resolved : List ℕ
  pub disconnects : ℕ
  pub local_objects : List ℕ
  pub proxies : List ℕ
  pub late_objects : List ℕ
  pub late_proxies : List ℕ
  pub closing : ℕ
  pub inbound : Inbound

-- The hooks of the service and the configuration. `before_closed` is called if it is given.
pub record Service : Type 0 where
  pub close_catchall : Bool
  pub before_closed : Outcome (Unit {0})
  pub on_disconnect : Outcome (Unit {0})

unfoldable pub unregister_reader : Connection → Connection
unregister_reader s = record s { reader = false }

-- `SocketStream.close`: the hook first, once.
unfoldable pub channel_close : Connection → Connection
unfolding unregister_reader
channel_close s = record (if s.hooked then unregister_reader s else s) {
  hooked = false;
  channel_closed = true;
}

unfoldable pub fire_close_notifications : Connection → Connection
fire_close_notifications s = record s {
  callbacks = [];
  waiters = [];
  fired = s.fired ++ s.callbacks;
  resolved = s.resolved ++ s.waiters;
}

-- `_cleanup` after `on_disconnect`. The second deletion of `_HANDLERS` would raise.
unfoldable pub tear_down : Connection → Outcome (Unit {0}) × Connection
unfolding drain fire_close_notifications
tear_down s =
    let s' = record s {
      inbound = record (drain s.inbound) { callbacks = [] };
      local_objects = [];
      proxies = [];
      root = false;
    } in
    if s.handlers
    then (ok tt, fire_close_notifications (record s' { handlers = false }))
    else (raise attribute_error, s')

-- What follows a call that may raise.
unfoldable pub followed_by :
    Outcome (Unit {0})
    → Connection
    → Outcome (Unit {0}) × Connection
    → Outcome (Unit {0}) × Connection
followed_by (ok u) s next = next
followed_by (raise e) s next = (raise e, s)
followed_by out_of_fuel s next = (out_of_fuel, s)

unfoldable pub cleanup : Service → Bool → Connection → Outcome (Unit {0}) × Connection
unfolding channel_close fire_close_notifications followed_by tear_down
cleanup c anyway s =
    if s.closed && not anyway
    then (ok tt, s)
    else if s.root
    then (let s' = record (channel_close (record s { closed = true })) {
      disconnects = suc s.disconnects;
    } in
        followed_by c.on_disconnect s' (tear_down s'))
    else (ok tt, fire_close_notifications (record s { closed = true }))

unfoldable pub disable_asyncio_serving : Connection → Connection
unfolding unregister_reader
disable_asyncio_serving s =
    if s.asyncio_enabled
    then record (unregister_reader s) { hooked = false; asyncio_enabled = false }
    else s

-- `Connection.__init__`, before the connection is served.
abbrev pub new_connection : Inbound → Connection
new_connection inbound = record {
  closed = false;
  root = true;
  handlers = true;
  asyncio_enabled = false;
  reader = false;
  hooked = false;
  channel_closed = false;
  callbacks = [];
  waiters = [];
  fired = [];
  resolved = [];
  disconnects = 0;
  local_objects = [];
  proxies = [];
  late_objects = [];
  late_proxies = [];
  closing = 0;
  inbound = inbound;
}
