-- ===== src/Protocol/Lifecycle/Ends.antt =====
-- The end of a connection whose `on_disconnect` does not raise.
use rpyc_async.Prelude.{
  suc, Bool, true, false, [], ◌≡◌, refl, arith, Bool-cases, inl, inr, if◌then◌else◌, ◌&&◌, not, ap,
  sym, ◌∙◌, subst,
}
use rpyc_async.Outcome.{Outcome, ok}
use rpyc_async.Protocol.Cleanup.{
  Connection, Service, unregister_reader, channel_close, fire_close_notifications, tear_down,
  followed_by, cleanup, disable_asyncio_serving,
}

-- Before the end the handlers are there, and `on_disconnect` was not called.
abbrev pub Live : Connection → Type 0
Live s = (s.handlers ≡ true) × (s.disconnects ≡ 0) × (s.late_objects ≡ []) × (s.late_proxies ≡ [])

-- After it only what was boxed later is held and nobody waits; `on_disconnect` was called once.
abbrev pub Ended : Connection → Type 0
Ended s =
    (s.closed ≡ true)
    × (s.callbacks ≡ [])
    × (s.waiters ≡ [])
    × (s.local_objects ≡ s.late_objects)
    × (s.proxies ≡ s.late_proxies)
    × (s.channel_closed ≡ true)
    × (s.handlers ≡ false)
    × (s.disconnects ≡ 1)

-- The reader is on the loop only while the stream is open and would take it off.
abbrev pub IsConnection : Connection → Type 0
IsConnection s =
    (s.reader ≡ true → s.hooked ≡ true)
    × (s.channel_closed ≡ true → s.reader ≡ false)
    × (s.root ≡ true → Live s)
    × (s.root ≡ false → Ended s)

pub unregister_reader-IsConnection :
    (s : Connection) → IsConnection s → IsConnection (unregister_reader s)
unfolding unregister_reader
unregister_reader-IsConnection s v = ground arith

pub channel_close-IsConnection : (s : Connection) → IsConnection s → IsConnection (channel_close s)
unfolding channel_close unregister_reader
channel_close-IsConnection s v = ground arith

-- Past `on_disconnect` the connection ends.
tear_down-Ended :
    (s : Connection)
    → s.closed ≡ true
    → s.channel_closed ≡ true
    → s.reader ≡ false
    → s.handlers ≡ true
    → s.disconnects ≡ 1
    → s.late_objects ≡ []
    → s.late_proxies ≡ []
    → ((tear_down s).0 ≡ ok tt) × ((tear_down s).1.root ≡ false) × IsConnection (tear_down s).1
unfolding tear_down fire_close_notifications
tear_down-Ended s closed channel reader handlers once objects proxies = ground arith

fire-Ended :
    (s : Connection)
    → s.root ≡ false
    → IsConnection s
    → IsConnection (fire_close_notifications (record s { closed = true }))
unfolding fire_close_notifications
fire-Ended s gone v = ground arith

anyway_picks {ℓ} :
    {A : Type ℓ} (b r : Bool) (x y z : A)
    → (if b && not true then x else if r then y else z) ≡ (if r then y else z)
anyway_picks true r x y z = refl
anyway_picks false r x y z = refl

abbrev at_disconnect : Connection → Connection
at_disconnect s = record (channel_close (record s { closed = true })) {
  disconnects = suc s.disconnects;
}

pub cleanup-live :
    (c : Service) (s : Connection)
    → s.root ≡ true
    → cleanup c true s ≡ followed_by c.on_disconnect (at_disconnect s) (tear_down (at_disconnect s))
unfolding cleanup
cleanup-live c s alive =
    anyway_picks s.closed s.root (ok tt, s)
      (followed_by c.on_disconnect (at_disconnect s) (tear_down (at_disconnect s)))
      (ok tt, fire_close_notifications (record s { closed = true }))
    ∙ ap
        (λ b.
          if b
          then followed_by c.on_disconnect (at_disconnect s) (tear_down (at_disconnect s))
          else (ok tt, fire_close_notifications (record s { closed = true })))
        alive

pub cleanup-gone :
    (c : Service) (s : Connection)
    → s.root ≡ false
    → cleanup c true s ≡ (ok tt, fire_close_notifications (record s { closed = true }))
unfolding cleanup
cleanup-gone c s gone =
    anyway_picks s.closed s.root (ok tt, s)
      (followed_by c.on_disconnect (at_disconnect s) (tear_down (at_disconnect s)))
      (ok tt, fire_close_notifications (record s { closed = true }))
    ∙ ap
        (λ b.
          if b
          then followed_by c.on_disconnect (at_disconnect s) (tear_down (at_disconnect s))
          else (ok tt, fire_close_notifications (record s { closed = true })))
        gone

at_disconnect-fields :
    (s : Connection)
    → IsConnection s
    → s.root ≡ true
    → ((at_disconnect s).closed ≡ true)
      × ((at_disconnect s).channel_closed ≡ true)
      × ((at_disconnect s).reader ≡ false)
      × ((at_disconnect s).handlers ≡ true)
      × ((at_disconnect s).disconnects ≡ 1)
      × ((at_disconnect s).late_objects ≡ [])
      × ((at_disconnect s).late_proxies ≡ [])
unfolding channel_close unregister_reader
at_disconnect-fields s v alive = ground arith

abbrev pub EndsWell : Outcome (Unit {0}) × Connection → Type 0
EndsWell r = (r.0 ≡ ok tt) × (r.1.root ≡ false) × IsConnection r.1

pub cleanup-Ended :
    (c : Service) (s : Connection)
    → c.on_disconnect ≡ ok tt
    → IsConnection s
    → EndsWell (cleanup c true s)
unfolding followed_by fire_close_notifications
cleanup-Ended c s polite v = elim (Bool-cases s.root) [
  | inl alive ↦
      let (closed, channel, reader, handlers, once, objects, proxies) =
        at_disconnect-fields s v alive in
      let s' = at_disconnect s in
      let next : cleanup c true s ≡ tear_down s' =
        cleanup-live c s alive ∙ ap (λ o. followed_by o s' (tear_down s')) polite in
      subst EndsWell (sym next)
        (tear_down-Ended s' closed channel reader handlers once objects proxies)
  | inr gone ↦ subst EndsWell (sym (cleanup-gone c s gone)) (refl, gone, fire-Ended s gone v)
]

pub disable-IsConnection :
    (s : Connection) → IsConnection s → IsConnection (disable_asyncio_serving s)
unfolding disable_asyncio_serving unregister_reader
disable-IsConnection s v = ground arith

-- The flag alone breaks nothing.
pub flag-IsConnection :
    (s : Connection) → IsConnection s → IsConnection (record s { closed = true })
flag-IsConnection s v = ground arith
