-- ===== src/Servers/Sockets/Tracked.antt =====
-- The sockets that `clients` holds, and those that outlive the server.
use rpyc_async.Prelude.{ℕ, Bool, true, false, ◌≡◌, ◌≤◌}
use rpyc_async.Outcome.{Outcome}
use rpyc_async.Servers.Sockets.{
  Life, absent, accepted, passed, dropped, served, late, finished, Server,
}

-- What holds of a socket in a life: whether it is up and whether `clients` holds it, where
-- `emptied` says that a call of `close` has been through the clients.
abbrev pub Fits : Bool → Life → Bool → Bool → Type 0
Fits emptied absent opened client = (opened ≡ false) × (client ≡ false)
Fits emptied accepted opened client = (opened ≡ true) × (client ≡ false)
Fits emptied passed opened client = (opened ≡ true) × (client ≡ false)
Fits emptied dropped opened client = (opened ≡ true) × (client ≡ false)
Fits false served opened client = client ≡ true
Fits true served opened client = opened ≡ false
Fits emptied late opened client = Unit {0}
Fits emptied finished opened client = (opened ≡ false) × (client ≡ false)

record IsServer (s : Server) : Type 0 where
  fits : (i : ℕ) → Fits s.emptied (s.lives i) (s.is_up i) (s.clients i)
  fresh : (i : ℕ) → s.next_socket ≤ i → s.lives i ≡ absent
  emptied_closing : s.emptied ≡ true → s.closing ≡ true
