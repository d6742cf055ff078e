-- ===== src/Protocol/Lifecycle/Steps.antt =====
-- What is kept by the parts of a connection's operations is kept by the operations.
use rpyc_async.Prelude.{
  ℕ, suc, ◌-◌, ltb, Bool, true, false, List, [], ◌∷◌, ◌≡◌, refl, ◌||◌, Bool-cases, inl, inr,
  if◌then◌else◌, not, sym, subst,
}
use rpyc_async.Outcome.{
  Exc, type_error, value_error, struct_error, unicode_error, attribute_error, key_error,
  runtime_error, eof_error, timeout_error, os_error, system_exit, keyboard_interrupt, Outcome, ok,
  raise, out_of_fuel,
}
use rpyc_async.Protocol.Cleanup.{
  Connection, Service, unregister_reader, channel_close, followed_by, cleanup,
  disable_asyncio_serving,
}
use rpyc_async.Protocol.Lifecycle.{
  swallows, Farewell, say_goodbye, close, after_error, ask_aclose, aclose, resume_aclose,
  close_and_remove_reader, Frame, closes, dies, serves, hold, holds, dispatch_frames, Chunk,
  hard_error, nothing, end_of_stream, carries, receive, on_readable, enable_asyncio_serving,
  send_async_result_safe, add_close_callback, wait_closed, Event, adds, waits, calls_close,
  calls_aclose, resumes, enables, readable, replies, happen,
}

module _ {A B : Type 0} where
  pub if-false-second : (b : Bool) (x y : A × B) → b ≡ false → (if b then x else y).1 ≡ y.1
  if-false-second true x y e = cc
  if-false-second false x y e = refl

  pub if-true-second : (b : Bool) (x y : A × B) → b ≡ true → (if b then x else y).1 ≡ x.1
  if-true-second true x y e = refl
  if-true-second false x y e = cc

module _ {ℓ} (P : Connection → Type ℓ) where
  pub followed_by-second :
      (o : Outcome (Unit {0})) {s : Connection} (next : Outcome (Unit {0}) × Connection)
      → P s
      → P next.1
      → P (followed_by o s next).1
  unfolding followed_by
  followed_by-second (ok u) next first second = second
  followed_by-second (raise e) next first second = first
  followed_by-second out_of_fuel next first second = first

  pub either-second :
      (b : Bool) (x y : Outcome (Unit {0}) × Connection) → P x.1 → P y.1 → P (if b then x else y).1
  either-second true x y first second = first
  either-second false x y first second = second

  pub if-either : (b : Bool) {s t : Connection} → P s → P t → P (if b then s else t)
  if-either true first second = first
  if-either false first second = second

-- A predicate that each part keeps.
pub record Keeping {ℓ} (c : Service) (P : Connection → Type ℓ) : Type ℓ where
  pub on_cleanup : (s : Connection) → P s → P (cleanup c true s).1
  pub on_unregister : (s : Connection) → P s → P (unregister_reader s)
  pub on_channel_close : (s : Connection) → P s → P (channel_close s)
  pub on_disable : (s : Connection) → P s → P (disable_asyncio_serving s)
  pub on_flag : (s : Connection) → P s → P (record s { closed = true })
  pub on_count : (n : ℕ) (s : Connection) → P s → P (record s { closing = n })
  pub on_enable : (s : Connection) → P s → P (enable_asyncio_serving s).1
  pub on_hold : (objects proxies : List ℕ) (s : Connection) → P s → P (hold objects proxies s)
  pub on_wait : (waiter : ℕ) (s : Connection) → P s → P (wait_closed waiter s)

pub close-open :
    (c : Service) (f : Farewell) (s : Connection)
    → s.closed ≡ false
    → (close c f s).1 ≡ (cleanup c true (say_goodbye c f (record s { closed = true })).1).1
unfolding close
close-open c f s opened = if-false-second s.closed _ _ opened

pub close-closed :
    (c : Service) (f : Farewell) (s : Connection) → s.closed ≡ true → (close c f s).1 ≡ s
unfolding close
close-closed c f s shut = if-true-second s.closed _ _ shut

module _ {ℓ} (c : Service) (P : Connection → Type ℓ) (k : Keeping c P) where
  pub say_goodbye-keeps : (f : Farewell) (s : Connection) → P s → P (say_goodbye c f s).1
  unfolding say_goodbye
  say_goodbye-keeps f s v =
      let s1 = disable_asyncio_serving s in
      let kept = k.on_disable s v in
      let s2 = if f.crosses then (cleanup c true s1).1 else s1 in
      followed_by-second P f.deletions (followed_by c.before_closed s1 (f.request, s2)) v (
        followed_by-second P c.before_closed (f.request, s2) kept
          (if-either P f.crosses (k.on_cleanup s1 kept) kept))

  pub close-keeps : (f : Farewell) (s : Connection) → P s → P (close c f s).1
  close-keeps f s v = elim (Bool-cases s.closed) [
    | inl shut ↦ subst P (sym (close-closed c f s shut)) v
    | inr opened ↦
        let t = record s { closed = true } in
        subst P (sym (close-open c f s opened))
          (k.on_cleanup (say_goodbye c f t).1 (say_goodbye-keeps f t (k.on_flag s v)))
  ]

  resume_aclose-keeps : (s : Connection) → P s → P (resume_aclose c s).1
  unfolding resume_aclose
  resume_aclose-keeps s v =
      let t = record s { closing = s.closing - 1; closed = true } in
      let kept =
        k.on_disable t
          (k.on_flag (record s { closing = s.closing - 1 }) (k.on_count (s.closing - 1) s v)) in
      either-second P (ltb 0 s.closing) (cleanup c true (disable_asyncio_serving t)) (ok tt, s)
        (k.on_cleanup (disable_asyncio_serving t) kept) v

  after_error-keeps : (e : Exc) (s : Connection) → P s → P (after_error e s)
  unfolding after_error
  after_error-keeps eof_error s v = k.on_channel_close s v
  after_error-keeps type_error s v = v
  after_error-keeps value_error s v = v
  after_error-keeps struct_error s v = v
  after_error-keeps unicode_error s v = v
  after_error-keeps attribute_error s v = v
  after_error-keeps key_error s v = v
  after_error-keeps runtime_error s v = v
  after_error-keeps timeout_error s v = v
  after_error-keeps os_error s v = v
  after_error-keeps system_exit s v = v
  after_error-keeps keyboard_interrupt s v = v

  ask_aclose-keeps :
      (catchall : Bool) (o : Outcome (Unit {0})) (s : Connection)
      → P s
      → P (ask_aclose catchall o s).1
  unfolding ask_aclose
  ask_aclose-keeps catchall (ok u) s v = k.on_count (suc s.closing) s v
  ask_aclose-keeps catchall (raise e) s v =
      let s' = after_error e s in
      let kept = after_error-keeps e s v in
      either-second P (swallows catchall e) (ok tt, record s' { closing = suc s'.closing })
        (raise e, s') (k.on_count (suc s'.closing) s' kept) kept
  ask_aclose-keeps catchall out_of_fuel s v = v

  aclose-keeps : (f : Farewell) (s : Connection) → P s → P (aclose c f s).1
  unfolding aclose
  aclose-keeps f s v =
      either-second P s.closed (ok tt, s) (ask_aclose c.close_catchall f.request s) v
        (ask_aclose-keeps c.close_catchall f.request s v)

  close_and_remove_reader-keeps :
      (f : Farewell) (s : Connection) → P s → P (close_and_remove_reader c f s)
  unfolding close_and_remove_reader
  close_and_remove_reader-keeps f s v = close-keeps f (unregister_reader s) (k.on_unregister s v)

  dispatch_frames-keeps :
      (f : Farewell) (frames : List Frame) (s : Connection) → P s → P (dispatch_frames c f frames s)
  unfolding dispatch_frames
  dispatch_frames-keeps f [] s v = v
  dispatch_frames-keeps f (closes objects proxies ∷ frames) s v =
      close_and_remove_reader-keeps f (hold objects proxies (cleanup c true s).1)
        (k.on_hold objects proxies (cleanup c true s).1 (k.on_cleanup s v))
  dispatch_frames-keeps f (dies ∷ frames) s v = close_and_remove_reader-keeps f s v
  dispatch_frames-keeps f (serves objects proxies ∷ frames) s v =
      dispatch_frames-keeps f frames (hold objects proxies s) (k.on_hold objects proxies s v)

  receive-keeps : (f : Farewell) (chunk : Chunk) (s : Connection) → P s → P (receive c f chunk s)
  unfolding receive
  receive-keeps f hard_error s v =
      close_and_remove_reader-keeps f (channel_close s) (k.on_channel_close s v)
  receive-keeps f nothing s v = v
  receive-keeps f end_of_stream s v = close_and_remove_reader-keeps f s v
  receive-keeps f (carries frames) s v = dispatch_frames-keeps f frames s v

  on_readable-keeps :
      (f : Farewell) (chunk : Chunk) (s : Connection) → P s → P (on_readable c f chunk s)
  unfolding on_readable
  on_readable-keeps f chunk s v =
      if-either P (not s.reader) v (
        if-either P (s.closed || s.channel_closed) (k.on_unregister s v)
          (receive-keeps f chunk s v))

  send_async_result_safe-keeps :
      (sends : Bool) (s : Connection) → P s → P (send_async_result_safe sends s)
  unfolding send_async_result_safe
  send_async_result_safe-keeps sends s v =
      if-either P s.closed v
        (if-either P sends v (k.on_flag (channel_close s) (k.on_channel_close s v)))

  -- A new callback is a case of its own.
  pub happen-keeps :
      (e : Event) (s : Connection)
      → ((callback : ℕ) → e ≡ adds callback → P (add_close_callback callback s))
      → P s
      → P (happen c e s)
  unfolding happen
  happen-keeps (adds callback) s new v = new callback refl
  happen-keeps (waits waiter) s new v = k.on_wait waiter s v
  happen-keeps (calls_close f) s new v = close-keeps f s v
  happen-keeps (calls_aclose f) s new v = aclose-keeps f s v
  happen-keeps (holds objects proxies) s new v = k.on_hold objects proxies s v
  happen-keeps resumes s new v = resume_aclose-keeps s v
  happen-keeps enables s new v = k.on_enable s v
  happen-keeps (readable f chunk) s new v = on_readable-keeps f chunk s v
  happen-keeps (replies sends) s new v = send_async_result_safe-keeps sends s v
