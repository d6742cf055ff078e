-- ===== src/Helpers/Background/Callbacks.antt =====
-- The callbacks of a task.
use rpyc_async.Prelude.{ℕ, Option, none, some, ◌≡◌, refl}
use rpyc_async.Helpers.Background.{
  Ending, value, exception, cancelled, aborted, Note, returned, Job, after, on_success, on_error,
  on_awaited,
}

-- A callback that raises nothing but exceptions.
abbrev pub Mild : Ending → Type 0
Mild (value v) = Unit
Mild (exception e) = Unit
Mild cancelled = ⊥
Mild aborted = ⊥

abbrev pub MildCallback : Option (ℕ → Ending) → Type 0
MildCallback none = Unit
MildCallback (some callback) = (v : ℕ) → Mild (callback v)

after-returned : (call print : Note) (e : Ending) → Mild e → (after call print e).1 ≡ returned
after-returned call print (value v) m = refl
after-returned call print (exception e) m = refl
after-returned call print cancelled m = absurd m
after-returned call print aborted m = absurd m

on_success-returned :
    (result : ℕ) (callback : Option (ℕ → Ending))
    → MildCallback callback
    → (on_success result callback).1 ≡ returned
on_success-returned result none m = refl
on_success-returned result (some callback) m = after-returned _ _ (callback result) (m result)

on_error-returned :
    (exc : ℕ) (callback : Option (ℕ → Ending))
    → MildCallback callback
    → (on_error exc callback).1 ≡ returned
on_error-returned exc none m = refl
on_error-returned exc (some callback) m = after-returned _ _ (callback exc) (m exc)

-- A task whose awaitable raises an exception or returns, and whose callbacks raise nothing but
-- exceptions, returns.
pub on_awaited-returned :
    (e : Ending) (job : Job)
    → Mild e
    → MildCallback job.success_callback
    → MildCallback job.error_callback
    → (on_awaited e job).1 ≡ returned
on_awaited-returned (value v) job m success failure =
    on_success-returned v job.success_callback success
on_awaited-returned (exception e) job m success failure =
    on_error-returned e job.error_callback failure
on_awaited-returned cancelled job m success failure = absurd m
on_awaited-returned aborted job m success failure = absurd m
