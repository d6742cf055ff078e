-- ===== src/Protocol/Handlers.antt =====
-- The handlers of requests for an object: `_handle_getattr`, `_handle_call` and the others, with what
-- they do to the object. `_handle_del` is in Protocol.Boxing, `_handle_close` in Protocol.Lifecycle.
pub mod Confined
use rpyc_async.Prelude.{
  ℕ, Bool, true, false, List, [], ◌∷◌, ◌++◌, Option, none, some, if◌then◌else◌,
}
use rpyc_async.Outcome.{
  Exc, value_error, system_exit, keyboard_interrupt, Outcome, ok, raise, out_of_fuel,
}
use rpyc_async.Protocol.Attributes.{Name, Config, Target, Sent, name_str, access_attr}

-- What Python does with objects, which are any type. `rpyc_getattr` and the like are the overriders of
-- an object's own type. `exc_info` is what raising an object leaves there, as class, value, traceback.
pub record Objects (O : Type 0) : Type 0 where
  pub target : O → Target
  pub type_of : O → O
  pub rpyc_getattr : O → Option (Name → Outcome O)
  pub rpyc_delattr : O → Option (Name → Outcome O)
  pub rpyc_setattr : O → Option (Name → O → Outcome O)
  pub getattr : O → Name → Outcome O
  pub delattr : O → Name → Outcome O
  pub setattr : O → Name → O → Outcome O
  pub call : O → List O → List (Name × O) → Outcome O
  pub str : O → Outcome O
  pub repr : O → Outcome O
  pub hash : O → Outcome O
  pub dir : O → Outcome O
  pub take : O → ℕ → Outcome O
  pub pickle : O → ℕ → Outcome O
  pub slice : O → O → O
  pub truth : O → Outcome Bool
  pub is_none : O → Bool
  pub none_object : O
  pub maxint : O
  pub exc_info : O → Outcome (O × O × O)

-- The entries of `_config` that the handlers read; `permitted` of `checks` is one of the three below.
pub record Permissions : Type 0 where
  pub checks : Config
  pub allow_getattr : Bool
  pub allow_delattr : Bool
  pub allow_setattr : Bool
  pub allow_pickle : Bool

-- What is done to an object: an attribute is got, deleted or set, under the name that was served, its
-- type's overrider is asked, or it is called.
pub data Act (O : Type 0) : Type 0 where
  gets deletes sets asks : O → Name → Act O
  calls : O → Act O

abbrev pub Done : Type 0 → Type 0
Done O = List (Act O) × Outcome O

pub data Request (O : Type 0) : Type 0 where
  ping repr str hash dir : O → Request O
  getroot : Request O
  getattr delattr : O → Sent → Request O
  setattr : O → Sent → O → Request O
  call : O → List O → List (Name × O) → Request O
  callattr : O → Sent → List O → List (Name × O) → Request O
  cmp : O → O → Sent → Request O
  ctxexit : O → O → Request O
  pickle buffiter : O → ℕ → Request O
  oldslicing : O → Sent → Sent → O → O → List O → Request O

unfoldable pub is_exception : Exc → Bool
is_exception system_exit = false
is_exception keyboard_interrupt = false
is_exception e = true

module _ {O : Type 0} where
  -- The second part is done with the result of the first.
  unfoldable pub then_do : Done O → (O → Done O) → Done O
  then_do (acts, ok o) next = let (more, r) = next o in (acts ++ more, r)
  then_do (acts, raise e) next = (acts, raise e)
  then_do (acts, out_of_fuel) next = (acts, out_of_fuel)

  -- `except Exception`
  unfoldable pub or_else : Done O → Done O → Done O
  unfolding is_exception
  or_else (acts, raise e) (more, r) = if is_exception e then (acts ++ more, r) else (acts, raise e)
  or_else (acts, r) other = (acts, r)

  unfoldable pub flatten : Outcome (Done O) → Done O
  flatten (ok d) = d
  flatten (raise e) = ([], raise e)
  flatten out_of_fuel = ([], out_of_fuel)

  unfoldable pub asking : O → Option (Name → Outcome O) → Option (Name → Outcome (Done O))
  asking o none = none
  asking o (some accessor) = some (λ name. ok (asks o name ∷ [], accessor name))

  module _ (k : Objects O) (p : Permissions) where
    unfoldable pub permit : Bool → Config
    permit allowed = record p.checks { permitted = allowed }

    unfoldable pub handle_getattr : O → Sent → Done O
    unfolding access_attr flatten asking permit
    handle_getattr o name = flatten (
        access_attr (permit p.allow_getattr) (k.target o) (asking o (k.rpyc_getattr o))
          (λ served. ok (gets o served ∷ [], k.getattr o served)) name)

    unfoldable pub handle_delattr : O → Sent → Done O
    unfolding access_attr flatten asking permit
    handle_delattr o name = flatten (
        access_attr (permit p.allow_delattr) (k.target o) (asking o (k.rpyc_delattr o))
          (λ served. ok (deletes o served ∷ [], k.delattr o served)) name)

    unfoldable pub with_value : O → Option (Name → O → Outcome O) → Option (Name → Outcome O)
    with_value v none = none
    with_value v (some accessor) = some (λ name. accessor name v)

    unfoldable pub handle_setattr : O → Sent → O → Done O
    unfolding access_attr flatten asking permit with_value
    handle_setattr o name v = flatten (
        access_attr (permit p.allow_setattr) (k.target o)
          (asking o (with_value v (k.rpyc_setattr o)))
          (λ served. ok (sets o served ∷ [], k.setattr o served v)) name)

    unfoldable pub handle_call : O → List O → List (Name × O) → Done O
    handle_call o args kwargs = (calls o ∷ [], k.call o args kwargs)

    unfoldable pub handle_callattr : O → Sent → List O → List (Name × O) → Done O
    unfolding then_do handle_getattr handle_call
    handle_callattr o name args kwargs =
        then_do (handle_getattr o name) (λ f. handle_call f args kwargs)

    -- The attribute of the type, called with both.
    unfoldable pub handle_cmp : O → O → Sent → Done O
    unfolding then_do handle_getattr handle_call
    handle_cmp o other op =
        then_do (handle_getattr (k.type_of o) op) (λ f. handle_call f (o ∷ other ∷ []) [])

    -- `__exit__`
    abbrev exit_name : Name
    exit_name = 95 ∷ 95 ∷ 101 ∷ 120 ∷ 105 ∷ 116 ∷ 95 ∷ 95 ∷ []

    unfoldable pub call_exit : O → O × O × O → Done O
    unfolding handle_callattr
    call_exit o (class, value, tb) =
        handle_callattr o (name_str exit_name) (class ∷ value ∷ tb ∷ []) []

    unfoldable pub exit_with : O → Outcome (O × O × O) → Done O
    unfolding call_exit
    exit_with o (ok info) = call_exit o info
    exit_with o (raise e) = ([], raise e)
    exit_with o out_of_fuel = ([], out_of_fuel)

    unfoldable pub exit_if : O → O → Outcome Bool → Done O
    unfolding exit_with call_exit
    exit_if o exc (ok true) = exit_with o (k.exc_info exc)
    exit_if o exc (ok false) = call_exit o (exc, k.none_object, k.none_object)
    exit_if o exc (raise e) = ([], raise e)
    exit_if o exc out_of_fuel = ([], out_of_fuel)

    unfoldable pub handle_ctxexit : O → O → Done O
    unfolding exit_if
    handle_ctxexit o exc = exit_if o exc (k.truth exc)

    unfoldable pub handle_pickle : O → ℕ → Done O
    handle_pickle o proto =
        if p.allow_pickle then ([], k.pickle o proto) else ([], raise value_error)

    unfoldable pub handle_oldslicing : O → Sent → Sent → O → O → List O → Done O
    unfolding or_else handle_callattr
    handle_oldslicing o attempt fallback start stop args =
        let last = if k.is_none stop then k.maxint else stop in
        or_else (handle_callattr o attempt (k.slice start stop ∷ args) [])
          (handle_callattr o fallback (start ∷ last ∷ args) [])

    unfoldable pub handle : O → Request O → Done O
    unfolding handle_getattr handle_delattr handle_setattr handle_call handle_callattr handle_cmp
        handle_ctxexit handle_pickle handle_oldslicing
    handle root (ping o) = ([], ok o)
    handle root (repr o) = ([], k.repr o)
    handle root (str o) = ([], k.str o)
    handle root (hash o) = ([], k.hash o)
    handle root (dir o) = ([], k.dir o)
    handle root getroot = ([], ok root)
    handle root (getattr o name) = handle_getattr o name
    handle root (delattr o name) = handle_delattr o name
    handle root (setattr o name v) = handle_setattr o name v
    handle root (call o args kwargs) = handle_call o args kwargs
    handle root (callattr o name args kwargs) = handle_callattr o name args kwargs
    handle root (cmp o other op) = handle_cmp o other op
    handle root (ctxexit o exc) = handle_ctxexit o exc
    handle root (pickle o proto) = handle_pickle o proto
    handle root (buffiter o count) = ([], k.take o count)
    handle root (oldslicing o attempt fallback start stop args) =
        handle_oldslicing o attempt fallback start stop args
