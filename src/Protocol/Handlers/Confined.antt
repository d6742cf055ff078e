-- ===== src/Protocol/Handlers/Confined.antt =====
-- Every attribute that a handler touches was checked.
use rpyc_async.Prelude.{
  ℕ, Bool, true, false, List, [], ◌∷◌, ◌++◌, Option, none, some, ◌≡◌, refl, subst, if◌then◌else◌,
}
use rpyc_async.Outcome.{value_error, Outcome, ok, raise, out_of_fuel, ◌>>=◌, >>=-eq-ok}
use rpyc_async.Protocol.Attributes.{
  Name, Config, Target, Sent, name_str, name_of, check_attr, access_attr,
}
use rpyc_async.Protocol.Handlers.{
  Objects, Permissions, Act, gets, deletes, sets, asks, calls, Done, Request, ping, repr, str, hash,
  dir, getroot, getattr, delattr, setattr, call, callattr, cmp, ctxexit, pickle, buffiter,
  oldslicing, then_do, is_exception, or_else, flatten, asking, permit, handle_getattr,
  handle_delattr, with_value, handle_setattr, handle_call, handle_callattr, handle_cmp, call_exit,
  exit_with, exit_if, handle_ctxexit, handle_pickle, handle_oldslicing, handle,
}

module _ {O : Type 0} (P : Act O → Type 0) where
  abbrev pub All : List (Act O) → Type 0
  All [] = Unit {0}
  All (a ∷ acts) = P a × All acts

  All-++ : (l r : List (Act O)) → All l → All r → All (l ++ r)
  All-++ [] r v w = w
  All-++ (a ∷ l) r v w = (v.0, All-++ l r v.1 w)

  then_do-All :
      (d : Done O) (next : O → Done O)
      → All d.0
      → ((o : O) → All (next o).0)
      → All (then_do d next).0
  unfolding then_do
  then_do-All (acts, ok o) next v w = All-++ acts (next o).0 v (w o)
  then_do-All (acts, raise e) next v w = v
  then_do-All (acts, out_of_fuel) next v w = v

  either-All : (b : Bool) (x y : Done O) → All x.0 → All y.0 → All (if b then x else y).0
  either-All true x y v w = v
  either-All false x y v w = w

  or_else-All : (d other : Done O) → All d.0 → All other.0 → All (or_else d other).0
  unfolding or_else
  or_else-All (acts, ok o) other v w = v
  or_else-All (acts, raise e) (more, r) v w =
      either-All (is_exception e) (acts ++ more, r) (acts, raise e) (All-++ acts more v w) v
  or_else-All (acts, out_of_fuel) other v w = v

  flatten-All : (r : Outcome (Done O)) → ((d : Done O) → r ≡ ok d → All d.0) → All (flatten r).0
  unfolding flatten
  flatten-All (ok d) v = v d refl
  flatten-All (raise e) v = tt
  flatten-All out_of_fuel v = tt

  access-All :
      (c : Config) (t : Target) (o : O) (over : Option (Name → Outcome O))
      → (act : Name → Act O) (default : Name → Outcome O) (sent : Sent)
      → ((n : Name) → P (asks o n))
      → ((n served : Name) → check_attr c t n ≡ ok served → P (act served))
      → All
          (flatten (
            access_attr c t
              (asking o over)
              (λ served. ok (act served ∷ [], default served))
              sent)).0
  unfolding access_attr asking
  access-All c t o none act default sent asked checked =
      flatten-All
        (name_of sent >>= λ name.
          check_attr c t name >>= λ served. ok (act served ∷ [], default served))
        (λ d h.
          let (name, first, next) =
            >>=-eq-ok (name_of sent)
              (λ name. check_attr c t name >>= λ served. ok (act served ∷ [], default served)) h in
          let (served, second, last) =
            >>=-eq-ok (check_attr c t name) (λ served. ok (act served ∷ [], default served)) next in
          let e : (act served ∷ [], default served) ≡ d = cc last in
          subst (λ (q : Done O). All q.0) e (checked name served second, tt))
  access-All c t o (some accessor) act default sent asked checked =
      flatten-All (name_of sent >>= λ name. ok (asks o name ∷ [], accessor name)) (λ d h.
        let (name, first, last) =
          >>=-eq-ok (name_of sent) (λ name. ok (asks o name ∷ [], accessor name)) h in
        let e : (asks o name ∷ [], accessor name) ≡ d = cc last in
        subst (λ (q : Done O). All q.0) e (asked name, tt))

module _ {O : Type 0} (k : Objects O) (p : Permissions) where
  -- The name was served by a check with the operation's own permission.
  abbrev pub Checked : Bool → O → Name → Type 0
  Checked allowed o served =
      (name : Name) × (check_attr (permit k p allowed) (k.target o) name ≡ ok served)

  abbrev pub IsPermitted : Act O → Type 0
  IsPermitted (gets o served) = Checked p.allow_getattr o served
  IsPermitted (deletes o served) = Checked p.allow_delattr o served
  IsPermitted (sets o served) = Checked p.allow_setattr o served
  IsPermitted (asks o name) = Unit {0}
  IsPermitted (calls o) = Unit {0}

  handle_getattr-All : (o : O) (name : Sent) → All IsPermitted (handle_getattr k p o name).0
  unfolding handle_getattr
  handle_getattr-All o name =
      access-All IsPermitted (permit k p p.allow_getattr) (k.target o) o (k.rpyc_getattr o)
        (λ served. gets o served) (k.getattr o) name (λ n. tt) (λ n served h. (n, h))

  handle_delattr-All : (o : O) (name : Sent) → All IsPermitted (handle_delattr k p o name).0
  unfolding handle_delattr
  handle_delattr-All o name =
      access-All IsPermitted (permit k p p.allow_delattr) (k.target o) o (k.rpyc_delattr o)
        (λ served. deletes o served) (k.delattr o) name (λ n. tt) (λ n served h. (n, h))

  handle_setattr-All :
      (o : O) (name : Sent) (v : O) → All IsPermitted (handle_setattr k p o name v).0
  unfolding handle_setattr
  handle_setattr-All o name v =
      access-All IsPermitted (permit k p p.allow_setattr) (k.target o) o
        (with_value k p v (k.rpyc_setattr o)) (λ served. sets o served)
        (λ served. k.setattr o served v) name (λ n. tt) (λ n served h. (n, h))

  handle_callattr-All :
      (o : O) (name : Sent) (args : List O) (kwargs : List (Name × O))
      → All IsPermitted (handle_callattr k p o name args kwargs).0
  unfolding handle_callattr handle_call
  handle_callattr-All o name args kwargs =
      then_do-All IsPermitted (handle_getattr k p o name) (λ f. handle_call k p f args kwargs)
        (handle_getattr-All o name) (λ f. (tt, tt))

  handle_cmp-All : (o other : O) (op : Sent) → All IsPermitted (handle_cmp k p o other op).0
  unfolding handle_cmp handle_call
  handle_cmp-All o other op =
      then_do-All IsPermitted (handle_getattr k p (k.type_of o) op)
        (λ f. handle_call k p f (o ∷ other ∷ []) []) (handle_getattr-All (k.type_of o) op)
        (λ f. (tt, tt))

  call_exit-All : (o : O) (info : O × O × O) → All IsPermitted (call_exit k p o info).0
  unfolding call_exit
  call_exit-All o (class, value, tb) =
      handle_callattr-All o (name_str (95 ∷ 95 ∷ 101 ∷ 120 ∷ 105 ∷ 116 ∷ 95 ∷ 95 ∷ []))
        (class ∷ value ∷ tb ∷ []) []

  exit_with-All : (o : O) (r : Outcome (O × O × O)) → All IsPermitted (exit_with k p o r).0
  unfolding exit_with
  exit_with-All o (ok info) = call_exit-All o info
  exit_with-All o (raise e) = tt
  exit_with-All o out_of_fuel = tt

  exit_if-All : (o exc : O) (r : Outcome Bool) → All IsPermitted (exit_if k p o exc r).0
  unfolding exit_if
  exit_if-All o exc (ok true) = exit_with-All o (k.exc_info exc)
  exit_if-All o exc (ok false) = call_exit-All o (exc, k.none_object, k.none_object)
  exit_if-All o exc (raise e) = tt
  exit_if-All o exc out_of_fuel = tt

  handle_pickle-All : (o : O) (proto : ℕ) → All IsPermitted (handle_pickle k p o proto).0
  unfolding handle_pickle
  handle_pickle-All o proto =
      either-All IsPermitted p.allow_pickle ([], k.pickle o proto) ([], raise value_error) tt tt

  -- For each request but those to inspect an object, to check an instance, to delete a reference
  -- or to close, and the asynchronous calls, every attribute that its handler gets, deletes or
  -- sets itself, comparing, leaving a context and slicing included, has a name that the check of
  -- the attribute served for that object, with the permission of that very operation.
  pub handle-All : (root : O) (request : Request O) → All IsPermitted (handle k p root request).0
  unfolding handle handle_call handle_ctxexit handle_oldslicing
  handle-All root (ping o) = tt
  handle-All root (repr o) = tt
  handle-All root (str o) = tt
  handle-All root (hash o) = tt
  handle-All root (dir o) = tt
  handle-All root getroot = tt
  handle-All root (getattr o name) = handle_getattr-All o name
  handle-All root (delattr o name) = handle_delattr-All o name
  handle-All root (setattr o name v) = handle_setattr-All o name v
  handle-All root (call o args kwargs) = (tt, tt)
  handle-All root (callattr o name args kwargs) = handle_callattr-All o name args kwargs
  handle-All root (cmp o other op) = handle_cmp-All o other op
  handle-All root (ctxexit o exc) = exit_if-All o exc (k.truth exc)
  handle-All root (pickle o proto) = handle_pickle-All o proto
  handle-All root (buffiter o count) = tt
  handle-All root (oldslicing o attempt fallback start stop args) =
      or_else-All IsPermitted (handle_callattr k p o attempt (k.slice start stop ∷ args) [])
        (handle_callattr k p o fallback (start ∷ (if k.is_none stop then k.maxint else stop) ∷ args)
          [])
        (handle_callattr-All o attempt (k.slice start stop ∷ args) [])
        (handle_callattr-All o fallback (start ∷ (if k.is_none stop then k.maxint else stop) ∷ args)
          [])
