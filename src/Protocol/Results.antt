-- ===== src/Protocol/Results.antt =====
-- `AsyncResult` of rpyc_async/core/async_.py. A callback is a number; `ttl` says whether the time
-- limit has passed.
use rpyc_async.Prelude.{
  ℕ, Bool, true, false, List, [], ◌∷◌, ◌++◌, Option, none, some, ◌≡◌, refl, ◌==◌, ==_iff,
  if◌then◌else◌, ◌&&◌, arith, ap, ◌∙◌, sym, append_assoc, append-nil, ℕ_eq,
}
use mathlib.Core.Bool.{not}
use rpyc_async.Prelude.Dict.{get, pop, get-pop}

-- `fired` are the calls of callbacks so far, each with what the result then said.
pub record Result : Type 0 where
  pub is_ready : Bool
  pub is_exc : Bool
  pub obj : ℕ
  pub callbacks : List ℕ
  pub seq : Option ℕ
  pub fired : List (ℕ × Bool × ℕ)

unfoldable pub fresh_result : Result
fresh_result = record {
  is_ready = false;
  is_exc = false;
  obj = 0;
  callbacks = [];
  seq = none;
  fired = [];
}

unfoldable pub expired : Bool → Result → Bool
expired ttl r = not r.is_ready && ttl

-- The calls of callbacks with one result.
unfoldable pub fire_all : Bool → ℕ → List ℕ → List (ℕ × Bool × ℕ)
fire_all is_exc obj [] = []
fire_all is_exc obj (cb ∷ cbs) = (cb, is_exc, obj) ∷ fire_all is_exc obj cbs

-- `__call__`
unfoldable pub call : Bool → Bool → ℕ → Result → Result
unfolding expired fire_all
call ttl is_exc obj r = if expired ttl r then r else record r {
  is_ready = true;
  is_exc = is_exc;
  obj = obj;
  callbacks = [];
  fired = r.fired ++ fire_all is_exc obj r.callbacks;
}

unfoldable pub add_callback : ℕ → Result → Result
add_callback func r =
    if r.is_ready
    then record r { fired = r.fired ++ (func, r.is_exc, r.obj) ∷ [] }
    else record r { callbacks = r.callbacks ++ func ∷ [] }

-- `add_callback` for one after the other.
unfoldable pub add_all : List ℕ → Result → Result
unfolding add_callback
add_all [] r = r
add_all (func ∷ funcs) r = add_all funcs (add_callback func r)

-- `__del__`: the slot of `_request_callbacks` goes only if this result is in it.
unfoldable pub delete : ℕ → Option ℕ → List (ℕ × ℕ) → List (ℕ × ℕ)
unfolding get pop
delete self seq cbs = elim seq [
  | none ↦ cbs
  | some seq ↦ elim (get seq cbs) [
    | none ↦ cbs
    | some other ↦ if other == self then pop seq cbs else cbs
  ]
]

-- `_on_future_done`: an awaited result gives up its slot and its callbacks.
unfoldable pub on_future_done : Result → List (ℕ × ℕ) → Result × List (ℕ × ℕ)
unfolding pop
on_future_done r cbs =
    (record r { callbacks = [] }, elim r.seq [ none ↦ cbs | some seq ↦ pop seq cbs ])

fire_all-append :
    (is_exc : Bool) (obj : ℕ) (fs gs : List ℕ)
    → fire_all is_exc obj (fs ++ gs) ≡ fire_all is_exc obj fs ++ fire_all is_exc obj gs
unfolding fire_all
fire_all-append is_exc obj [] gs = refl
fire_all-append is_exc obj (f ∷ fs) gs =
    ap (λ t. (f, is_exc, obj) ∷ t) (fire_all-append is_exc obj fs gs)

-- Before the result is there, callbacks wait.
add_all-waiting :
    (funcs : List ℕ) (r : Result)
    → r.is_ready ≡ false
    → add_all funcs r ≡ record r { callbacks = r.callbacks ++ funcs }
unfolding add_all add_callback
add_all-waiting [] r h = rw (append-nil r.callbacks)
add_all-waiting (f ∷ fs) r h = rw h (
    add_all-waiting fs (record r { is_ready = false; callbacks = r.callbacks ++ f ∷ [] }) refl
    ∙ ap (λ cbs. record r { is_ready = false; callbacks = cbs })
        (append_assoc r.callbacks (f ∷ []) fs))

add_all-ready :
    (funcs : List ℕ) (r : Result)
    → r.is_ready ≡ true
    → (add_all funcs r).fired ≡ r.fired ++ fire_all r.is_exc r.obj funcs
unfolding add_all add_callback fire_all
add_all-ready [] r h = sym (append-nil r.fired)
add_all-ready (f ∷ fs) r h = rw h (
    add_all-ready fs (record r { is_ready = true; fired = r.fired ++ (f, r.is_exc, r.obj) ∷ [] })
      refl
    ∙ append_assoc r.fired ((f, r.is_exc, r.obj) ∷ []) (fire_all r.is_exc r.obj fs))

-- Every callback of a fresh result is called once, in the order in which they were added, with the
-- answer, whether it was added before the answer came or after, if the answer came in time.
pub add_all-call :
    (fs gs : List ℕ) (is_exc : Bool) (obj : ℕ)
    → (add_all gs (call false is_exc obj (add_all fs fresh_result))).fired
      ≡ fire_all is_exc obj (fs ++ gs)
unfolding fresh_result call expired
add_all-call fs gs is_exc obj =
    let waiting = add_all-waiting fs fresh_result refl in
    let r = record fresh_result {
      is_ready = true;
      is_exc = is_exc;
      obj = obj;
      fired = fire_all is_exc obj fs;
    } in
    ap (λ t. (add_all gs (call false is_exc obj t)).fired) waiting
    ∙ (add_all-ready gs r refl ∙ sym (fire_all-append is_exc obj fs gs))

-- The end of a result takes no slot away that another result is in, not one of the same number
-- either.
pub get-delete :
    (self seq other : ℕ) (own : Option ℕ) (cbs : List (ℕ × ℕ))
    → get seq cbs ≡ some other
    → (other == self) ≡ false
    → get seq (delete self own cbs) ≡ some other
unfolding delete
get-delete self seq other none cbs there ne = there
get-delete self seq other (some mine) cbs there ne =
    ground (arith, get-pop mine seq cbs, ==_iff mine seq)
