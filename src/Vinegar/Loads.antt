-- ===== src/Vinegar/Loads.antt =====
-- Which classes `load` instantiates, and what an exception looks like on the other side.
use rpyc_async.Prelude.{
  Bool, true, false, [], Option, none, some, ◌≡◌, refl, if◌then◌else◌, inl, inr, ◌⊎◌, sym, ◌∙◌, ap,
  ℕ_eq, list_eq,
}
use rpyc_async.Outcome.{Outcome, ok, raise, out_of_fuel, ◌>>=◌, >>=-eq-ok}
use rpyc_async.Protocol.Attributes.{Name, same}
use rpyc_async.Vinegar.{
  Policy, Dumped, builtins_name, Thing, World, Class, found, generic, Loaded, imports, module_after,
  attribute_of, only_exceptions, find_class, set_attrs, instantiate, load,
}

-- A class that `load` may use by default.
abbrev pub IsBuiltin : World → Dumped → Thing → Type 0
IsBuiltin w d thing =
    (same d.module_name builtins_name ≡ true)
    × (w.builtins d.class_name ≡ some thing)
    × (thing.is_exception_class ≡ true)

only_exceptions-found :
    (o : Option Thing) (thing : Thing)
    → only_exceptions o ≡ some thing
    → (o ≡ some thing) × (thing.is_exception_class ≡ true)
unfolding only_exceptions
only_exceptions-found none thing h = cc
only_exceptions-found (some t) thing h = go t.is_exception_class refl h
  where
    go :
        (b : Bool)
        → t.is_exception_class ≡ b
        → (if b then some t else none) ≡ some thing
        → (some t ≡ some thing) × (thing.is_exception_class ≡ true)
    go true e h =
        let s : t ≡ thing = cc h in (h, ap (λ (q : Thing). q.is_exception_class) (sym s) ∙ e)
    go false e h = cc

builtin_only :
    (b : Bool) (o : Option Thing) (thing : Thing)
    → (if b then o else none) ≡ some thing
    → (b ≡ true) × (o ≡ some thing)
builtin_only true o thing h = (refl, h)
builtin_only false o thing h = cc

find_class-IsBuiltin :
    (p : Policy) (w : World) (d : Dumped) (thing : Thing)
    → p.instantiate_custom_exceptions ≡ false
    → find_class p w d.module_name d.class_name ≡ some thing
    → IsBuiltin w d thing
unfolding find_class
find_class-IsBuiltin p w d thing closed h =
    let looked = if same d.module_name builtins_name then w.builtins d.class_name else none in
    let here : only_exceptions looked ≡ some thing =
      sym (
        ap
          (λ b.
            only_exceptions
              (if b then attribute_of (module_after p w d.module_name) d.class_name else looked))
          closed)
      ∙ h in
    let (there, exceptional) = only_exceptions-found looked thing here in
    let (home, it) =
      builtin_only (same d.module_name builtins_name) (w.builtins d.class_name) thing there in
    (home, it, exceptional)

cls_of : Outcome Loaded → Option Class
cls_of (ok e) = some e.cls
cls_of (raise e) = none
cls_of out_of_fuel = none

instantiate-cls :
    (w : World) (d : Dumped) (o : Option Thing) (e : Loaded)
    → instantiate w d o ≡ ok e
    → ((o ≡ none) × (e.cls ≡ generic d.module_name d.class_name))
      ⊎ ((thing : Thing) × (o ≡ some thing) × (e.cls ≡ found thing))
unfolding instantiate cls_of
instantiate-cls w d none e h =
    let (attrs, first, last) =
      >>=-eq-ok (set_attrs w.generic_accepts d.attrs [])
        (λ attrs.
          ok (record { cls = generic d.module_name d.class_name; args = d.args; attrs = attrs }))
        h in
    let c : some (generic d.module_name d.class_name) ≡ some e.cls = ap cls_of last in
    inl (refl, cc (sym c))
instantiate-cls w d (some thing) e h =
    let (u, made, more) =
      >>=-eq-ok thing.creates
        (λ u. set_attrs thing.accepts d.attrs [] >>= λ attrs.
          ok (record { cls = found thing; args = d.args; attrs = attrs }))
        h in
    let (attrs, first, last) =
      >>=-eq-ok (set_attrs thing.accepts d.attrs [])
        (λ attrs. ok (record { cls = found thing; args = d.args; attrs = attrs })) more in
    let c : some (found thing) ≡ some e.cls = ap cls_of last in inr (thing, refl, cc (sym c))

imports-none :
    (p : Policy) (w : World) (modname : Name)
    → p.import_custom_exceptions ≡ false
    → imports p w modname ≡ []
unfolding imports
imports-none p w modname closed = rw closed refl

-- Where neither importing nor instantiating custom exceptions is allowed, load of a dumped
-- exception imports no module, and if it returns, the class of its result is the generic one for
-- the full name, or a class of exceptions that builtins has under the dumped class name, for the
-- module builtins.
pub load-confined :
    (p : Policy) (w : World) (d : Dumped) (e : Loaded)
    → p.import_custom_exceptions ≡ false
    → p.instantiate_custom_exceptions ≡ false
    → load p w d ≡ ok e
    → (imports p w d.module_name ≡ [])
      × ((e.cls ≡ generic d.module_name d.class_name)
          ⊎ ((thing : Thing) × (e.cls ≡ found thing) × IsBuiltin w d thing))
unfolding load
load-confined p w d e closed shut h = (
  imports-none p w d.module_name closed,
  elim (instantiate-cls w d (find_class p w d.module_name d.class_name) e h) [
    | inl (missing, made_up) ↦ inl made_up
    | inr (thing, there, class) ↦ inr (thing, class, find_class-IsBuiltin p w d thing shut there)
  ],
)
