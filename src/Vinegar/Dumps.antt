-- ===== src/Vinegar/Dumps.antt =====
-- What `dump` returns can be written by brine.
use rpyc_async.Prelude.{
  Bool, true, false, List, [], ◌∷◌, ◌++◌, ◌≡◌, refl, arith, if◌then◌else◌, Bool-cases, inl, inr,
  sym, ap, subst, pos,
}
use rpyc_async.Outcome.{Outcome, ok, raise, out_of_fuel, ◌>>=◌, >>=-eq-ok, attribute_error}
use rpyc_async.Brine.Syntax.{Value, str, int}
use rpyc_async.Brine.Dumpable.{dumpable, all_dumpable}
use rpyc_async.Protocol.Attributes.{Name}
use rpyc_async.Vinegar.{
  Policy, Raised, Texts, Dumped, version_name, safe_value, dump_args, is_skipped, dump_field,
  dump_fields, dump_info, items, pairs, as_value, dump,
}

-- Every value of a list of fields is dumpable.
abbrev AllSafe : List (Name × Value) → Type 0
AllSafe [] = Unit {0}
AllSafe ((name, v) ∷ attrs) = (dumpable v ≡ true) × AllSafe attrs

AllSafe-++ : (l r : List (Name × Value)) → AllSafe l → AllSafe r → AllSafe (l ++ r)
AllSafe-++ [] r a b = b
AllSafe-++ ((name, v) ∷ l) r a b = (a.0, AllSafe-++ l r a.1 b)

pairs-dumpable : (attrs : List (Name × Value)) → AllSafe attrs → all_dumpable (pairs attrs) ≡ true
unfolding pairs all_dumpable
pairs-dumpable [] a = refl
pairs-dumpable ((name, v) ∷ attrs) a = ground (arith, a.0, pairs-dumpable attrs a.1)

part : {B : Type 0} → (Dumped → B) → B → Outcome Dumped → B
part f z (ok d) = f d
part f z (raise e) = z
part f z out_of_fuel = z

module _ (x : Texts) where
  safe_value-dumpable : (v : Value) → dumpable (safe_value x v) ≡ true
  unfolding safe_value dumpable
  safe_value-dumpable v = elim (Bool-cases (dumpable v)) [
    | inl fine ↦ rw fine fine
    | inr foul ↦ rw foul refl
  ]

  dump_args-dumpable : (vs : List Value) → all_dumpable (items (dump_args x vs)) ≡ true
  unfolding items dump_args all_dumpable
  dump_args-dumpable [] = refl
  dump_args-dumpable (v ∷ vs) = rw (safe_value-dumpable v) (dump_args-dumpable vs)

  entry-AllSafe :
      (b : Bool) (name : Name) (v : Value) → AllSafe (if b then [] else (name, safe_value x v) ∷ [])
  entry-AllSafe true name v = tt
  entry-AllSafe false name v = (safe_value-dumpable v, tt)

  skipped-AllSafe :
      (b : Bool) (r : Outcome (List (Name × Value))) (entry : List (Name × Value))
      → ((a : List (Name × Value)) → r ≡ ok a → AllSafe a)
      → (if b then ok [] else r) ≡ ok entry
      → AllSafe entry
  skipped-AllSafe true r entry none_else h = let e : [] ≡ entry = cc h in subst AllSafe e tt
  skipped-AllSafe false r entry none_else h = none_else entry h

  dump_field-AllSafe :
      (name : Name) (o : Outcome Value) (entry : List (Name × Value))
      → dump_field x name o ≡ ok entry
      → AllSafe entry
  unfolding dump_field
  dump_field-AllSafe name (ok v) entry h =
      let e : (if is_skipped x name then [] else (name, safe_value x v) ∷ []) ≡ entry = cc h in
      subst AllSafe e (entry-AllSafe (is_skipped x name) name v)
  dump_field-AllSafe name (raise attribute_error) entry h =
      let e : [] ≡ entry = cc h in subst AllSafe e tt
  dump_field-AllSafe name (raise e) entry h =
      skipped-AllSafe (is_skipped x name) (raise e) entry (λ a q. cc q) h
  dump_field-AllSafe name out_of_fuel entry h =
      skipped-AllSafe (is_skipped x name) out_of_fuel entry (λ a q. cc q) h

  dump_fields-AllSafe :
      (fields : List (Name × Outcome Value)) (attrs : List (Name × Value))
      → dump_fields x fields ≡ ok attrs
      → AllSafe attrs
  unfolding dump_fields
  dump_fields-AllSafe [] attrs h = let e : [] ≡ attrs = cc h in subst AllSafe e tt
  dump_fields-AllSafe ((name, v) ∷ fields) attrs h =
      let (entry, first, next) =
        >>=-eq-ok (dump_field x name v)
          (λ entry. dump_fields x fields >>= λ rest. ok (entry ++ rest)) h in
      let (rest, second, last) =
        >>=-eq-ok (dump_fields x fields) (λ rest. ok (entry ++ rest)) next in
      let e : entry ++ rest ≡ attrs = cc last in
      subst AllSafe e (
        AllSafe-++ entry rest (dump_field-AllSafe name v entry first)
          (dump_fields-AllSafe fields rest second))

  -- What is dumped, part by part.
  pub dump_info-parts :
      (p : Policy) (r : Raised) (d : Dumped)
      → dump_info x p r ≡ ok d
      → (d.module_name ≡ r.module_name)
        × (d.class_name ≡ r.class_name)
        × (d.args ≡ dump_args x r.arguments)
        × (attrs : List (Name × Value)) × (dump_fields x r.fields ≡ ok attrs)
        × (d.attrs
            ≡ attrs
              ++ (
                version_name,
                str (if p.include_local_version then x.version else x.version_denied),
              )
                ∷ [])
  unfolding dump_info part
  dump_info-parts p r d h =
      let version = str (if p.include_local_version then x.version else x.version_denied) in
      let (attrs, first, last) =
        >>=-eq-ok (dump_fields x r.fields)
          (λ attrs. ok (record {
            module_name = r.module_name;
            class_name = r.class_name;
            args = dump_args x r.arguments;
            attrs = attrs ++ (version_name, version) ∷ [];
            traceback_text =
                if p.include_local_traceback then r.traceback_text else x.traceback_denied;
          }))
          h in
      (
        ap (part (λ e. e.module_name) []) (sym last),
        ap (part (λ e. e.class_name) []) (sym last),
        ap (part (λ e. e.args) []) (sym last),
        attrs,
        first,
        ap (part (λ e. e.attrs) []) (sym last),
      )

  dump_info-dumpable :
      (p : Policy) (r : Raised) (d : Dumped) → dump_info x p r ≡ ok d → dumpable (as_value d) ≡ true
  unfolding as_value dumpable
  dump_info-dumpable p r d h =
      let version = str (if p.include_local_version then x.version else x.version_denied) in
      let (home, cls, args, attrs, first, fields) = dump_info-parts p r d h in
      let safe =
        AllSafe-++ attrs ((version_name, version) ∷ []) (dump_fields-AllSafe r.fields attrs first)
          (refl, tt) in
      ground (
        arith,
        subst (λ a. all_dumpable (items a) ≡ true) (sym args) (dump_args-dumpable r.arguments),
        pairs-dumpable d.attrs (subst AllSafe (sym fields) safe),
      )

either_dumpable :
    (b : Bool) (r : Outcome Dumped) (v : Value)
    → ((d : Dumped) → r ≡ ok d → dumpable (as_value d) ≡ true)
    → (if b then ok (int (pos 1)) else (r >>= λ d. ok (as_value d))) ≡ ok v
    → dumpable v ≡ true
unfolding dumpable
either_dumpable true r v known h =
    let e : int (pos 1) ≡ v = cc h in subst (λ w. dumpable w ≡ true) e refl
either_dumpable false r v known h =
    let (d, first, last) = >>=-eq-ok r (λ d. ok (as_value d)) h in
    let e : as_value d ≡ v = cc last in subst (λ w. dumpable w ≡ true) e (known d first)

-- Whatever arguments and fields an exception has, the value that dump returns for it is dumpable.
pub dump-dumpable :
    (x : Texts) (p : Policy) (r : Raised) (v : Value) → dump x p r ≡ ok v → dumpable v ≡ true
unfolding dump
dump-dumpable x p r v h =
    either_dumpable r.is_stop_iteration (dump_info x p r) v (dump_info-dumpable x p r) h
