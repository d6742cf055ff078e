-- ===== src/Vinegar.antt =====
-- rpyc_async/core/vinegar.py: exceptions as values that brine dumps, and back. Texts are lists of code
-- points. The caches of classes are left out.
pub mod Dumps
pub mod Loads
pub mod RoundTrip
use rpyc_async.Prelude.{
  ℕ, Bool, true, false, ◌&&◌, ◌||◌, not, List, [], ◌∷◌, ◌++◌, Option, none, some, ◌==◌,
  if◌then◌else◌, ◌≡◌, refl, pos, ℕ_eq, list_eq,
}
use rpyc_async.Outcome.{Exc, attribute_error, Outcome, ok, raise, out_of_fuel, ◌>>=◌}
use rpyc_async.Brine.Syntax.{Value, str, int, tuple, Items, nil, cons}
use rpyc_async.Brine.Dumpable.{dumpable}
use rpyc_async.Prelude.Dict.{set_item}
use rpyc_async.Protocol.Attributes.{Name, same, startswith, is_in}

-- The parameters of `dump` and `load`.
pub record Policy : Type 0 where
  pub include_local_traceback : Bool
  pub include_local_version : Bool
  pub import_custom_exceptions : Bool
  pub instantiate_custom_exceptions : Bool

-- An exception: its class, whether that is StopIteration, its arguments, and what `getattr` gives for
-- each name of `dir`.
pub record Raised : Type 0 where
  pub module_name : Name
  pub class_name : Name
  pub is_stop_iteration : Bool
  pub arguments : List Value
  pub fields : List (Name × Outcome Value)
  pub traceback_text : Name

abbrev pub args_name : Name
args_name = 97 ∷ 114 ∷ 103 ∷ 115 ∷ []

-- `_remote_tb` and `with_traceback`
abbrev pub ignored_attrs : List Name
ignored_attrs =
    (95 ∷ 114 ∷ 101 ∷ 109 ∷ 111 ∷ 116 ∷ 101 ∷ 95 ∷ 116 ∷ 98 ∷ [])
    ∷ (119 ∷ 105 ∷ 116 ∷ 104 ∷ 95 ∷ 116 ∷ 114 ∷ 97 ∷ 99 ∷ 101 ∷ 98 ∷ 97 ∷ 99 ∷ 107 ∷ [])
    ∷ []

-- `_remote_version`
abbrev pub version_name : Name
version_name =
    95 ∷ 114 ∷ 101 ∷ 109 ∷ 111 ∷ 116 ∷ 101 ∷ 95 ∷ 118 ∷ 101 ∷ 114 ∷ 115 ∷ 105 ∷ 111 ∷ 110 ∷ []

-- `builtins`
abbrev pub builtins_name : Name
builtins_name = 98 ∷ 117 ∷ 105 ∷ 108 ∷ 116 ∷ 105 ∷ 110 ∷ 115 ∷ []

-- The texts `<traceback denied>`, `<version denied>` and `__version__`, and `repr`, which is total.
pub record Texts : Type 0 where
  pub traceback_denied : Name
  pub version_denied : Name
  pub version : Name
  pub repr : Value → Name

pub record Dumped : Type 0 where
  pub module_name : Name
  pub class_name : Name
  pub args : List Value
  pub attrs : List (Name × Value)
  pub traceback_text : Name

module _ (x : Texts) where
  unfoldable pub safe_value : Value → Value
  safe_value v = if dumpable v then v else str (x.repr v)

  unfoldable pub dump_args : List Value → List Value
  unfolding safe_value
  dump_args [] = []
  dump_args (v ∷ vs) = safe_value v ∷ dump_args vs

  unfoldable pub is_skipped : Name → Bool
  unfolding startswith is_in same
  is_skipped name = startswith name (95 ∷ []) || is_in name ignored_attrs || same name args_name

  -- A field that `getattr` refuses is left out.
  unfoldable pub dump_field : Name → Outcome Value → Outcome (List (Name × Value))
  unfolding safe_value is_skipped
  dump_field name (ok v) = ok (if is_skipped name then [] else (name, safe_value v) ∷ [])
  dump_field name (raise attribute_error) = ok []
  dump_field name (raise e) = if is_skipped name then ok [] else raise e
  dump_field name out_of_fuel = if is_skipped name then ok [] else out_of_fuel

  unfoldable pub dump_fields : List (Name × Outcome Value) → Outcome (List (Name × Value))
  unfolding dump_field
  dump_fields [] = ok []
  dump_fields ((name, v) ∷ fields) =
      dump_field name v >>= λ entry. dump_fields fields >>= λ rest. ok (entry ++ rest)

  unfoldable pub dump_info : Policy → Raised → Outcome Dumped
  unfolding dump_fields dump_args
  dump_info p r = dump_fields r.fields >>= λ attrs. ok (record {
    module_name = r.module_name;
    class_name = r.class_name;
    args = dump_args r.arguments;
    attrs =
        attrs
        ++ (version_name, str (if p.include_local_version then x.version else x.version_denied))
          ∷ [];
    traceback_text = if p.include_local_traceback then r.traceback_text else x.traceback_denied;
  })

unfoldable pub items : List Value → Items
items [] = nil
items (v ∷ vs) = cons v (items vs)

unfoldable pub pairs : List (Name × Value) → Items
pairs [] = nil
pairs ((name, v) ∷ attrs) = cons (tuple (cons (str name) (cons v nil))) (pairs attrs)

-- The tuple that `dump` returns.
unfoldable pub as_value : Dumped → Value
unfolding items pairs
as_value d = tuple (
    cons (tuple (cons (str d.module_name) (cons (str d.class_name) nil))) (
      cons (tuple (items d.args)) (cons (tuple (pairs d.attrs)) (cons (str d.traceback_text) nil))))

-- `EXC_STOP_ITERATION` is 1.
unfoldable pub dump : Texts → Policy → Raised → Outcome Value
unfolding dump_info as_value
dump x p r =
    if r.is_stop_iteration then ok (int (pos 1)) else (dump_info x p r >>= λ d. ok (as_value d))

-- What a module has under a name: whether it is a class of exceptions, how deriving from it and
-- creating an instance ends, and how setting an attribute of the instance does.
pub record Thing : Type 0 where
  pub is_exception_class : Bool
  pub creates : Outcome (Unit {0})
  pub accepts : Name → Value → Outcome (Unit {0})

-- `sys.modules`, and the modules that importing adds to it.
pub record World : Type 0 where
  pub modules : Name → Option (Name → Option Thing)
  pub importable : Name → Option (Name → Option Thing)
  pub builtins : Name → Option Thing
  pub generic_accepts : Name → Value → Outcome (Unit {0})

-- A class that was found, or the generic one made up for a full name.
pub data Class : Type 0 where
  found : Thing → Class
  generic : Name → Name → Class

pub record Loaded : Type 0 where
  pub cls : Class
  pub args : List Value
  pub attrs : List (Name × Value)

unfoldable pub is_known : Option (Name → Option Thing) → Bool
is_known none = false
is_known (some attributes) = true

-- The imports that `load` tries.
unfoldable pub imports : Policy → World → Name → List Name
unfolding is_known
imports p w modname =
    if p.import_custom_exceptions && not (is_known (w.modules modname)) then modname ∷ [] else []

unfoldable pub module_after : Policy → World → Name → Option (Name → Option Thing)
unfolding is_known
module_after p w modname =
    if p.import_custom_exceptions && not (is_known (w.modules modname))
    then w.importable modname
    else w.modules modname

unfoldable pub attribute_of : Option (Name → Option Thing) → Name → Option Thing
attribute_of none name = none
attribute_of (some attributes) name = attributes name

unfoldable pub only_exceptions : Option Thing → Option Thing
only_exceptions none = none
only_exceptions (some thing) = if thing.is_exception_class then some thing else none

unfoldable pub find_class : Policy → World → Name → Name → Option Thing
unfolding module_after attribute_of only_exceptions same
find_class p w modname clsname = only_exceptions (
    if p.instantiate_custom_exceptions
    then attribute_of (module_after p w modname) clsname
    else if same modname builtins_name
    then w.builtins clsname
    else none)

-- `setattr` for every attribute; an immutable one is passed over.
unfoldable pub set_attr :
    Outcome (Unit {0}) → Name → Value → List (Name × Value) → Outcome (List (Name × Value))
unfolding set_item
set_attr (ok u) name v attrs = ok (set_item name v attrs)
set_attr (raise attribute_error) name v attrs = ok attrs
set_attr (raise e) name v attrs = raise e
set_attr out_of_fuel name v attrs = out_of_fuel

unfoldable pub set_attrs :
    (Name → Value → Outcome (Unit {0}))
    → List (Name × Value)
    → List (Name × Value)
    → Outcome (List (Name × Value))
unfolding set_attr
set_attrs accepts [] attrs = ok attrs
set_attrs accepts ((name, v) ∷ rest) attrs =
    set_attr (accepts name v) name v attrs >>= λ attrs'. set_attrs accepts rest attrs'

-- `cls.__new__(cls)`, the arguments and the attributes.
unfoldable pub instantiate : World → Dumped → Option Thing → Outcome Loaded
unfolding set_attrs
instantiate w d none = set_attrs w.generic_accepts d.attrs [] >>= λ attrs.
    ok (record { cls = generic d.module_name d.class_name; args = d.args; attrs = attrs })
instantiate w d (some thing) = thing.creates >>= λ u.
    set_attrs thing.accepts d.attrs [] >>= λ attrs.
    ok (record { cls = found thing; args = d.args; attrs = attrs })

-- `load` of a tuple as `dump` gives it, up to the text of the traceback.
unfoldable pub load : Policy → World → Dumped → Outcome Loaded
unfolding find_class instantiate
load p w d = instantiate w d (find_class p w d.module_name d.class_name)
