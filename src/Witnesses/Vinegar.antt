-- ===== src/Witnesses/Vinegar.antt =====
-- An exception with an argument and a field that brine does not know.
use rpyc_async.Prelude.{
  Bool, ◌||◌, ◌≡◌, refl, [], ◌∷◌, none, some, false, true, if◌then◌else◌, ◌⊎◌, list_matches, ℕ_eq,
  list_eq, pos,
}
use rpyc_async.Outcome.{Outcome, type_error, ok, raise, attribute_error}
use rpyc_async.Brine.Syntax.{Value, str, int, other, tuple}
use rpyc_async.Brine.Dumpable.{dumpable}
use rpyc_async.Vinegar.{
  Policy, Raised, Texts, Dumped, version_name, args_name, builtins_name, dump_info, as_value, dump,
  Thing, World, found, generic, Loaded, imports, load,
}
use rpyc_async.Protocol.Attributes.{Name, startswith}
use rpyc_async.Vinegar.Loads.{IsBuiltin}
use rpyc_async.Vinegar.Dumps
use rpyc_async.Vinegar.Loads
use rpyc_async.Vinegar.RoundTrip

abbrev texts : Texts
texts = record {
  traceback_denied = 1 ∷ [];
  version_denied = 2 ∷ [];
  version = 3 ∷ [];
  repr = λ v. 82 ∷ [];
}

abbrev default_policy : Policy
default_policy = record {
  include_local_traceback = true;
  include_local_version = false;
  import_custom_exceptions = false;
  instantiate_custom_exceptions = false;
}

-- `OSError`, named `E` here, with an errno.
abbrev failure : Raised
failure = record {
  module_name = builtins_name;
  class_name = 69 ∷ [];
  is_stop_iteration = false;
  arguments = int (pos 2) ∷ other 7 ∷ [];
  fields =
      (95 ∷ 120 ∷ [], ok (other 1))
      ∷ (args_name, ok (other 2))
      ∷ (99 ∷ [], raise attribute_error)
      ∷ (101 ∷ [], ok (int (pos 2)))
      ∷ (102 ∷ [], ok (other 3))
      ∷ [];
  traceback_text = 84 ∷ [];
}

abbrev dumped : Dumped
dumped = record {
  module_name = builtins_name;
  class_name = 69 ∷ [];
  args = int (pos 2) ∷ str (82 ∷ []) ∷ [];
  attrs = (101 ∷ [], int (pos 2)) ∷ (102 ∷ [], str (82 ∷ [])) ∷ (version_name, str (2 ∷ [])) ∷ [];
  traceback_text = 84 ∷ [];
}

abbrev is_special : Name → Bool
unfolding startswith
is_special name = startswith name (95 ∷ 95 ∷ [])

-- `args` of a builtin exception takes a tuple, `__traceback__` and `__class__` take nothing that brine
-- loads; other names take everything.
abbrev takes : Name → Value → Outcome (Unit {0})
takes name (tuple vs) = if is_special name then raise type_error else ok tt
takes name v = if list_matches name args_name || is_special name then raise type_error else ok tt

abbrev os_error_class : Thing
os_error_class = record { is_exception_class = true; creates = ok tt; accepts = takes }

abbrev world : World
world = record {
  modules = λ name. none;
  importable = λ name. none;
  builtins = λ name. if list_matches name (69 ∷ []) then some os_error_class else none;
  generic_accepts = λ name v. ok tt;
}

abbrev loaded : Loaded
loaded = record { cls = found os_error_class; args = dumped.args; attrs = dumped.attrs }

failure_sent : dump_info texts default_policy failure ≡ ok dumped
unfolding dump_info dumpable
failure_sent = refl

dump-dumpable_example : dumpable (as_value dumped) ≡ true
unfolding dump dumpable
dump-dumpable_example = Dumps.dump-dumpable texts default_policy failure (as_value dumped) refl

load-confined_example :
    (imports default_policy world builtins_name ≡ [])
    × ((loaded.cls ≡ generic builtins_name (69 ∷ []))
        ⊎ ((thing : Thing) × (loaded.cls ≡ found thing) × IsBuiltin world dumped thing))
unfolding load is_special
load-confined_example = Loads.load-confined default_policy world dumped loaded refl refl refl
