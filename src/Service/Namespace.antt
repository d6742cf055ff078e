-- ===== src/Service/Namespace.antt =====
-- `ModuleNamespace`: a cache that is read through.
pub mod Cached
use rpyc_async.Prelude.{
  ℕ, zero, suc, ◌+◌, ◌≤◌, Bool, true, false, List, [], ◌∷◌, ◌++◌, Option, none, some, ◌≡◌, refl,
  arith, if◌then◌else◌, list_eq, list_matches, list_matches_iff, ℕ_eq, Option-cases, inl, inr, sym,
  ◌∙◌, ap,
}
use rpyc_async.Prelude.Dict.{get, set_item, get-set_item}
use rpyc_async.Protocol.Attributes.{Name}
use rpyc_async.Service.{Fetched, a_module, import_error, other_error, attribute_error, Modules}

-- `getmodule` is called with the number of its calls so far, since what it gives may change. A module
-- that was fetched goes into the cache.
abbrev pub keep : Name → Fetched → Modules → Fetched × Modules
unfolding set_item
keep name (a_module m) s = (
  a_module m,
  record { cache = set_item name m s.cache; fetched = s.fetched ++ name ∷ []; asked = suc s.asked },
)
keep name import_error s = (import_error, record s { asked = suc s.asked })
keep name other_error s = (other_error, record s { asked = suc s.asked })
keep name attribute_error s = (attribute_error, record s { asked = suc s.asked })

abbrev pub look_up : (ℕ → Name → Fetched) → Name → Option ℕ → Modules → Fetched × Modules
look_up getmodule name (some m) s = (a_module m, s)
look_up getmodule name none s = keep name (getmodule s.asked name) s

-- `__getitem__`
unfoldable pub get_item : (ℕ → Name → Fetched) → Name → Modules → Fetched × Modules
unfolding get
get_item getmodule name s = look_up getmodule name (get name s.cache) s

abbrev pub as_attribute : Fetched → Fetched
as_attribute (a_module m) = a_module m
as_attribute import_error = attribute_error
as_attribute other_error = other_error
as_attribute attribute_error = attribute_error

-- `__getattr__`
unfoldable pub get_attribute : (ℕ → Name → Fetched) → Name → Modules → Fetched × Modules
unfolding get_item
get_attribute getmodule name s =
    let (fetched, s') = get_item getmodule name s in (as_attribute fetched, s')

-- A run of lookups, with what they give.
unfoldable pub get_all : (ℕ → Name → Fetched) → List Name → Modules → List Fetched × Modules
unfolding get_item
get_all getmodule [] s = ([], s)
get_all getmodule (name ∷ names) s =
    let (fetched, s') = get_item getmodule name s in
    let (more, s'') = get_all getmodule names s' in (fetched ∷ more, s'')

-- `builtins` and `importlib.util`.
abbrev pub preloaded : List Name
preloaded =
    (98 ∷ 117 ∷ 105 ∷ 108 ∷ 116 ∷ 105 ∷ 110 ∷ 115 ∷ [])
    ∷ (105 ∷ 109 ∷ 112 ∷ 111 ∷ 114 ∷ 116 ∷ 108 ∷ 105 ∷ 98 ∷ 46 ∷ 117 ∷ 116 ∷ 105 ∷ 108 ∷ [])
    ∷ []

-- `__init__`, where both modules can be imported; a failure would leave it.
unfoldable pub new_modules : (ℕ → Name → Fetched) → Modules
unfolding get_all
new_modules getmodule =
    (get_all getmodule preloaded (record { cache = []; fetched = []; asked = 0 })).1
