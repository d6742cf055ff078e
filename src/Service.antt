-- ===== src/Service.antt =====
-- rpyc_async/core/service.py: the names of a service, the configuration of `SlaveService`, and
-- `ModuleNamespace`. A name is the list of its code points.
pub mod Namespace
pub mod Slave
use rpyc_async.Prelude.{
  ℕ, ◌-◌, Bool, true, false, List, [], ◌∷◌, Option, none, some, length, take, drop, map,
  if◌then◌else◌, ℕ_eq, list_matches,
}
use rpyc_async.Protocol.Attributes.{Name, Config}

-- `SERVICE`
abbrev pub service_suffix : Name
service_suffix = 83 ∷ 69 ∷ 82 ∷ 86 ∷ 73 ∷ 67 ∷ 69 ∷ []

-- `name.endswith("SERVICE")`, and `name[:-7]`.
unfoldable pub strip_suffix : Name → Name
strip_suffix name =
    let front = length name - 7 in
    if list_matches (drop front name) service_suffix then take front name else name

unfoldable pub get_service_aliases : (Name → Name) → List Name → Name → List Name
unfolding strip_suffix
get_service_aliases upper [] class_name = strip_suffix (upper class_name) ∷ []
get_service_aliases upper (alias ∷ aliases) class_name = map upper (alias ∷ aliases)

abbrev pub head : List Name → Option Name
head [] = none
head (name ∷ names) = some name

unfoldable pub get_service_name : (Name → Name) → List Name → Name → Option Name
unfolding get_service_aliases
get_service_name upper aliases class_name = head (get_service_aliases upper aliases class_name)

-- `SlaveService.on_connect`, on what the checks of one operation read: each of `allow_getattr`,
-- `allow_setattr` and `allow_delattr` is set.
unfoldable pub slave_config : Config → Config
slave_config c = record c { permitted = true; allow_all_attrs = true; allow_exposed_attrs = false }

-- What `getmodule` gives for a name: a module, ImportError, or another exception.
pub data Fetched : Type 0 where
  a_module : ℕ → Fetched
  import_error other_error attribute_error : Fetched

-- The cache, the names for which `getmodule` was called and gave a module, and the number of its
-- calls.
pub record Modules : Type 0 where
  pub cache : List (Name × ℕ)
  pub fetched : List Name
  pub asked : ℕ
