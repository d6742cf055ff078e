-- ===== src/Witnesses/Service.antt =====
-- The names of a service, and modules that are looked up twice.
use rpyc_async.Prelude.{ℕ, ◌≡◌, ◌==◌, ◌&&◌, ltb, if◌then◌else◌, refl, List, [], ◌∷◌, list_eq}
use rpyc_async.Protocol.Attributes.{Name}
use rpyc_async.Prelude.Dict.{get, set_item}
use rpyc_async.Service.Namespace.{get_all, get_item, new_modules}
use rpyc_async.Service.Namespace.Cached
use rpyc_async.Service.Namespace.Cached.{count, Answers}
use rpyc_async.Service.{Fetched, a_module, import_error, Modules, get_service_aliases}

-- `FOOSERVICE` and `SERVE`, in capitals already.
foo_name :
    get_service_aliases (λ name. name) [] (70 ∷ 79 ∷ 79 ∷ 83 ∷ 69 ∷ 82 ∷ 86 ∷ 73 ∷ 67 ∷ 69 ∷ [])
    ≡ (70 ∷ 79 ∷ 79 ∷ []) ∷ []
unfolding get_service_aliases
foo_name = refl

short_name :
    get_service_aliases (λ name. name) [] (83 ∷ 69 ∷ 82 ∷ 86 ∷ 69 ∷ [])
    ≡ (83 ∷ 69 ∷ 82 ∷ 86 ∷ 69 ∷ []) ∷ []
unfolding get_service_aliases
short_name = refl

-- The first two calls load the preloaded modules; `a` can be imported from the fourth call on.
abbrev getmodule : ℕ → Name → Fetched
getmodule n [] = import_error
getmodule n (c ∷ name) = if c == 97 && ltb n 3 then import_error else a_module c

abbrev looked_up : List Name
looked_up = (97 ∷ []) ∷ [] ∷ (97 ∷ []) ∷ (97 ∷ []) ∷ []

-- The failure is not remembered, and the module is.
asked_again :
    (get_all getmodule looked_up (new_modules getmodule)).0
    ≡ import_error ∷ import_error ∷ a_module 97 ∷ a_module 97 ∷ []
unfolding get_all get_item get set_item new_modules
asked_again = refl

abbrev before : Modules
before = (get_all getmodule looked_up (new_modules getmodule)).1

get_item-Answers_example :
    Answers getmodule
      (97 ∷ [])
      (count (97 ∷ []) before.fetched)
      before
      (get_item getmodule (97 ∷ []) before)
get_item-Answers_example = Cached.get_item-Answers getmodule looked_up (97 ∷ [])
