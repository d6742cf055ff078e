-- ===== src/Netref.antt =====
-- The attributes of proxies in rpyc_async/core/netref.py: which operations stay with the proxy, and what
-- the others ask of the peer. Names are lists of code points.
pub mod Transparent
use rpyc_async.Prelude.{ℕ, Bool, true, false, List, [], ◌∷◌, Option, none, some, if◌then◌else◌}
use rpyc_async.Protocol.Attributes.{Name, Sent, name_str, same, is_in}
use rpyc_async.Protocol.Handlers.{
  Request, repr, str, hash, dir, getattr, delattr, setattr, call, callattr, cmp,
}

-- `DELETED_ATTRS`
abbrev pub deleted_attrs : List Name
deleted_attrs =
    (95 ∷ 95 ∷ 97 ∷ 114 ∷ 114 ∷ 97 ∷ 121 ∷ 95 ∷ 115 ∷ 116 ∷ 114 ∷ 117 ∷ 99 ∷ 116 ∷ 95 ∷ 95 ∷ [])
    ∷ (95 ∷ 95 ∷ 97 ∷ 114 ∷ 114 ∷ 97 ∷ 121 ∷ 95 ∷ 105 ∷ 110 ∷ 116 ∷ 101 ∷ 114 ∷ 102 ∷ 97 ∷ 99 ∷ 101
        ∷ 95 ∷ 95 ∷ [])
    ∷ []

-- `LOCAL_ATTRS`, but for those that are deleted.
abbrev pub local_attrs : List Name
local_attrs =
    (95 ∷ 95 ∷ 95 ∷ 95 ∷ 99 ∷ 111 ∷ 110 ∷ 110 ∷ 95 ∷ 95 ∷ [])
    ∷ (95 ∷ 95 ∷ 95 ∷ 95 ∷ 105 ∷ 100 ∷ 95 ∷ 112 ∷ 97 ∷ 99 ∷ 107 ∷ 95 ∷ 95 ∷ [])
    ∷ (95 ∷ 95 ∷ 95 ∷ 95 ∷ 114 ∷ 101 ∷ 102 ∷ 99 ∷ 111 ∷ 117 ∷ 110 ∷ 116 ∷ 95 ∷ 95 ∷ [])
    ∷ (95 ∷ 95 ∷ 95 ∷ 95 ∷ 105 ∷ 115 ∷ 95 ∷ 97 ∷ 115 ∷ 121 ∷ 110 ∷ 99 ∷ 95 ∷ 95 ∷ [])
    ∷ (95 ∷ 95 ∷ 99 ∷ 108 ∷ 97 ∷ 115 ∷ 115 ∷ 95 ∷ 95 ∷ [])
    ∷ (95 ∷ 95 ∷ 99 ∷ 109 ∷ 112 ∷ 95 ∷ 95 ∷ [])
    ∷ (95 ∷ 95 ∷ 100 ∷ 101 ∷ 108 ∷ 95 ∷ 95 ∷ [])
    ∷ (95 ∷ 95 ∷ 100 ∷ 101 ∷ 108 ∷ 97 ∷ 116 ∷ 116 ∷ 114 ∷ 95 ∷ 95 ∷ [])
    ∷ (95 ∷ 95 ∷ 100 ∷ 105 ∷ 114 ∷ 95 ∷ 95 ∷ [])
    ∷ (95 ∷ 95 ∷ 100 ∷ 111 ∷ 99 ∷ 95 ∷ 95 ∷ [])
    ∷ (95 ∷ 95 ∷ 103 ∷ 101 ∷ 116 ∷ 97 ∷ 116 ∷ 116 ∷ 114 ∷ 95 ∷ 95 ∷ [])
    ∷ (95 ∷ 95 ∷ 103 ∷ 101 ∷ 116 ∷ 97 ∷ 116 ∷ 116 ∷ 114 ∷ 105 ∷ 98 ∷ 117 ∷ 116 ∷ 101 ∷ 95 ∷ 95 ∷ [])
    ∷ (95 ∷ 95 ∷ 104 ∷ 97 ∷ 115 ∷ 104 ∷ 95 ∷ 95 ∷ [])
    ∷ (95 ∷ 95 ∷ 105 ∷ 110 ∷ 115 ∷ 116 ∷ 97 ∷ 110 ∷ 99 ∷ 101 ∷ 99 ∷ 104 ∷ 101 ∷ 99 ∷ 107 ∷ 95 ∷ 95
        ∷ [])
    ∷ (95 ∷ 95 ∷ 105 ∷ 110 ∷ 105 ∷ 116 ∷ 95 ∷ 95 ∷ [])
    ∷ (95 ∷ 95 ∷ 109 ∷ 101 ∷ 116 ∷ 97 ∷ 99 ∷ 108 ∷ 97 ∷ 115 ∷ 115 ∷ 95 ∷ 95 ∷ [])
    ∷ (95 ∷ 95 ∷ 109 ∷ 111 ∷ 100 ∷ 117 ∷ 108 ∷ 101 ∷ 95 ∷ 95 ∷ [])
    ∷ (95 ∷ 95 ∷ 110 ∷ 101 ∷ 119 ∷ 95 ∷ 95 ∷ [])
    ∷ (95 ∷ 95 ∷ 114 ∷ 101 ∷ 100 ∷ 117 ∷ 99 ∷ 101 ∷ 95 ∷ 95 ∷ [])
    ∷ (95 ∷ 95 ∷ 114 ∷ 101 ∷ 100 ∷ 117 ∷ 99 ∷ 101 ∷ 95 ∷ 101 ∷ 120 ∷ 95 ∷ 95 ∷ [])
    ∷ (95 ∷ 95 ∷ 114 ∷ 101 ∷ 112 ∷ 114 ∷ 95 ∷ 95 ∷ [])
    ∷ (95 ∷ 95 ∷ 115 ∷ 101 ∷ 116 ∷ 97 ∷ 116 ∷ 116 ∷ 114 ∷ 95 ∷ 95 ∷ [])
    ∷ (95 ∷ 95 ∷ 115 ∷ 108 ∷ 111 ∷ 116 ∷ 115 ∷ 95 ∷ 95 ∷ [])
    ∷ (95 ∷ 95 ∷ 115 ∷ 116 ∷ 114 ∷ 95 ∷ 95 ∷ [])
    ∷ (95 ∷ 95 ∷ 119 ∷ 101 ∷ 97 ∷ 107 ∷ 114 ∷ 101 ∷ 102 ∷ 95 ∷ 95 ∷ [])
    ∷ (95 ∷ 95 ∷ 100 ∷ 105 ∷ 99 ∷ 116 ∷ 95 ∷ 95 ∷ [])
    ∷ (95 ∷ 95 ∷ 109 ∷ 101 ∷ 116 ∷ 104 ∷ 111 ∷ 100 ∷ 115 ∷ 95 ∷ 95 ∷ [])
    ∷ (95 ∷ 95 ∷ 101 ∷ 120 ∷ 105 ∷ 116 ∷ 95 ∷ 95 ∷ [])
    ∷ (95 ∷ 95 ∷ 101 ∷ 113 ∷ 95 ∷ 95 ∷ [])
    ∷ (95 ∷ 95 ∷ 110 ∷ 101 ∷ 95 ∷ 95 ∷ [])
    ∷ (95 ∷ 95 ∷ 108 ∷ 116 ∷ 95 ∷ 95 ∷ [])
    ∷ (95 ∷ 95 ∷ 103 ∷ 116 ∷ 95 ∷ 95 ∷ [])
    ∷ (95 ∷ 95 ∷ 108 ∷ 101 ∷ 95 ∷ 95 ∷ [])
    ∷ (95 ∷ 95 ∷ 103 ∷ 101 ∷ 95 ∷ 95 ∷ [])
    ∷ []

abbrev pub class_name : Name
class_name = (95 ∷ 95 ∷ 99 ∷ 108 ∷ 97 ∷ 115 ∷ 115 ∷ 95 ∷ 95 ∷ [])

abbrev pub doc_name : Name
doc_name = (95 ∷ 95 ∷ 100 ∷ 111 ∷ 99 ∷ 95 ∷ 95 ∷ [])

-- `__call__` and `__array__`
abbrev pub own_methods : List Name
own_methods =
    (95 ∷ 95 ∷ 99 ∷ 97 ∷ 108 ∷ 108 ∷ 95 ∷ 95 ∷ [])
    ∷ (95 ∷ 95 ∷ 97 ∷ 114 ∷ 114 ∷ 97 ∷ 121 ∷ 95 ∷ 95 ∷ [])
    ∷ []

-- What is done with a proxy. `method` is a call of a method that its class has from `_make_method`, and
-- `compare` one of a comparison method, behind which Python may still try the reflected one.
-- `call_proxy` has `____is_async__` of the proxy.
pub data Operation (O : Type 0) : Type 0 where
  get_attribute delete_attribute : Name → Operation O
  set_attribute : Name → O → Operation O
  call_proxy : Bool → List O → List (Name × O) → Operation O
  method : Name → List O → List (Name × O) → Operation O
  compare : Name → O → Operation O
  to_repr to_str to_hash list_names : Operation O

-- The proxy's own attribute; its class, or the peer's where it has none; an AttributeError; a request, and
-- an AsyncResult for HANDLE_ASYNC_CALL.
pub data Route (O : Type 0) : Type 0 where
  own own_class refused : Route O
  sends : Request O → Route O
  sends_async : O → List O → List (Name × O) → Route O

unfoldable pub is_local : Name → Bool
unfolding is_in
is_local name = if is_in name deleted_attrs then true else is_in name local_attrs

module _ {O : Type 0} where
  -- `__getattribute__`
  unfoldable pub get_route : O → Name → Route O
  unfolding is_in same
  get_route o name =
      if same name class_name
      then own_class
      else if same name doc_name
      then sends (getattr o (name_str name))
      else if is_in name deleted_attrs
      then refused
      else if is_in name local_attrs
      then own
      else if is_in name own_methods
      then own
      else sends (getattr o (name_str name))

  unfoldable pub route : O → Operation O → Route O
  unfolding get_route is_local
  route o (get_attribute name) = get_route o name
  route o (delete_attribute name) = if is_local name then own else sends (delattr o (name_str name))
  route o (set_attribute name v) =
      if is_local name then own else sends (setattr o (name_str name) v)
  route o (call_proxy true args kwargs) = sends_async o args kwargs
  route o (call_proxy false args kwargs) = sends (call o args kwargs)
  route o (method name args kwargs) = sends (callattr o (name_str name) args kwargs)
  route o (compare op other) = sends (cmp o other (name_str op))
  route o to_repr = sends (repr o)
  route o to_str = sends (str o)
  route o to_hash = sends (hash o)
  route o list_names = sends (dir o)
