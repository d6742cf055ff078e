-- ===== src/Netref/Transparent.antt =====
-- An operation on a proxy has the result that it has on the object.
use rpyc_async.Prelude.{Bool, [], ◌∷◌, none, ◌≡◌}
use rpyc_async.Outcome.{Outcome, ok, ◌>>=◌}
use rpyc_async.Protocol.Attributes.{Name, check_attr}
use rpyc_async.Protocol.Handlers.{Objects, Permissions, getattr, delattr, setattr, permit, handle}
use rpyc_async.Netref.{
  Operation, get_attribute, delete_attribute, set_attribute, call_proxy, method, compare, to_repr,
  to_str, to_hash, list_names, Route, own, own_class, refused, sends, sends_async,
}

module _ {O : Type 0} (k : Objects O) (p : Permissions) where
  -- Every attribute of the object is served under its own name, and its type overrides nothing.
  abbrev pub Serves : Bool → O → Type 0
  Serves allowed o = (name : Name) → check_attr (permit k p allowed) (k.target o) name ≡ ok name

  abbrev pub IsOpen : O → Type 0
  IsOpen o =
      Serves p.allow_getattr o
      × Serves p.allow_delattr o
      × Serves p.allow_setattr o
      × (k.rpyc_getattr o ≡ none)
      × (k.rpyc_delattr o ≡ none)
      × (k.rpyc_setattr o ≡ none)

  -- What the operation gives on the object itself.
  abbrev pub on_object : O → Operation O → Outcome O
  on_object o (get_attribute name) = k.getattr o name
  on_object o (delete_attribute name) = k.delattr o name
  on_object o (set_attribute name v) = k.setattr o name v
  on_object o (call_proxy is_async args kwargs) = k.call o args kwargs
  on_object o (method name args kwargs) = k.getattr o name >>= λ f. k.call f args kwargs
  on_object o (compare op other) = k.getattr (k.type_of o) op >>= λ f. k.call f (o ∷ other ∷ []) []
  on_object o to_repr = k.repr o
  on_object o to_str = k.str o
  on_object o to_hash = k.hash o
  on_object o list_names = k.dir o

  -- What the peer's handler gives for a request, where the proxy sends one.
  abbrev pub Gives : O → Route O → Outcome O → Type 0
  Gives root own r = Unit {0}
  Gives root own_class r = Unit {0}
  Gives root refused r = Unit {0}
  Gives root (sends_async o args kwargs) r = Unit {0}
  Gives root (sends request) r = (handle k p root request).1 ≡ r
