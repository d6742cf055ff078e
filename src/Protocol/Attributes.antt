-- ===== src/Protocol/Attributes.antt =====
-- `_check_attr` and `_access_attr`. Names are lists of code points.
use rpyc_async.Prelude.{
  ℕ, Bool, true, false, List, [], ◌∷◌, ◌++◌, Option, none, some, ◌≡◌, ◌==◌, if◌then◌else◌, ◌&&◌,
  arith, ◌⊎◌,
}
use mathlib.Core.Bool.{◌||◌, not}
use rpyc_async.Outcome.{Outcome, ok, raise, attribute_error, type_error, ◌>>=◌}
use rpyc_async.Codec.Words.{Bytes}
use rpyc_async.Codec.Utf8.{decode}

abbrev pub Name : Type 0
Name = List ℕ

-- The entries of `_config` that the checks read; `permitted` is the entry of the operation's own
-- permission (`allow_getattr` and the like).
pub record Config : Type 0 where
  pub permitted : Bool
  pub allow_all_attrs : Bool
  pub allow_exposed_attrs : Bool
  pub allow_safe_attrs : Bool
  pub allow_public_attrs : Bool
  pub exposed_prefix : Name
  pub safe_attrs : List Name

-- What the checks ask of an object.
pub record Target : Type 0 where
  pub is_netref : Bool
  pub hasattr : Name → Bool
  pub hasattr_static : Name → Bool

unfoldable pub same : Name → Name → Bool
same [] [] = true
same [] (d ∷ ds) = false
same (c ∷ cs) [] = false
same (c ∷ cs) (d ∷ ds) = (c == d) && same cs ds

-- `name.startswith(prefix)`
unfoldable pub startswith : Name → Name → Bool
startswith name [] = true
startswith [] (p ∷ ps) = false
startswith (c ∷ cs) (p ∷ ps) = (c == p) && startswith cs ps

-- `name in names`
unfoldable pub is_in : Name → List Name → Bool
unfolding same
is_in name [] = false
is_in name (n ∷ ns) = same n name || is_in name ns

-- The truth of `config["allow_exposed_attrs"] and config["exposed_prefix"]`: an empty prefix is
-- false.
unfoldable pub has_prefix : Config → Bool
unfolding same
has_prefix c = c.allow_exposed_attrs && not (same c.exposed_prefix [])

unfoldable pub is_plain : Config → Name → Bool
unfolding startswith is_in
is_plain c name =
    c.allow_all_attrs
    || (c.allow_exposed_attrs && startswith name c.exposed_prefix)
    || (c.allow_safe_attrs && is_in name c.safe_attrs)
    || (c.allow_public_attrs && not (startswith name (95 ∷ [])))

-- A netref is asked statically only: `hasattr` on it would be a call to the peer.
unfoldable pub has_exposed : Config → Target → Name → Bool
unfolding has_prefix
has_exposed c obj name =
    has_prefix c
    && (if obj.is_netref
        then obj.hasattr_static (c.exposed_prefix ++ name)
        else (obj.hasattr (c.exposed_prefix ++ name)
            || obj.hasattr_static (c.exposed_prefix ++ name)))

unfoldable pub check_attr : Config → Target → Name → Outcome Name
unfolding is_plain has_exposed
check_attr c obj name =
    let plain = is_plain c name in
    let exposed = has_exposed c obj name in
    if not c.permitted
    then raise attribute_error
    else if obj.is_netref && (plain && not exposed)
    then ok name
    else if not obj.is_netref && (plain && (not exposed || obj.hasattr name))
    then ok name
    else if exposed
    then ok (c.exposed_prefix ++ name)
    else if plain
    then ok name
    else raise attribute_error

-- A name as it comes off the wire.
pub data Sent : Type 0 where
  name_str : Name → Sent
  name_bytes : Bytes → Sent
  name_other : Sent

unfoldable pub name_of : Sent → Outcome Name
unfolding decode
name_of (name_str name) = ok name
name_of (name_bytes bs) = decode bs
name_of name_other = raise type_error

-- An accessor of the object's own type decides for itself; the default one gets a checked name.
unfoldable pub access_attr {ℓ} :
    {A : Type ℓ}
    → Config
    → Target
    → Option (Name → Outcome A)
    → (Name → Outcome A)
    → Sent
    → Outcome A
unfolding name_of check_attr
access_attr c obj overrider default sent = name_of sent >>= λ name. elim overrider [
  | some accessor ↦ accessor name
  | none ↦ check_attr c obj name >>= default
]

-- The name is the object's own and not only its exposed counterpart's.
abbrev pub is_own : Target → Name → Bool
is_own obj name = not obj.is_netref && obj.hasattr name

-- An access is refused exactly if its permission is not set, or the name is neither plain nor has
-- an exposed counterpart; it goes to the name itself only if that is plain, and with an exposed
-- counterpart only if the object is no netref and has the name; and else to the exposed
-- counterpart.
pub check_attr_cases :
    (c : Config) (obj : Target) (name : Name)
    → ((check_attr c obj name ≡ raise attribute_error)
        × ((c.permitted && (is_plain c name || has_exposed c obj name)) ≡ false))
      ⊎ ((check_attr c obj name ≡ ok name)
          × (c.permitted ≡ true)
          × (is_plain c name ≡ true)
          × ((has_exposed c obj name && not (is_own obj name)) ≡ false))
      ⊎ ((check_attr c obj name ≡ ok (c.exposed_prefix ++ name))
          × (c.permitted ≡ true)
          × (has_exposed c obj name ≡ true)
          × ((is_plain c name && is_own obj name) ≡ false))
unfolding check_attr
check_attr_cases c obj name = ground arith

-- With `allow_all_attrs` off, a private name that is not listed as safe and does not itself start
-- with the prefix is never served: an access to it that is allowed goes to its exposed
-- counterpart, which the object has.
pub check_attr-private :
    (c : Config) (obj : Target) (name served : Name)
    → c.allow_all_attrs ≡ false
    → startswith name (95 ∷ []) ≡ true
    → is_in name c.safe_attrs ≡ false
    → startswith name c.exposed_prefix ≡ false
    → check_attr c obj name ≡ ok served
    → (served ≡ c.exposed_prefix ++ name) × (has_exposed c obj name ≡ true)
unfolding check_attr is_plain
check_attr-private c obj name served all private safe exposed h = ground arith
