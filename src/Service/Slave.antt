-- ===== src/Service/Slave.antt =====
-- What a connection of `SlaveService` serves.
use rpyc_async.Prelude.{none, ◌≡◌, arith}
use rpyc_async.Outcome.{Outcome, ok}
use rpyc_async.Protocol.Attributes.{
  Name, Config, Target, name_str, name_of, check_attr, is_plain, has_exposed, has_prefix,
  access_attr,
}
use rpyc_async.Service.{slave_config}

check_attr-slave :
    (c : Config) (obj : Target) (name : Name) → check_attr (slave_config c) obj name ≡ ok name
unfolding check_attr is_plain has_exposed has_prefix slave_config
check_attr-slave c obj name = ground arith

-- Where the object does not decide for itself, an access to a name goes to that very name.
pub access_attr-slave {ℓ} :
    {A : Type ℓ} (c : Config) (obj : Target) (default : Name → Outcome A) (name : Name)
    → access_attr (slave_config c) obj none default (name_str name) ≡ default name
unfolding access_attr name_of
access_attr-slave c obj default name = rw (check_attr-slave c obj name)
