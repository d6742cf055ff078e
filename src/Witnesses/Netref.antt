-- ===== src/Witnesses/Netref.antt =====
-- A peer that serves every name: a comparison through a proxy.
use rpyc_async.Prelude.{ℕ, true, false, [], none, ◌+◌}
use rpyc_async.Outcome.{ok}
use rpyc_async.Protocol.Handlers.{Objects, Permissions}
use rpyc_async.Netref.Transparent

-- Every name is plain, no prefix is set.
abbrev permissions : Permissions
permissions = record {
  checks = record {
    permitted = true;
    allow_all_attrs = true;
    allow_exposed_attrs = false;
    allow_safe_attrs = false;
    allow_public_attrs = true;
    exposed_prefix = [];
    safe_attrs = [];
  };
  allow_getattr = true;
  allow_delattr = true;
  allow_setattr = true;
  allow_pickle = false;
}

-- Objects are numbers; an attribute of one is the next number, and a call adds up.
abbrev objects : Objects ℕ
objects = record {
  target = λ o. record { is_netref = false; hasattr = λ name. true; hasattr_static = λ name. true };
  type_of = λ o. 0;
  rpyc_getattr = λ o. none;
  rpyc_delattr = λ o. none;
  rpyc_setattr = λ o. none;
  getattr = λ o name. ok (o + 1);
  delattr = λ o name. ok 0;
  setattr = λ o name v. ok 0;
  call = λ o args kwargs. ok (o + 100);
  str = ok;
  repr = ok;
  hash = ok;
  dir = ok;
  take = λ o n. ok o;
  pickle = λ o n. ok o;
  slice = λ a b. a;
  truth = λ o. ok true;
  is_none = λ o. false;
  none_object = 0;
  maxint = 0;
  exc_info = λ o. ok (o, o, o);
}
