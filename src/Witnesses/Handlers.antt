-- ===== src/Witnesses/Handlers.antt =====
-- A call of a private attribute of an object that has an exposed counterpart.
use rpyc_async.Prelude.{ℕ, ◌≡◌, refl, true, false, [], ◌∷◌, none}
use rpyc_async.Outcome.{ok}
use rpyc_async.Protocol.Attributes.{Config, name_str, same}
use rpyc_async.Protocol.Handlers.{Objects, Permissions, gets, calls, callattr, handle}
use rpyc_async.Protocol.Handlers.Confined.{All, IsPermitted}
use rpyc_async.Protocol.Handlers.Confined

abbrev checks : Config
checks = record {
  permitted = true;
  allow_all_attrs = false;
  allow_exposed_attrs = true;
  allow_safe_attrs = true;
  allow_public_attrs = true;
  exposed_prefix = 101 ∷ 95 ∷ [];
  safe_attrs = [];
}

abbrev permissions : Permissions
permissions = record {
  checks = checks;
  allow_getattr = true;
  allow_delattr = false;
  allow_setattr = false;
  allow_pickle = false;
}

-- Objects are numbers; each has the attribute `e__x`, which is the next one.
abbrev objects : Objects ℕ
unfolding same
objects = record {
  target = λ o. record {
    is_netref = false;
    hasattr = same (101 ∷ 95 ∷ 95 ∷ 120 ∷ []);
    hasattr_static = same (101 ∷ 95 ∷ 95 ∷ 120 ∷ []);
  };
  type_of = λ o. 0;
  rpyc_getattr = λ o. none;
  rpyc_delattr = λ o. none;
  rpyc_setattr = λ o. none;
  getattr = λ o name. ok 8;
  delattr = λ o name. ok 0;
  setattr = λ o name v. ok 0;
  call = λ o args kwargs. ok 9;
  str = ok;
  repr = ok;
  hash = ok;
  dir = ok;
  take = λ o n. ok o;
  pickle = λ o n. ok o;
  slice = λ a b. a;
  truth = λ o. ok true;
  is_none = λ o. false;
  none_object = 0;
  maxint = 0;
  exc_info = λ o. ok (o, o, o);
}

call_served :
    handle objects permissions 1 (callattr 7 (name_str (95 ∷ 120 ∷ [])) [] [])
    ≡ (gets 7 (101 ∷ 95 ∷ 95 ∷ 120 ∷ []) ∷ calls 8 ∷ [], ok 9)
unfolding handle
call_served = refl

handle-All_example :
    All
      (IsPermitted objects permissions)
      (handle objects permissions 1 (callattr 7 (name_str (95 ∷ 120 ∷ [])) [] [])).0
handle-All_example =
    Confined.handle-All objects permissions 1 (callattr 7 (name_str (95 ∷ 120 ∷ [])) [] [])
