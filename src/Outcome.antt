-- ===== src/Outcome.antt =====
-- Python's exceptions as values: a call returns or raises. `out_of_fuel` has no counterpart in the
-- program; each function that takes fuel has a theorem that it does not return it.
use rpyc_async.Prelude.{◌≡◌, refl, ◌≢◌, ◌⊎◌, inl, inr, Bool, true, false, if◌then◌else◌}

pub data Exc : Type 0 where
  type_error value_error struct_error unicode_error : Exc
  attribute_error key_error runtime_error eof_error timeout_error os_error : Exc
  system_exit keyboard_interrupt : Exc

pub data Outcome {ℓ} (A : Type ℓ) : Type ℓ where
  ok : A → Outcome A
  raise : Exc → Outcome A
  out_of_fuel : Outcome A

module _ {ℓ κ} {A : Type ℓ} {B : Type κ} where
  infixl 5 ◌>>=◌
  abbrev pub ◌>>=◌ : Outcome A → (A → Outcome B) → Outcome B
  ok a >>= f = f a
  raise e >>= f = raise e
  out_of_fuel >>= f = out_of_fuel

  -- A bind that returned: its parts returned.
  pub >>=-eq-ok :
      (call : Outcome A) (next : A → Outcome B) {result : B}
      → (call >>= next) ≡ ok result
      → (value : A) × (call ≡ ok value) × (next value ≡ ok result)
  >>=-eq-ok (ok value) next h = (value, refl, h)
  >>=-eq-ok (raise e) next h = cc
  >>=-eq-ok out_of_fuel next h = cc

module _ {ℓ} {A : Type ℓ} where
  pub if-eq-ok :
      (b : Bool) (e : Exc) {r : Outcome A} {a : A}
      → (if b then r else raise e) ≡ ok a
      → (b ≡ true) × (r ≡ ok a)
  if-eq-ok true e h = (refl, h)
  if-eq-ok false e h = cc

  pub unless-eq-ok :
      (b : Bool) (e : Exc) {r : Outcome A} {a : A}
      → (if b then raise e else r) ≡ ok a
      → (b ≡ false) × (r ≡ ok a)
  unless-eq-ok true e h = cc
  unless-eq-ok false e h = (refl, h)

  pub Outcome-cases :
      (r : Outcome A) → ((a : A) × (r ≡ ok a)) ⊎ ((e : Exc) × (r ≡ raise e)) ⊎ (r ≡ out_of_fuel)
  Outcome-cases (ok a) = inl (a, refl)
  Outcome-cases (raise e) = inr (inl (e, refl))
  Outcome-cases out_of_fuel = inr (inr refl)

-- The call did not run out of fuel, and `P` holds of what it returned, if it returned.
pub data Ensures {ℓ κ} {A : Type ℓ} (P : A → Type κ) : Outcome A → Type (ℓ ⊔ κ) where
  returns : {a : A} → P a → Ensures P (ok a)
  raises : {e : Exc} → Ensures P (raise e)

-- The call returned or raised.
abbrev pub Settles {ℓ} : {A : Type ℓ} → Outcome A → Type ℓ
Settles {A} r = Ensures (λ (a : A). Unit {0}) r

module _ {ℓ κ} {A : Type ℓ} {P : A → Type κ} where
  pub Ensures-ne-out_of_fuel : {r : Outcome A} → Ensures P r → r ≢ out_of_fuel
  Ensures-ne-out_of_fuel (returns h) = cc
  Ensures-ne-out_of_fuel raises = cc

  pub Ensures-mono {κ'} :
      {Q : A → Type κ'} {r : Outcome A} → Ensures P r → ((a : A) → P a → Q a) → Ensures Q r
  Ensures-mono (returns {a} h) k = returns (k a h)
  Ensures-mono raises k = raises

  pub Ensures-bind {μ ν} :
      {B : Type μ} {Q : B → Type ν} {r : Outcome A} {f : A → Outcome B}
      → Ensures P r
      → ((a : A) → P a → Ensures Q (f a))
      → Ensures Q (r >>= f)
  Ensures-bind (returns {a} h) k = k a h
  Ensures-bind raises k = raises

pub Settles-if {ℓ} :
    {A : Type ℓ} (b : Bool) {x y : Outcome A} → Settles x → Settles y → Settles (if b then x else y)
Settles-if true hx hy = hx
Settles-if false hx hy = hy

pub Settles-cases {ℓ} :
    {A : Type ℓ} {r : Outcome A} → Settles r → ((a : A) × (r ≡ ok a)) ⊎ ((e : Exc) × (r ≡ raise e))
Settles-cases (returns {a} h) = inl (a, refl)
Settles-cases (raises {e}) = inr (e, refl)

pub Ensures-cases {ℓ κ} :
    {A : Type ℓ} {P : A → Type κ} {r : Outcome A}
    → Ensures P r
    → ((a : A) × (r ≡ ok a) × P a) ⊎ ((e : Exc) × (r ≡ raise e))
Ensures-cases (returns {a} h) = inl (a, refl, h)
Ensures-cases (raises {e}) = inr (e, refl)
