-- ===== src/Prelude/Keys.antt =====
-- Equality of keys, as an interface.
use Prim.Native.Nat.{ℕ}
use Prim.Native.String.{String}
use mathlib.Core.Path.{◌≡◌, refl}
use mathlib.Core.Logic.{◌↔◌}
use mathlib.Core.Bool.{Bool, true, false, ◌&&◌}
use mathlib.Core.List.{List, [], ◌∷◌}
use native.Mathlib.Omega.{arith}
use text.Mathlib.Text.{◌==◌ as text_matches}
use text.Mathlib.TextEquality.{eq_iff}
use rpyc_async.Prelude.Tests.{◌==◌, ==_iff}
use rpyc_async.Prelude.Int.{ℤ, pos, negsuc}

pub record Keyed {ℓ} (A : Type ℓ) : Type ℓ where
  pub matches : (key other : A) → Bool
  pub matches_iff : (key other : A) → (matches key other ≡ true) ↔ (key ≡ other)

instance abbrev pub ℕ_eq : Keyed ℕ
ℕ_eq = record { matches = ◌==◌; matches_iff = ==_iff }

instance abbrev pub string_eq : Keyed String
string_eq = record { matches = text_matches; matches_iff = eq_iff }

module _ {ℓ} {A : Type ℓ} ⦃e : Keyed A⦄ where
  pub matches_refl : (a : A) → e.matches a a ≡ true
  matches_refl a = (e.matches_iff a a).1 refl

  abbrev pub list_matches : (key other : List A) → Bool
  list_matches [] [] = true
  list_matches [] (b ∷ bs) = false
  list_matches (a ∷ rest) [] = false
  list_matches (a ∷ rest) (b ∷ bs) = e.matches a b && list_matches rest bs

  pub list_matches_iff : (key other : List A) → (list_matches key other ≡ true) ↔ (key ≡ other)
  list_matches_iff [] [] = (λ h. refl, λ h. refl)
  list_matches_iff [] (b ∷ bs) = (λ h. cc, λ h. cc)
  list_matches_iff (a ∷ rest) [] = (λ h. cc, λ h. cc)
  list_matches_iff (a ∷ rest) (b ∷ bs) = ground (arith, e.matches_iff a b, list_matches_iff rest bs)

  instance abbrev pub list_eq : Keyed (List A)
  list_eq = record { matches = list_matches; matches_iff = list_matches_iff }

module _ {ℓ κ} {A : Type ℓ} {B : Type κ} ⦃e : Keyed A⦄ ⦃f : Keyed B⦄ where
  abbrev pub pair_matches : (key other : A × B) → Bool
  pair_matches (a, b) (c, d) = e.matches a c && f.matches b d

  pub pair_matches_iff : (key other : A × B) → (pair_matches key other ≡ true) ↔ (key ≡ other)
  pair_matches_iff (a, b) (c, d) = ground (arith, e.matches_iff a c, f.matches_iff b d)

  instance abbrev pub pair_eq : Keyed (A × B)
  pair_eq = record { matches = pair_matches; matches_iff = pair_matches_iff }

abbrev pub ℤ_matches : (key other : ℤ) → Bool
ℤ_matches (pos m) (pos n) = m == n
ℤ_matches (negsuc m) (negsuc n) = m == n
ℤ_matches (pos m) (negsuc n) = false
ℤ_matches (negsuc m) (pos n) = false

pub ℤ_matches_iff : (key other : ℤ) → (ℤ_matches key other ≡ true) ↔ (key ≡ other)
ℤ_matches_iff (pos m) (pos n) = ground (arith, ==_iff m n)
ℤ_matches_iff (negsuc m) (negsuc n) = ground (arith, ==_iff m n)
ℤ_matches_iff (pos m) (negsuc n) = (λ h. cc, λ h. cc)
ℤ_matches_iff (negsuc m) (pos n) = (λ h. cc, λ h. cc)

instance abbrev pub ℤ_eq : Keyed ℤ
ℤ_eq = record { matches = ℤ_matches; matches_iff = ℤ_matches_iff }
