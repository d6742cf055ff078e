-- ===== src/Brine/Syntax.antt =====
-- The values that brine sees, by `type(obj)`, and the tag bytes of rpyc_async/core/brine.py.
use rpyc_async.Prelude.{ℕ, suc, ◌<◌, Bool, List, ℤ}

-- A float is its 64-bit pattern, a text its code points. `fset` lists a frozenset's elements in the
-- order in which it iterates over them: listings of the same elements stand for equal sets.
-- `other` is an object of any type that brine does not know, by its identity.
mutual
  pub data Value : Type 0 where
    none_value not_implemented ellipsis : Value
    bool : Bool → Value
    int : ℤ → Value
    float : ℕ → Value
    complex : ℕ → ℕ → Value
    bytes : List ℕ → Value
    str : List ℕ → Value
    tuple : Items → Value
    fset : Items → Value
    slice : Value → Value → Value → Value
    other : ℕ → Value

  pub data Items : Type 0 where
    nil : Items
    cons : Value → Items → Items

abbrev pub length_items : Items → ℕ
length_items nil = 0
length_items (cons v vs) = suc (length_items vs)

-- Bit patterns of floats fit in 64 bits.
abbrev mutual
  pub IsValue : Value → Type 0
  IsValue (float n) = n < 18446744073709551616
  IsValue (complex m n) = (m < 18446744073709551616) × (n < 18446744073709551616)
  IsValue (tuple vs) = AreValues vs
  IsValue (fset vs) = AreValues vs
  IsValue (slice a b c) = IsValue a × IsValue b × IsValue c
  IsValue _ = Unit

  pub AreValues : Items → Type 0
  AreValues nil = Unit
  AreValues (cons v vs) = IsValue v × AreValues vs
