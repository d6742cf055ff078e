-- ===== src/Brine/Load.antt =====
-- `_load` and its registry, over a `BytesIO`: a read past the end returns what is left, and raises
-- nothing.
use rpyc_async.Prelude.{
  ℕ, zero, suc, ◌+◌, ◌-◌, true, false, ◌&&◌, [], ◌∷◌, ltb, leb, ◌==◌, length, take, drop,
  if◌then◌else◌, ℤ, pos, sub_ℕ,
}
use rpyc_async.Outcome.{
  Outcome, ok, raise, out_of_fuel, type_error, value_error, attribute_error, ◌>>=◌,
}
use rpyc_async.Outcome
use rpyc_async.Codec.Words.{Bytes, unpack_i1, unpack_i4, unpack_f8, unpack_c16}
use rpyc_async.Codec.Utf8.{decode}
use rpyc_async.Codec.Decimal.{int_of_bytes}
use rpyc_async.Brine.Syntax.{
  Value, Items, none_value, not_implemented, ellipsis, bool, int, float, complex, bytes, str, tuple,
  fset, slice, nil, cons,
}

-- What the tag byte selects: an immediate integer, or an entry of `_load_registry`.
pub data Tag : Type 0 where
  imm : ℤ → Tag
  none_tag empty_str empty_tuple true_tag false_tag not_implemented_tag ellipsis_tag : Tag
  unicode float_tag slice_tag fset_tag complex_tag : Tag
  str_of tuple_of : ℕ → Tag
  str_l1 str_l4 tuple_l1 tuple_l4 int_l1 int_l4 : Tag
  unknown : Tag

unfoldable pub tag_of : ℕ → Tag
tag_of t =
    if leb 0x20 t && ltb t 0xf0
    then imm (sub_ℕ t 0x50)
    else if t == 0x00
    then none_tag
    else if t == 0x01
    then empty_str
    else if t == 0x02
    then empty_tuple
    else if t == 0x03
    then true_tag
    else if t == 0x04
    then false_tag
    else if t == 0x05
    then not_implemented_tag
    else if t == 0x06
    then ellipsis_tag
    else if t == 0x08
    then unicode
    else if leb 0x0a t && leb t 0x0d
    then str_of (t - 0x09)
    else if t == 0x0e
    then str_l1
    else if t == 0x0f
    then str_l4
    else if leb 0x10 t && leb t 0x13
    then tuple_of (t - 0x0f)
    else if t == 0x14
    then tuple_l1
    else if t == 0x15
    then tuple_l4
    else if t == 0x16
    then int_l1
    else if t == 0x17
    then int_l4
    else if t == 0x18
    then float_tag
    else if t == 0x19
    then slice_tag
    else if t == 0x1a
    then fset_tag
    else if t == 0x1b
    then complex_tag
    else unknown

abbrev pub Reader {ℓ} : Type ℓ → Type ℓ
Reader A = Bytes → Outcome (A × Bytes)

module _ {ℓ κ} {A : Type ℓ} {B : Type κ} where
  infixl 4 ◌>>>◌
  abbrev pub ◌>>>◌ : Reader A → (A → Reader B) → Reader B
  ◌>>>◌ p f s = Outcome.◌>>=◌ (p s) λ (a, rest). f a rest

abbrev pub pure {ℓ} : {A : Type ℓ} → A → Reader A
pure a s = ok (a, s)

-- A conversion of what was read, which may raise.
abbrev pub lift {ℓ} : {A : Type ℓ} → Outcome A → Reader A
lift r s = r >>= λ a. ok (a, s)

abbrev pub read : ℕ → Reader Bytes
read n s = ok (take n s, drop n s)

abbrev pub read_i1 : Reader ℕ
read_i1 = read 1 >>> λ w. lift (unpack_i1 w)

abbrev pub read_i4 : Reader ℕ
read_i4 = read 4 >>> λ w. lift (unpack_i4 w)

-- `tuple(_load(stream) for i in range(n))`
unfoldable pub load_items : Reader Value → ℕ → Reader Items
load_items self zero s = ok (nil, s)
load_items self (suc n) s = (self >>> λ v. load_items self n >>> λ vs. pure (cons v vs)) s

ints : Bytes → Items
ints [] = nil
ints (b ∷ bs) = cons (int (pos b)) (ints bs)

chars : Bytes → Items
chars [] = nil
chars (c ∷ cs) = cons (str (c ∷ [])) (chars cs)

-- The items of a value that Python can iterate over.
unfoldable pub iterate : Value → Outcome Items
unfolding ints chars
iterate (tuple vs) = ok vs
iterate (fset vs) = ok vs
iterate (bytes bs) = ok (ints bs)
iterate (str cs) = ok (chars cs)
iterate _ = raise type_error

-- `start, stop, step = …`
unfoldable pub slice_of : Items → Outcome Value
slice_of (cons a (cons b (cons c nil))) = ok (slice a b c)
slice_of _ = raise value_error

unfoldable pub decoded : Value → Outcome Value
unfolding decode
decoded (bytes bs) = decode bs >>= λ cs. ok (str cs)
decoded _ = raise attribute_error

-- One entry of the registry; `self` is `_load`.
unfoldable pub load_tag : ℕ → Reader Value → Tag → Reader Value
unfolding load_items iterate slice_of decoded int_of_bytes unpack_i1 unpack_i4 unpack_f8 unpack_c16
load_tag limit self (imm z) = pure (int z)
load_tag limit self none_tag = pure none_value
load_tag limit self empty_str = pure (bytes [])
load_tag limit self empty_tuple = pure (tuple nil)
load_tag limit self true_tag = pure (bool true)
load_tag limit self false_tag = pure (bool false)
load_tag limit self not_implemented_tag = pure not_implemented
load_tag limit self ellipsis_tag = pure ellipsis
load_tag limit self unicode = self >>> λ v. lift (decoded v)
load_tag limit self float_tag = read 8 >>> λ w. lift (unpack_f8 w >>= λ x. ok (float x))
load_tag limit self complex_tag =
    read 16 >>> λ w. lift (unpack_c16 w >>= λ (re, im). ok (complex re im))
load_tag limit self (str_of n) = read n >>> λ bs. pure (bytes bs)
load_tag limit self str_l1 = read_i1 >>> λ n. read n >>> λ bs. pure (bytes bs)
load_tag limit self str_l4 = read_i4 >>> λ n. read n >>> λ bs. pure (bytes bs)
load_tag limit self (tuple_of n) = load_items self n >>> λ vs. pure (tuple vs)
load_tag limit self tuple_l1 = read_i1 >>> λ n. load_items self n >>> λ vs. pure (tuple vs)
load_tag limit self tuple_l4 = read_i4 >>> λ n. load_items self n >>> λ vs. pure (tuple vs)
load_tag limit self int_l1 =
    read_i1 >>> λ n. read n >>> λ text. lift (int_of_bytes limit text >>= λ z. ok (int z))
load_tag limit self int_l4 =
    read_i4 >>> λ n. read n >>> λ text. lift (int_of_bytes limit text >>= λ z. ok (int z))
load_tag limit self slice_tag = self >>> λ v. lift (iterate v >>= slice_of)
load_tag limit self fset_tag = self >>> λ v. lift (iterate v >>= λ vs. ok (fset vs))
load_tag limit self unknown = λ s. raise type_error

-- `_load`. At the end of the stream the tag is empty, and the registry has no entry for it.
unfoldable pub load_step : ℕ → Reader Value → Reader Value
unfolding load_tag tag_of
load_step limit self [] = raise type_error
load_step limit self (t ∷ s) = load_tag limit self (tag_of t) s

unfoldable pub load_value : ℕ → ℕ → Reader Value
unfolding load_step
load_value limit zero s = out_of_fuel
load_value limit (suc fuel) s = load_step limit (load_value limit fuel) s

-- `load`: what follows the value is ignored. Each level of nesting takes a byte.
unfoldable pub load : ℕ → Bytes → Outcome Value
unfolding load_value
load limit s = load_value limit (length s + 1) s >>= λ (v, rest). ok v
