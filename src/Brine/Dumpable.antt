-- ===== src/Brine/Dumpable.antt =====
-- `dumpable`, and what it says of `dump`.
use rpyc_async.Prelude.{
  ℕ, ◌≡◌, refl, ◌≢◌, Bool, true, false, ◌&&◌, [], ◌∷◌, ◌++◌, List, length, ltb, ◌==◌, Bool-cases,
  inl, inr, ℤ, pos, negsuc, if◌then◌else◌,
}
use rpyc_async.Outcome.{Outcome, Exc, ok, raise, out_of_fuel, type_error, unicode_error, ◌>>=◌}
use rpyc_async.Codec.Words.{Bytes}
use rpyc_async.Codec.Utf8.{encode, is_scalar}
use rpyc_async.Codec.Decimal.{str_of_int}
use rpyc_async.Brine.Syntax.{
  Value, Items, none_value, not_implemented, ellipsis, bool, int, float, complex, bytes, str, tuple,
  fset, slice, other, nil, cons, length_items,
}
use rpyc_async.Brine.Dump.{
  sized, is_imm, dump_int, dump_bytes, dump_str, tuple_header, dump_value, dump_items, dump,
}

unfoldable mutual
  pub dumpable : Value → Bool
  dumpable (tuple vs) = all_dumpable vs
  dumpable (fset vs) = all_dumpable vs
  dumpable (slice a b c) = dumpable a && (dumpable b && dumpable c)
  dumpable (other o) = false
  dumpable _ = true

  pub all_dumpable : Items → Bool
  all_dumpable nil = true
  all_dumpable (cons v vs) = dumpable v && all_dumpable vs

-- The call returned, or raised an exception other than TypeError.
pub data Accepts {ℓ} {A : Type ℓ} : Outcome A → Type ℓ where
  returned : {a : A} → Accepts (ok a)
  raised : (e : Exc) → e ≢ type_error → Accepts (raise e)

-- The call raised.
pub data Rejects {ℓ} {A : Type ℓ} : Outcome A → Type ℓ where
  rejected : {e : Exc} → Rejects (raise e)

Accepts-bind {ℓ κ} :
    {A : Type ℓ} {B : Type κ} {r : Outcome A} {f : A → Outcome B}
    → Accepts r
    → ((a : A) → Accepts (f a))
    → Accepts (r >>= f)
Accepts-bind (returned {a}) k = k a
Accepts-bind (raised e h) k = raised e h

Accepts-if {ℓ} :
    {A : Type ℓ} (b : Bool) {x y : Outcome A} → Accepts x → Accepts y → Accepts (if b then x else y)
Accepts-if true hx hy = hx
Accepts-if false hx hy = hy

-- What `dumpable` promises of the call by its answer.
abbrev pub Agrees {ℓ} : {A : Type ℓ} → Bool → Outcome A → Type ℓ
Agrees true r = Accepts r
Agrees false r = Rejects r

-- `&&` stands for one dump after the other.
Agrees-bind {ℓ κ} :
    {A : Type ℓ} {B : Type κ} (b c : Bool) (r : Outcome A) (f : A → Outcome B)
    → Agrees b r
    → ((a : A) → Agrees c (f a))
    → Agrees (b && c) (r >>= f)
Agrees-bind true true (ok a) f h k = k a
Agrees-bind true true (raise e) f (raised _ h) k = raised e h
Agrees-bind true true out_of_fuel f h k = elim h [ ]
Agrees-bind true false (ok a) f h k = k a
Agrees-bind true false (raise e) f h k = rejected
Agrees-bind true false out_of_fuel f h k = elim h [ ]
Agrees-bind false c (ok a) f h k = elim h [ ]
Agrees-bind false c (raise e) f h k = rejected
Agrees-bind false c out_of_fuel f h k = elim h [ ]

-- A length word or a tag adds no verdict of its own.
Agrees-wrap {ℓ κ} :
    {A : Type ℓ} {B : Type κ} (b : Bool) (r : Outcome A) (f : A → B)
    → Agrees b r
    → Agrees b (r >>= λ a. ok (f a))
Agrees-wrap true r f h = Agrees-bind true true r _ h λ a. returned
Agrees-wrap false (raise e) f h = rejected
Agrees-wrap false (ok a) f h = elim h [ ]
Agrees-wrap false out_of_fuel f h = elim h [ ]

sized-Accepts : (tag1 tag4 n : ℕ) (payload : Bytes) → Accepts (sized tag1 tag4 n payload)
unfolding sized
sized-Accepts tag1 tag4 n payload =
    Accepts-if (ltb n 256)
      (Accepts-bind (Accepts-if (ltb n 256) returned (raised _ (λ e. cc))) λ w. returned)
      (Accepts-bind (Accepts-if (ltb n 4294967296) returned (raised _ (λ e. cc))) λ w. returned)

dump_bytes-Accepts : (obj : Bytes) → Accepts (dump_bytes obj)
unfolding dump_bytes
dump_bytes-Accepts obj = Accepts-if (length obj == 0) returned (
    Accepts-if (length obj == 1) returned (
      Accepts-if (length obj == 2) returned (
        Accepts-if (length obj == 3) returned
          (Accepts-if (length obj == 4) returned (sized-Accepts 0x0e 0x0f (length obj) obj)))))

tuple_header-Accepts : (n : ℕ) → Accepts (tuple_header n)
unfolding tuple_header
tuple_header-Accepts n = Accepts-if (n == 0) returned (
    Accepts-if (n == 1) returned (
      Accepts-if (n == 2) returned (
        Accepts-if (n == 3) returned
          (Accepts-if (n == 4) returned (sized-Accepts 0x14 0x15 n [])))))

str_of_int-Accepts : (limit : ℕ) (z : ℤ) → Accepts (str_of_int limit z)
unfolding str_of_int
str_of_int-Accepts limit (pos n) = Accepts-if _ (raised _ (λ e. cc)) returned
str_of_int-Accepts limit (negsuc n) = Accepts-if _ (raised _ (λ e. cc)) returned

dump_int-Accepts : (limit : ℕ) (z : ℤ) → Accepts (dump_int limit z)
unfolding dump_int
dump_int-Accepts limit z =
    Accepts-if (is_imm z) returned
      (Accepts-bind (str_of_int-Accepts limit z) λ text. sized-Accepts 0x16 0x17 (length text) text)

encode-Accepts : (text : List ℕ) → Accepts (encode text)
unfolding encode
encode-Accepts [] = returned
encode-Accepts (c ∷ cs) =
    Accepts-if (is_scalar c) (Accepts-bind (encode-Accepts cs) λ rest. returned)
      (raised _ (λ e. cc))

dump_str-Accepts : (text : List ℕ) → Accepts (dump_str text)
unfolding dump_str
dump_str-Accepts text =
    Accepts-bind (encode-Accepts text) λ obj. Accepts-bind (dump_bytes-Accepts obj) λ body. returned

packed-Agrees :
    (b : Bool) (limit n : ℕ) (vs : Items) (f : Bytes → Bytes → Bytes)
    → Agrees b (dump_items limit vs)
    → Agrees b (tuple_header n >>= λ header. dump_items limit vs >>= λ body. ok (f header body))
packed-Agrees b limit n vs f h =
    Agrees-bind true b (tuple_header n) _ (tuple_header-Accepts n)
      λ header. Agrees-wrap b (dump_items limit vs) (f header) h

mutual
  unfolding dump_value dumpable

  dump_value-Agrees : (limit : ℕ) (v : Value) → Agrees (dumpable v) (dump_value limit v)
  dump_value-Agrees limit none_value = returned
  dump_value-Agrees limit not_implemented = returned
  dump_value-Agrees limit ellipsis = returned
  dump_value-Agrees limit (bool true) = returned
  dump_value-Agrees limit (bool false) = returned
  dump_value-Agrees limit (int z) = dump_int-Accepts limit z
  dump_value-Agrees limit (float x) = returned
  dump_value-Agrees limit (complex re im) = returned
  dump_value-Agrees limit (bytes obj) = dump_bytes-Accepts obj
  dump_value-Agrees limit (str text) = dump_str-Accepts text
  dump_value-Agrees limit (tuple vs) =
      packed-Agrees (all_dumpable vs) limit (length_items vs) vs _ (dump_items-Agrees limit vs)
  dump_value-Agrees limit (fset vs) =
      packed-Agrees (all_dumpable vs) limit (length_items vs) vs _ (dump_items-Agrees limit vs)
  dump_value-Agrees limit (slice a b c) =
      Agrees-bind true _ (tuple_header 3) _ (tuple_header-Accepts 3) λ header.
        Agrees-bind (dumpable a) _ (dump_value limit a) _ (dump_value-Agrees limit a) λ x.
          Agrees-bind (dumpable b) (dumpable c) (dump_value limit b) _ (dump_value-Agrees limit b)
            λ y. Agrees-wrap (dumpable c) (dump_value limit c) _ (dump_value-Agrees limit c)
  dump_value-Agrees limit (other o) = rejected

  dump_items-Agrees : (limit : ℕ) (vs : Items) → Agrees (all_dumpable vs) (dump_items limit vs)
  dump_items-Agrees limit nil = returned
  dump_items-Agrees limit (cons v vs) =
      Agrees-bind (dumpable v) (all_dumpable vs) (dump_value limit v) _ (dump_value-Agrees limit v)
        λ a. Agrees-wrap (all_dumpable vs) (dump_items limit vs) _ (dump_items-Agrees limit vs)

-- Where `dumpable` says no, `dump` raises; where it says yes, `dump` returns or raises something
-- other than TypeError.
pub dump-Agrees : (limit : ℕ) (v : Value) → Agrees (dumpable v) (dump limit v)
unfolding dump
dump-Agrees limit v = dump_value-Agrees limit v

encode-surrogate :
    (before after : List ℕ) (c : ℕ)
    → is_scalar c ≡ false
    → encode (before ++ c ∷ after) ≡ raise unicode_error
unfolding encode
encode-surrogate [] after c h = rw h
encode-surrogate (b ∷ before) after c h = elim (Bool-cases (is_scalar b)) [
  | inl fine ↦ rw (fine, encode-surrogate before after c h)
  | inr lone ↦ rw lone
]

-- A text with a lone surrogate is `dumpable`, and `dump` raises UnicodeEncodeError on it.
pub dump-surrogate :
    (limit : ℕ) (before after : List ℕ) (c : ℕ)
    → is_scalar c ≡ false
    → (dumpable (str (before ++ c ∷ after)) ≡ true)
      × (dump limit (str (before ++ c ∷ after)) ≡ raise unicode_error)
unfolding dump dump_value dump_str dumpable
dump-surrogate limit before after c h = (refl, rw (encode-surrogate before after c h))
