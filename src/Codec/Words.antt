-- ===== src/Codec/Words.antt =====
-- `I1`, `I4`, `F8`, `complex` and `I8I8` of rpyc_async/core/brine.py: big-endian words. A double stands
-- for its 64-bit pattern. A byte is a number below 256.
use rpyc_async.Prelude.{
  ℕ, ◌+◌, ◌*◌, ◌/◌, ◌%◌, ◌<◌, ◌≡◌, refl, ap, List, [], ◌∷◌, ◌++◌, arith, ltb, take, drop,
  if◌then◌else◌,
}
use rpyc_async.Outcome.{
  Outcome, ok, raise, struct_error, ◌>>=◌, Settles, returns, raises, Ensures-bind,
}

abbrev pub Bytes : Type 0
Bytes = List ℕ

abbrev pub be32 : ℕ → Bytes
be32 n = n / 16777216 % 256 ∷ n / 65536 % 256 ∷ n / 256 % 256 ∷ n % 256 ∷ []

abbrev pub be64 : ℕ → Bytes
be64 n = be32 (n / 4294967296) ++ be32 (n % 4294967296)

unfoldable pub pack_i1 : ℕ → Outcome Bytes
pack_i1 n = if ltb n 256 then ok (n ∷ []) else raise struct_error

unfoldable pub unpack_i1 : Bytes → Outcome ℕ
unpack_i1 (a ∷ []) = ok a
unpack_i1 _ = raise struct_error

unfoldable pub pack_i4 : ℕ → Outcome Bytes
pack_i4 n = if ltb n 4294967296 then ok (be32 n) else raise struct_error

unfoldable pub unpack_i4 : Bytes → Outcome ℕ
unpack_i4 (a ∷ b ∷ c ∷ d ∷ []) = ok (a * 16777216 + b * 65536 + c * 256 + d)
unpack_i4 _ = raise struct_error

unfoldable pub pack_f8 : ℕ → Bytes
pack_f8 n = be64 n

unfoldable pub unpack_f8 : Bytes → Outcome ℕ
unfolding unpack_i4
unpack_f8 bs = do hi ← unpack_i4 (take 4 bs); lo ← unpack_i4 (drop 4 bs); ok (hi * 4294967296 + lo)

unfoldable pub unpack_c16 : Bytes → Outcome (ℕ × ℕ)
unfolding unpack_f8
unpack_c16 bs = do re ← unpack_f8 (take 8 bs); im ← unpack_f8 (drop 8 bs); ok (re, im)

pub be32-value :
    (n : ℕ)
    → n < 4294967296
    → n / 16777216 % 256 * 16777216 + n / 65536 % 256 * 65536 + n / 256 % 256 * 256 + n % 256 ≡ n
be32-value n h = omega arith

pub unpack_i4-be32 : (n : ℕ) → n < 4294967296 → unpack_i4 (be32 n) ≡ ok n
unfolding unpack_i4
unpack_i4-be32 n h = ap ok (omega arith)

pub take-pack_f8 : (n : ℕ) (s : Bytes) → take 8 (pack_f8 n ++ s) ≡ pack_f8 n
unfolding pack_f8
take-pack_f8 n s = refl

pub drop-pack_f8 : (n : ℕ) (s : Bytes) → drop 8 (pack_f8 n ++ s) ≡ s
unfolding pack_f8
drop-pack_f8 n s = refl

pub take-pack_c16 :
    (m n : ℕ) (s : Bytes) → take 16 ((pack_f8 m ++ pack_f8 n) ++ s) ≡ pack_f8 m ++ pack_f8 n
unfolding pack_f8
take-pack_c16 m n s = refl

pub drop-pack_c16 : (m n : ℕ) (s : Bytes) → drop 16 ((pack_f8 m ++ pack_f8 n) ++ s) ≡ s
unfolding pack_f8
drop-pack_c16 m n s = refl

pub unpack_f8-pack_f8 : (n : ℕ) → n < 18446744073709551616 → unpack_f8 (pack_f8 n) ≡ ok n
unfolding unpack_f8 pack_f8
unpack_f8-pack_f8 n h = ap ok (omega arith)

pub unpack_c16-pack_f8 :
    (m n : ℕ)
    → m < 18446744073709551616
    → n < 18446744073709551616
    → unpack_c16 (pack_f8 m ++ pack_f8 n) ≡ ok (m, n)
unfolding unpack_c16 pack_f8
unpack_c16-pack_f8 m n hm hn = ap ok (pair (omega arith) (omega arith))
  where
    pair : {a b c d : ℕ} → a ≡ b → c ≡ d → ◌≡◌ {A = ℕ × ℕ} (a, c) (b, d)
    pair p q = λ i. (p i, q i)

-- Unpacking returns or raises.
pub unpack_i1-Settles : (bs : Bytes) → Settles (unpack_i1 bs)
unfolding unpack_i1
unpack_i1-Settles [] = raises
unpack_i1-Settles (a ∷ []) = returns tt
unpack_i1-Settles (a ∷ b ∷ bs) = raises

pub unpack_i4-Settles : (bs : Bytes) → Settles (unpack_i4 bs)
unfolding unpack_i4
unpack_i4-Settles (a ∷ b ∷ c ∷ d ∷ []) = returns tt
unpack_i4-Settles _ = raises

pub unpack_f8-Settles : (bs : Bytes) → Settles (unpack_f8 bs)
unfolding unpack_f8
unpack_f8-Settles bs =
    Ensures-bind (unpack_i4-Settles (take 4 bs))
      λ hi _. Ensures-bind (unpack_i4-Settles (drop 4 bs)) λ lo _. returns tt

pub unpack_c16-Settles : (bs : Bytes) → Settles (unpack_c16 bs)
unfolding unpack_c16
unpack_c16-Settles bs =
    Ensures-bind (unpack_f8-Settles (take 8 bs))
      λ re _. Ensures-bind (unpack_f8-Settles (drop 8 bs)) λ im _. returns tt
