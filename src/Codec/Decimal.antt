-- ===== src/Codec/Decimal.antt =====
-- `str(n)` and `int(b)` of Python's integers. CPython refuses texts of more than
-- `sys.get_int_max_str_digits()` digits with a ValueError; `limit` is that number, and 0 is no limit.
use rpyc_async.Prelude.{
  ℕ, zero, suc, ◌+◌, ◌-◌, ◌*◌, ◌/◌, ◌%◌, ◌<◌, ◌≡◌, refl, ap, Bool, true, false, ◌&&◌, ◌||◌, [], ◌∷◌,
  arith, ltb, leb, ◌==◌, length, if◌then◌else◌, ℤ, pos, negsuc, sub_ℕ, Bool-cases, inl, inr, ltb→lt,
  ltb-false→le, ◌∙◌,
}
use rpyc_async.Outcome.{
  Outcome, ok, raise, value_error, ◌>>=◌, unless-eq-ok, Settles, Settles-if, returns, raises,
  Ensures-bind,
}
use rpyc_async.Codec.Words.{Bytes}

-- The digits of `n`, most significant first, before those of `acc`. The fuel is above `n`.
digits_onto : ℕ → ℕ → Bytes → Bytes
digits_onto zero n acc = acc
digits_onto (suc f) n acc =
    let more = digits_onto f (n / 10) ((48 + n % 10) ∷ acc) in
    if ltb n 10 then (48 + n) ∷ acc else more

unfoldable pub digits : ℕ → Bytes
unfolding digits_onto
digits n = digits_onto (n + 1) n []

over_limit : ℕ → ℕ → Bool
over_limit limit count = ltb 0 limit && ltb limit count

unfoldable pub str_of_int : ℕ → ℤ → Outcome Bytes
unfolding digits over_limit
str_of_int limit (pos n) =
    if over_limit limit (length (digits n)) then raise value_error else ok (digits n)
str_of_int limit (negsuc n) =
    if over_limit limit (length (digits (suc n)))
    then raise value_error
    else ok (b'-' ∷ digits (suc n))

-- The bytes of a literal, by what they do in it.
pub data Kind : Type 0 where
  digit : ℕ → Kind
  underscore space other : Kind

kind : ℕ → Kind
kind b =
    if leb 48 b && ltb b 58
    then digit (b - 48)
    else if b == b'_'
    then underscore
    else if b == 32 || (leb 9 b && ltb b 14)
    then space
    else other

all_space : Bytes → Bool
unfolding kind
all_space [] = true
all_space (b ∷ bs) = elim (kind b) [ space ↦ all_space bs | _ ↦ false ]

-- The rest of a literal: its value and its number of digits. `after` says whether the byte before
-- was a digit; an underscore stands between two digits only.
rest_of_literal : Bool → ℕ → ℕ → Bytes → Outcome (ℕ × ℕ)
unfolding all_space
rest_of_literal after value count [] = if after then ok (value, count) else raise value_error
rest_of_literal after value count (b ∷ bs) = elim (kind b) [
  | digit d ↦ rest_of_literal true (value * 10 + d) (count + 1) bs
  | underscore ↦ elim after [
    | true ↦ rest_of_literal false value count bs
    | false ↦ raise value_error
  ]
  | space ↦
      if after
      then (if all_space bs then ok (value, count) else raise value_error)
      else raise value_error
  | other ↦ raise value_error
]

lstrip : Bytes → Bytes
unfolding kind
lstrip [] = []
lstrip (b ∷ bs) = elim (kind b) [ space ↦ lstrip bs | _ ↦ b ∷ bs ]

magnitude : ℕ → Bytes → Outcome ℕ
unfolding rest_of_literal over_limit
magnitude limit bs = do
  (value, count) ← rest_of_literal false 0 0 bs
  if over_limit limit count then raise value_error else ok value

signed : ℕ → Bytes → Outcome ℤ
unfolding magnitude
signed limit [] = raise value_error
signed limit (b ∷ bs) =
    if b == b'-'
    then (magnitude limit bs >>= λ n. ok (sub_ℕ 0 n))
    else if b == b'+'
    then (magnitude limit bs >>= λ n. ok (pos n))
    else (magnitude limit (b ∷ bs) >>= λ n. ok (pos n))

unfoldable pub int_of_bytes : ℕ → Bytes → Outcome ℤ
unfolding lstrip signed
int_of_bytes limit bs = signed limit (lstrip bs)

count_digits : ℕ → ℕ → ℕ
count_digits zero n = 0
count_digits (suc f) n = let more = count_digits f (n / 10) + 1 in if ltb n 10 then 1 else more

length-digits_onto :
    (f n : ℕ) (acc : Bytes) → length (digits_onto f n acc) ≡ count_digits f n + length acc
unfolding digits_onto count_digits
length-digits_onto zero n acc = omega arith
length-digits_onto (suc f) n acc =
    ground (arith, length-digits_onto f (n / 10) ((48 + n % 10) ∷ acc))

kind-digit : (d : ℕ) → d < 10 → kind (48 + d) ≡ digit d
unfolding kind
kind-digit d h = ground (arith, sub_add d)
  where
    sub_add : (x : ℕ) → 48 + x - 48 ≡ x
    sub_add x = omega arith

rest_of_literal-digit :
    (after : Bool) (value count d : ℕ) (bs : Bytes)
    → d < 10
    → rest_of_literal after value count ((48 + d) ∷ bs)
      ≡ rest_of_literal true (value * 10 + d) (count + 1) bs
unfolding rest_of_literal
rest_of_literal-digit after value count d bs h = rw (kind-digit d h, rest_of_literal) refl

-- Reading a printed number from the start gives that number and counts its digits.
rest_of_literal-digits_onto :
    (f n : ℕ) (acc : Bytes)
    → n < f
    → rest_of_literal false 0 0 (digits_onto f n acc)
      ≡ rest_of_literal true n (count_digits f n) acc
unfolding digits_onto count_digits
rest_of_literal-digits_onto zero n acc h = absurd (omega arith)
rest_of_literal-digits_onto (suc f) n acc h = elim (Bool-cases (ltb n 10)) [
  | inl last ↦ rw last (
      rest_of_literal-digit false 0 0 n acc (ltb→lt n 10 last)
      ∙ ap (λ v. rest_of_literal true v 1 acc) (omega arith))
  | inr more ↦ rw more (
      rest_of_literal-digits_onto f (n / 10) ((48 + n % 10) ∷ acc)
        (omega (arith, ltb-false→le n 10 more))
      ∙ rest_of_literal-digit true (n / 10) _ (n % 10) acc (omega arith)
      ∙ ap (λ v. rest_of_literal true v (count_digits f (n / 10) + 1) acc) (omega arith))
]

digits_onto-head :
    (f n : ℕ) (acc : Bytes)
    → n < f
    → (d : ℕ) × (tl : Bytes) × (d < 10) × (digits_onto f n acc ≡ (48 + d) ∷ tl)
unfolding digits_onto
digits_onto-head zero n acc h = absurd (omega arith)
digits_onto-head (suc f) n acc h = elim (Bool-cases (ltb n 10)) [
  | inl last ↦ (n, acc, ltb→lt n 10 last, rw last)
  | inr more ↦
      rw more
        (digits_onto-head f (n / 10) ((48 + n % 10) ∷ acc) (omega (arith, ltb-false→le n 10 more)))
]

digits-head : (n : ℕ) → (d : ℕ) × (tl : Bytes) × (d < 10) × (digits n ≡ (48 + d) ∷ tl)
unfolding digits
digits-head n = digits_onto-head (n + 1) n [] (omega arith)

magnitude-digits :
    (limit n : ℕ) → over_limit limit (length (digits n)) ≡ false → magnitude limit (digits n) ≡ ok n
unfolding magnitude digits
magnitude-digits limit n h =
    let count : length (digits_onto (n + 1) n []) ≡ count_digits (n + 1) n =
      length-digits_onto (n + 1) n [] ∙ omega arith in
    rw (rest_of_literal-digits_onto (n + 1) n [] (omega arith)) (rw (rw count at h))

lstrip-digit : (d : ℕ) (bs : Bytes) → d < 10 → lstrip ((48 + d) ∷ bs) ≡ (48 + d) ∷ bs
unfolding lstrip
lstrip-digit d bs h = rw (kind-digit d h, lstrip)

signed-digit :
    (limit d : ℕ) (bs : Bytes)
    → d < 10
    → signed limit ((48 + d) ∷ bs) ≡ (magnitude limit ((48 + d) ∷ bs) >>= λ n. ok (pos n))
unfolding signed
signed-digit limit d bs h = ground arith

int_of_bytes-digits :
    (limit n : ℕ)
    → over_limit limit (length (digits n)) ≡ false
    → int_of_bytes limit (digits n) ≡ ok (pos n)
unfolding int_of_bytes
int_of_bytes-digits limit n h =
    let (d, tl, small, e) = digits-head n in
    let read : magnitude limit ((48 + d) ∷ tl) ≡ ok n = rw e at (magnitude-digits limit n h) in
    rw (e, lstrip-digit d tl small, signed-digit limit d tl small, read)

-- An integer's decimal text reads back as the integer, under the same limit on digits.
pub int_of_bytes-str_of_int :
    (limit : ℕ) (z : ℤ) {bs : Bytes} → str_of_int limit z ≡ ok bs → int_of_bytes limit bs ≡ ok z
unfolding str_of_int int_of_bytes
int_of_bytes-str_of_int limit (pos n) {bs} h =
    let (fits, e) = unless-eq-ok (over_limit limit (length (digits n))) value_error h in
    let printed : digits n ≡ bs = cc in rw (← printed) (int_of_bytes-digits limit n fits)
int_of_bytes-str_of_int limit (negsuc n) {bs} h =
    let (fits, e) = unless-eq-ok (over_limit limit (length (digits (suc n)))) value_error h in
    let printed : b'-' ∷ digits (suc n) ≡ bs = cc in
    rw (← printed, magnitude-digits limit (suc n) fits) (ground arith)

-- Reading a literal returns or raises.
rest_of_literal-Settles :
    (bs : Bytes) (after : Bool) (value count : ℕ) → Settles (rest_of_literal after value count bs)
unfolding rest_of_literal
rest_of_literal-Settles [] after value count = Settles-if after (returns tt) raises
rest_of_literal-Settles (b ∷ bs) after value count =
    step (kind b) after (rest_of_literal-Settles bs)
  where
    step :
        (k : Kind) (after : Bool)
        → ((after : Bool) (value count : ℕ) → Settles (rest_of_literal after value count bs))
        → Settles (elim k [
          | digit d ↦ rest_of_literal true (value * 10 + d) (count + 1) bs
          | underscore ↦ elim after [
            | true ↦ rest_of_literal false value count bs
            | false ↦ raise value_error
          ]
          | space ↦
              if after
              then (if all_space bs then ok (value, count) else raise value_error)
              else raise value_error
          | other ↦ raise value_error
        ])
    step (digit d) after h = h true _ _
    step underscore true h = h false _ _
    step underscore false h = raises
    step space after h = Settles-if after (Settles-if (all_space bs) (returns tt) raises) raises
    step other after h = raises

magnitude-Settles : (limit : ℕ) (bs : Bytes) → Settles (magnitude limit bs)
unfolding magnitude
magnitude-Settles limit bs =
    Ensures-bind (rest_of_literal-Settles bs false 0 0) λ r _. Settles-if _ raises (returns tt)

pub int_of_bytes-Settles : (limit : ℕ) (bs : Bytes) → Settles (int_of_bytes limit bs)
unfolding int_of_bytes
int_of_bytes-Settles limit bs = signed-Settles (lstrip bs)
  where
    signed-Settles : (bs : Bytes) → Settles (signed limit bs)
    signed-Settles [] = raises
    signed-Settles (b ∷ bs) =
        Settles-if (b == b'-') (Ensures-bind (magnitude-Settles limit bs) λ n _. returns tt) (
          Settles-if (b == b'+') (Ensures-bind (magnitude-Settles limit bs) λ n _. returns tt)
            (Ensures-bind (magnitude-Settles limit (b ∷ bs)) λ n _. returns tt))
