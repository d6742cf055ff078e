-- ===== src/Codec/Utf8.antt =====
-- `str.encode("utf8")` and `bytes.decode("utf-8")`, strict. A text is the list of its code points.
use rpyc_async.Prelude.{
  ℕ, zero, suc, ◌+◌, ◌-◌, ◌*◌, ◌/◌, ◌%◌, ◌≤◌, ◌<◌, ◌≡◌, refl, Bool, true, ◌&&◌, ◌||◌, List, [], ◌∷◌,
  ◌++◌, arith, ltb, leb, if◌then◌else◌, Bool-cases, inl, inr, ◌∙◌, ltb→lt, ltb-false→le,
}
use rpyc_async.Outcome.{
  Outcome, ok, raise, unicode_error, ◌>>=◌, >>=-eq-ok, if-eq-ok, Settles, Settles-if, returns,
  raises, Ensures-bind,
}
use rpyc_async.Codec.Words.{Bytes}

-- A Unicode scalar value: in range, and no surrogate.
abbrev pub is_scalar : ℕ → Bool
is_scalar c = ltb c 55296 || (leb 57344 c && ltb c 1114112)

encode_char : ℕ → Bytes
encode_char c =
    if ltb c 128
    then c ∷ []
    else if ltb c 2048
    then (192 + c / 64) ∷ (128 + c % 64) ∷ []
    else if ltb c 65536
    then (224 + c / 4096) ∷ (128 + c / 64 % 64) ∷ (128 + c % 64) ∷ []
    else (240 + c / 262144) ∷ (128 + c / 4096 % 64) ∷ (128 + c / 64 % 64) ∷ (128 + c % 64) ∷ []

unfoldable pub encode : List ℕ → Outcome Bytes
unfolding encode_char
encode [] = ok []
encode (c ∷ cs) =
    if is_scalar c then (encode cs >>= λ rest. ok (encode_char c ++ rest)) else raise unicode_error

-- What a lead byte announces: a whole character, or the bits of one with the number of bytes that
-- follow and the least value that needs so many.
pub data Lead : Type 0 where
  whole : ℕ → Lead
  partial : ℕ → ℕ → ℕ → Lead
  bad : Lead

lead : ℕ → Lead
lead b =
    if ltb b 128
    then whole b
    else if ltb b 192
    then bad
    else if ltb b 224
    then partial 0 (b - 192) 128
    else if ltb b 240
    then partial 1 (b - 224) 2048
    else if ltb b 248
    then partial 2 (b - 240) 65536
    else bad

-- The decoder between two bytes: at a character's start, or inside one that wants `more + 1` bytes.
pub data Decoder : Type 0 where
  start : Decoder
  inside : (more : ℕ) → (bits : ℕ) → (least : ℕ) → Decoder

begin : Lead → (Decoder → Outcome (List ℕ)) → Outcome (List ℕ)
begin (whole c) k = do cs ← k start; ok (c ∷ cs)
begin (partial more bits least) k = k (inside more bits least)
begin bad k = raise unicode_error

finish : ℕ → ℕ → (Decoder → Outcome (List ℕ)) → Outcome (List ℕ)
finish c least k =
    let rest = k start in
    if leb least c && is_scalar c then (rest >>= λ cs. ok (c ∷ cs)) else raise unicode_error

continue : ℕ → ℕ → ℕ → ℕ → (Decoder → Outcome (List ℕ)) → Outcome (List ℕ)
unfolding finish
continue zero bits least b k =
    if leb 128 b && ltb b 192 then finish (bits * 64 + (b - 128)) least k else raise unicode_error
continue (suc more) bits least b k =
    if leb 128 b && ltb b 192
    then k (inside more (bits * 64 + (b - 128)) least)
    else raise unicode_error

unfoldable pub decode_from : Bytes → Decoder → Outcome (List ℕ)
unfolding begin continue lead
decode_from [] start = ok []
decode_from [] (inside more bits least) = raise unicode_error
decode_from (b ∷ bs) start = begin (lead b) (decode_from bs)
decode_from (b ∷ bs) (inside more bits least) = continue more bits least b (decode_from bs)

unfoldable pub decode : Bytes → Outcome (List ℕ)
unfolding decode_from
decode bs = decode_from bs start

-- One continuation byte.
decode_from-inside :
    (more bits least x : ℕ) (bs : Bytes)
    → x < 64
    → decode_from ((128 + x) ∷ bs) (inside (suc more) bits least)
      ≡ decode_from bs (inside more (bits * 64 + x) least)
unfolding decode_from
decode_from-inside more bits least x bs h = ground (arith, sub_add x)
  where
    sub_add : (x : ℕ) → 128 + x - 128 ≡ x
    sub_add x = omega arith

-- The last continuation byte of the character `c`.
decode_from-last :
    (bits least x c : ℕ) (bs : Bytes)
    → x < 64
    → bits * 64 + x ≡ c
    → least ≤ c
    → is_scalar c ≡ true
    → decode_from ((128 + x) ∷ bs) (inside 0 bits least)
      ≡ (decode_from bs start >>= λ cs. ok (c ∷ cs))
unfolding decode_from
decode_from-last bits least x c bs h e l s = ground (arith, sub_add x)
  where
    sub_add : (x : ℕ) → 128 + x - 128 ≡ x
    sub_add x = omega arith

-- The lead bytes of characters of two, three and four bytes.
decode_from-lead_two :
    (x : ℕ) (bs : Bytes)
    → x < 32
    → decode_from ((192 + x) ∷ bs) start ≡ decode_from bs (inside 0 x 128)
unfolding decode_from
decode_from-lead_two x bs h = ground (arith, sub_add x)
  where
    sub_add : (x : ℕ) → 192 + x - 192 ≡ x
    sub_add x = omega arith

decode_from-lead_three :
    (x : ℕ) (bs : Bytes)
    → x < 16
    → decode_from ((224 + x) ∷ bs) start ≡ decode_from bs (inside 1 x 2048)
unfolding decode_from
decode_from-lead_three x bs h = ground (arith, sub_add x)
  where
    sub_add : (x : ℕ) → 224 + x - 224 ≡ x
    sub_add x = omega arith

decode_from-lead_four :
    (x : ℕ) (bs : Bytes)
    → x < 8
    → decode_from ((240 + x) ∷ bs) start ≡ decode_from bs (inside 2 x 65536)
unfolding decode_from
decode_from-lead_four x bs h = ground (arith, sub_add x)
  where
    sub_add : (x : ℕ) → 240 + x - 240 ≡ x
    sub_add x = omega arith

abbrev Decodes : ℕ → Bytes → Type 0
Decodes c bs =
    (rest : Bytes) → decode_from (bs ++ rest) start ≡ (decode_from rest start >>= λ cs. ok (c ∷ cs))

two-Decodes :
    (c : ℕ)
    → is_scalar c ≡ true
    → 128 ≤ c
    → c < 2048
    → Decodes c ((192 + c / 64) ∷ (128 + c % 64) ∷ [])
two-Decodes c s l h rest =
    decode_from-lead_two (c / 64) _ (omega arith)
    ∙ decode_from-last (c / 64) 128 (c % 64) c rest (omega arith) (omega arith) l s

three-Decodes :
    (c : ℕ)
    → is_scalar c ≡ true
    → 2048 ≤ c
    → c < 65536
    → Decodes c ((224 + c / 4096) ∷ (128 + c / 64 % 64) ∷ (128 + c % 64) ∷ [])
three-Decodes c s l h rest =
    decode_from-lead_three (c / 4096) _ (omega arith)
    ∙ decode_from-inside 0 (c / 4096) 2048 (c / 64 % 64) _ (omega arith)
    ∙ decode_from-last _ 2048 (c % 64) c rest (omega arith) (omega arith) l s

four-Decodes :
    (c : ℕ)
    → is_scalar c ≡ true
    → 65536 ≤ c
    → c < 1114112
    → Decodes c
        ((240 + c / 262144) ∷ (128 + c / 4096 % 64) ∷ (128 + c / 64 % 64) ∷ (128 + c % 64) ∷ [])
four-Decodes c s l h rest =
    decode_from-lead_four (c / 262144) _ (omega arith)
    ∙ decode_from-inside 1 (c / 262144) 65536 (c / 4096 % 64) _ (omega arith)
    ∙ decode_from-inside 0 _ 65536 (c / 64 % 64) _ (omega arith)
    ∙ decode_from-last _ 65536 (c % 64) c rest (omega arith) (omega arith) l s

scalar-lt : (c : ℕ) → is_scalar c ≡ true → c < 1114112
scalar-lt c s = ground arith

encode_char-Decodes : (c : ℕ) → is_scalar c ≡ true → Decodes c (encode_char c)
unfolding encode_char
encode_char-Decodes c s rest = elim (Bool-cases (ltb c 128)) [
  | inl one ↦ rw (one) (unfold decode_from in ground arith)
  | inr m1 ↦ elim (Bool-cases (ltb c 2048)) [
    | inl two ↦ rw (m1, two) (two-Decodes c s (ltb-false→le c 128 m1) (ltb→lt c 2048 two) rest)
    | inr m2 ↦ elim (Bool-cases (ltb c 65536)) [
      | inl three ↦
          rw (m1, m2, three)
            (three-Decodes c s (ltb-false→le c 2048 m2) (ltb→lt c 65536 three) rest)
      | inr m3 ↦ rw (m1, m2, m3) (four-Decodes c s (ltb-false→le c 65536 m3) (scalar-lt c s) rest)
    ]
  ]
]

-- Decoding the UTF-8 bytes of a text gives the text back.
pub decode-encode : (cs : List ℕ) {bs : Bytes} → encode cs ≡ ok bs → decode bs ≡ ok cs
unfolding encode decode
decode-encode [] {bs} h = let e : [] ≡ bs = cc in rw (← e) refl
decode-encode (c ∷ cs) {bs} h =
    let (s, k) = if-eq-ok (is_scalar c) unicode_error h in
    let (rest, e, k') = >>=-eq-ok (encode cs) _ k in
    let out : encode_char c ++ rest ≡ bs = cc in
    rw (← out, encode_char-Decodes c s rest, decode-encode cs e)

begin-Settles :
    (l : Lead) (k : Decoder → Outcome (List ℕ))
    → ((d : Decoder) → Settles (k d))
    → Settles (begin l k)
unfolding begin
begin-Settles (whole c) k h = Ensures-bind (h start) λ cs _. returns tt
begin-Settles (partial more bits least) k h = h (inside more bits least)
begin-Settles bad k h = raises

continue-Settles :
    (more bits least b : ℕ) (k : Decoder → Outcome (List ℕ))
    → ((d : Decoder) → Settles (k d))
    → Settles (continue more bits least b k)
unfolding continue
continue-Settles zero bits least b k h =
    Settles-if (leb 128 b && ltb b 192)
      (Settles-if _ (Ensures-bind (h start) λ cs _. returns tt) raises) raises
continue-Settles (suc more) bits least b k h = Settles-if (leb 128 b && ltb b 192) (h _) raises

-- Decoding returns or raises.
decode_from-Settles : (bs : Bytes) (d : Decoder) → Settles (decode_from bs d)
unfolding decode_from
decode_from-Settles [] start = returns tt
decode_from-Settles [] (inside more bits least) = raises
decode_from-Settles (b ∷ bs) start =
    begin-Settles (lead b) (decode_from bs) (decode_from-Settles bs)
decode_from-Settles (b ∷ bs) (inside more bits least) =
    continue-Settles more bits least b (decode_from bs) (decode_from-Settles bs)

pub decode-Settles : (bs : Bytes) → Settles (decode bs)
unfolding decode
decode-Settles bs = decode_from-Settles bs start
