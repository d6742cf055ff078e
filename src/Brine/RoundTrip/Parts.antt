-- ===== src/Brine/RoundTrip/Parts.antt =====
-- One tag at a time: what `_load` does on the bytes that a dumper without nested values wrote.
use rpyc_async.Prelude.{
  ℕ, zero, suc, ◌<◌, ◌≡◌, true, [], ◌∷◌, ◌++◌, arith, ltb, length, ◌⊎◌, inl, inr, ◌∙◌, ℤ, pos,
  negsuc, take-length-append, drop-length-append, Bool-cases, ltb→lt,
}
use rpyc_async.Outcome.{ok, >>=-eq-ok}
use rpyc_async.Codec.Words.{
  Bytes, be32, be32-value, pack_f8, unpack_f8-pack_f8, unpack_c16-pack_f8, take-pack_f8,
  drop-pack_f8, take-pack_c16, drop-pack_c16,
}
use rpyc_async.Codec.Decimal.{str_of_int, int_of_bytes-str_of_int}
use rpyc_async.Brine.Syntax.{Value, int, float, complex, bytes, tuple}
use rpyc_async.Brine.Dump.{is_imm, imm_byte, sized, dump_int, dump_bytes, tuple_header}
use rpyc_async.Brine.Load.{Reader, ◌>>>◌, pure, load_items, load_step}

-- `_load` reads `v` off bytes that begin with `out`, with nested values read by `self`.
abbrev pub Loads : ℕ → Reader Value → Bytes → Value → Type 0
Loads limit self out v = (rest : Bytes) → load_step limit self (out ++ rest) ≡ ok (v, rest)

pub sized_cases :
    (tag1 tag4 n : ℕ) (payload : Bytes) {out : Bytes}
    → sized tag1 tag4 n payload ≡ ok out
    → ((n < 256) × (out ≡ tag1 ∷ n ∷ payload))
      ⊎ ((n < 4294967296) × (out ≡ tag4 ∷ (be32 n ++ payload)))
unfolding sized
sized_cases tag1 tag4 n payload h = elim (Bool-cases (ltb n 256)) [
  | inl short ↦ inl (ltb→lt n 256 short, ground arith)
  | inr long ↦ elim (Bool-cases (ltb n 4294967296)) [
    | inl fits ↦ inr (ltb→lt n 4294967296 fits, ground arith)
    | inr over ↦ absurd (ground arith)
  ]
]

module _ (limit : ℕ) (self : Reader Value) where
  sized_bytes-Loads :
      (obj : Bytes) {out : Bytes}
      → sized 0x0e 0x0f (length obj) obj ≡ ok out
      → Loads limit self out (bytes obj)
  unfolding load_step
  sized_bytes-Loads obj h rest = elim (sized_cases 0x0e 0x0f (length obj) obj h) [
    | inl (short, e) ↦ rw (e, take-length-append obj rest, drop-length-append obj rest)
    | inr (fits, e) ↦
        rw (
          e,
          be32-value (length obj) fits,
          take-length-append obj rest,
          drop-length-append obj rest,
        )
  ]

  pub dump_bytes-Loads :
      (obj : Bytes) {out : Bytes} → dump_bytes obj ≡ ok out → Loads limit self out (bytes obj)
  unfolding dump_bytes load_step
  dump_bytes-Loads [] {out} h rest = let e : 0x01 ∷ [] ≡ out = cc in rw (← e)
  dump_bytes-Loads (a ∷ []) {out} h rest = let e : 0x0a ∷ a ∷ [] ≡ out = cc in rw (← e)
  dump_bytes-Loads (a ∷ b ∷ []) {out} h rest = let e : 0x0b ∷ a ∷ b ∷ [] ≡ out = cc in rw (← e)
  dump_bytes-Loads (a ∷ b ∷ c ∷ []) {out} h rest =
      let e : 0x0c ∷ a ∷ b ∷ c ∷ [] ≡ out = cc in rw (← e)
  dump_bytes-Loads (a ∷ b ∷ c ∷ d ∷ []) {out} h rest =
      let e : 0x0d ∷ a ∷ b ∷ c ∷ d ∷ [] ≡ out = cc in rw (← e)
  dump_bytes-Loads (a ∷ b ∷ c ∷ d ∷ x ∷ obj) h rest =
      sized_bytes-Loads (a ∷ b ∷ c ∷ d ∷ x ∷ obj) (long ∙ h) rest
    where
      long :
          sized 0x0e 0x0f (length (a ∷ b ∷ c ∷ d ∷ x ∷ obj)) (a ∷ b ∷ c ∷ d ∷ x ∷ obj)
          ≡ dump_bytes (a ∷ b ∷ c ∷ d ∷ x ∷ obj)
      long = ground arith

  -- A header announces as many items as were counted.
  sized_tuple-load_step :
      (n : ℕ) {header : Bytes}
      → sized 0x14 0x15 n [] ≡ ok header
      → (s : Bytes)
      → load_step limit self (header ++ s) ≡ (load_items self n >>> λ vs. pure (tuple vs)) s
  unfolding load_step
  sized_tuple-load_step n h s = elim (sized_cases 0x14 0x15 n [] h) [
    | inl (short, e) ↦ rw e
    | inr (fits, e) ↦ rw (e, be32-value n fits)
  ]

  pub tuple_header-load_step :
      (n : ℕ) {header : Bytes}
      → tuple_header n ≡ ok header
      → (s : Bytes)
      → load_step limit self (header ++ s) ≡ (load_items self n >>> λ vs. pure (tuple vs)) s
  unfolding tuple_header load_step
  tuple_header-load_step zero {header} h s = let e : 0x02 ∷ [] ≡ header = cc in rw (← e)
  tuple_header-load_step (suc zero) {header} h s = let e : 0x10 ∷ [] ≡ header = cc in rw (← e)
  tuple_header-load_step (suc (suc zero)) {header} h s = let e : 0x11 ∷ [] ≡ header = cc in rw (← e)
  tuple_header-load_step (suc (suc (suc zero))) {header} h s =
      let e : 0x12 ∷ [] ≡ header = cc in rw (← e)
  tuple_header-load_step (suc (suc (suc (suc zero)))) {header} h s =
      let e : 0x13 ∷ [] ≡ header = cc in rw (← e)
  tuple_header-load_step (suc (suc (suc (suc (suc n))))) h s =
      sized_tuple-load_step (suc (suc (suc (suc (suc n))))) (long ∙ h) s
    where
      long :
          sized 0x14 0x15 (suc (suc (suc (suc (suc n))))) []
          ≡ tuple_header (suc (suc (suc (suc (suc n)))))
      long = ground arith

  imm-Loads : (z : ℤ) → is_imm z ≡ true → Loads limit self (imm_byte z ∷ []) (int z)
  unfolding is_imm imm_byte load_step
  imm-Loads (pos n) h rest = ground arith
  imm-Loads (negsuc n) h rest = ground arith

  pub dump_int-Loads :
      (z : ℤ) {out : Bytes} → dump_int limit z ≡ ok out → Loads limit self out (int z)
  unfolding dump_int load_step
  dump_int-Loads z {out} h rest = elim (Bool-cases (is_imm z)) [
    | inl small ↦ let e : imm_byte z ∷ [] ≡ out = ground arith in rw (← e) (imm-Loads z small rest)
    | inr large ↦
        let (text, printed, k) = >>=-eq-ok (str_of_int limit z) _ (rw large at h) in
        let value = int_of_bytes-str_of_int limit z printed in
        elim (sized_cases 0x16 0x17 (length text) text k) [
          | inl (short, e) ↦
              rw (e, take-length-append text rest, drop-length-append text rest, value)
          | inr (fits, e) ↦
              rw (e, be32-value (length text) fits, take-length-append text rest)
                (rw (drop-length-append text rest, value))
        ]
  ]

  pub float-Loads :
      (x : ℕ) → x < 18446744073709551616 → Loads limit self (0x18 ∷ pack_f8 x) (float x)
  unfolding load_step
  float-Loads x h rest = rw (take-pack_f8 x rest, drop-pack_f8 x rest, unpack_f8-pack_f8 x h)

  pub complex-Loads :
      (re im : ℕ)
      → re < 18446744073709551616
      → im < 18446744073709551616
      → Loads limit self (0x1b ∷ (pack_f8 re ++ pack_f8 im)) (complex re im)
  unfolding load_step
  complex-Loads re im hr hi rest =
      rw (take-pack_c16 re im rest, drop-pack_c16 re im rest, unpack_c16-pack_f8 re im hr hi)
