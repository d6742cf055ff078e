-- ===== src/Brine/RoundTrip.antt =====
-- What was dumped loads back.
pub mod Parts
use rpyc_async.Prelude.{
  ℕ, zero, suc, ◌+◌, ◌≤◌, ◌<◌, ◌≡◌, refl, ◌≢◌, true, false, [], ◌∷◌, ◌++◌, arith, length,
  length-append, append_assoc, append-nil, ◌∙◌, ap, sym, subst,
}
use rpyc_async.Outcome.{Outcome, ok, raise, out_of_fuel, type_error, ◌>>=◌, >>=-eq-ok}
use rpyc_async.Codec.Words.{Bytes, pack_f8}
use rpyc_async.Codec.Utf8.{encode, decode-encode}
use rpyc_async.Brine.Syntax.{
  Value, Items, none_value, not_implemented, ellipsis, bool, int, float, complex, bytes, str, tuple,
  fset, slice, other, nil, cons, length_items, IsValue, AreValues,
}
use rpyc_async.Brine.Dump.{dump_bytes, dump_str, tuple_header, dump_value, dump_items, dump}
use rpyc_async.Brine.Load.{Reader, load_items, load_step, load_value, load}
use Parts.{
  Loads, dump_bytes-Loads, tuple_header-load_step, dump_int-Loads, float-Loads, complex-Loads,
}

lengths_of : (xs ys : Bytes) → length (xs ++ ys) ≡ length xs + length ys
lengths_of = length-append

-- Bytes that a step reads are not empty.
Loads-pos :
    (limit : ℕ) (self : Reader Value) (out : Bytes) (v : Value)
    → Loads limit self out v
    → 0 < length out
unfolding load_step
Loads-pos limit self [] v h = cc (h [])
Loads-pos limit self (t ∷ out) v h = omega arith

header-pos : (n : ℕ) {header : Bytes} → tuple_header n ≡ ok header → 0 < length header
header-pos n {header = t ∷ header} h = omega arith
header-pos zero {header = []} h =
    let e = tuple_header-load_step 0 (λ s. out_of_fuel) zero h [] in
    unfold load_step load_items in cc
header-pos (suc n) {header = []} h =
    let e = tuple_header-load_step 0 (λ s. out_of_fuel) (suc n) h [] in
    unfold load_step load_items in cc

-- With fuel above the depth of `v`, which is below the number of bytes, `_load` reads `v`.
abbrev Reads : ℕ → Bytes → Value → Type 0
Reads limit out v = (f : ℕ) → length out ≤ suc f → Loads limit (load_value limit f) out v

abbrev ReadsItems : ℕ → Bytes → Items → Type 0
ReadsItems limit out vs =
    (f : ℕ) (rest : Bytes)
    → length out ≤ f
    → load_items (load_value limit f) (length_items vs) (out ++ rest) ≡ ok (vs, rest)

spend :
    (limit : ℕ) (out : Bytes) (v : Value)
    → Reads limit out v
    → (f : ℕ) (rest : Bytes) → length out ≤ f
    → load_value limit f (out ++ rest) ≡ ok (v, rest)
unfolding load_value
spend limit out v r zero rest h =
    absurd (omega (arith, Loads-pos limit (load_value limit zero) out v (r zero (omega arith))))
spend limit out v r (suc f) rest h = r f h rest

dump_str-Reads :
    (limit : ℕ) (text : Bytes) {out : Bytes} → dump_str text ≡ ok out → Reads limit out (str text)
unfolding dump_str load_step
dump_str-Reads limit text {out} h f fuel rest =
    let (obj, encoded, k) = >>=-eq-ok (encode text) _ h in
    let (body, dumped, k') = >>=-eq-ok (dump_bytes obj) _ k in
    let e : 0x08 ∷ body ≡ out = cc in
    let short : length (0x08 ∷ body) ≤ suc f = subst (λ o. length o ≤ suc f) (sym e) fuel in
    let inner =
      spend limit body (bytes obj) (λ g _. dump_bytes-Loads limit (load_value limit g) obj dumped) f
        rest (omega arith) in
    rw (← e, inner, decode-encode text encoded)

-- A tuple behind its header.
tuple-Reads :
    (limit : ℕ) (vs : Items) (header body : Bytes)
    → tuple_header (length_items vs) ≡ ok header
    → ReadsItems limit body vs
    → Reads limit (header ++ body) (tuple vs)
tuple-Reads limit vs header body h r f fuel rest = rw (
  append_assoc header body rest,
  tuple_header-load_step limit (load_value limit f) (length_items vs) h (body ++ rest),
  r f rest (omega (arith, lengths_of header body, header-pos (length_items vs) h)),
)

fset-Reads :
    (limit : ℕ) (vs : Items) (packed : Bytes)
    → Reads limit packed (tuple vs)
    → Reads limit (0x1a ∷ packed) (fset vs)
unfolding load_step
fset-Reads limit vs packed r f fuel rest = rw (spend limit packed (tuple vs) r f rest (omega arith))

slice-Reads :
    (limit : ℕ) (a b c : Value) (packed : Bytes)
    → Reads limit packed (tuple (cons a (cons b (cons c nil))))
    → Reads limit (0x19 ∷ packed) (slice a b c)
unfolding load_step
slice-Reads limit a b c packed r f fuel rest =
    rw (spend limit packed (tuple (cons a (cons b (cons c nil)))) r f rest (omega arith))

nil-Reads : (limit : ℕ) → ReadsItems limit [] nil
unfolding load_items
nil-Reads limit f rest fuel = refl

cons-Reads :
    (limit : ℕ) (v : Value) (vs : Items) (a b : Bytes)
    → Reads limit a v
    → ReadsItems limit b vs
    → ReadsItems limit (a ++ b) (cons v vs)
unfolding load_items
cons-Reads limit v vs a b r rs f rest fuel = rw (
  append_assoc a b rest,
  spend limit a v r f (b ++ rest) (omega (arith, lengths_of a b)),
  rs f rest (omega (arith, lengths_of a b)),
)

mutual
  unfolding dump_value load_step

  dump_value-Reads :
      (limit : ℕ) (v : Value) (out : Bytes)
      → IsValue v
      → dump_value limit v ≡ ok out
      → Reads limit out v
  dump_value-Reads limit none_value out w h =
      λ f fuel rest. let e : 0x00 ∷ [] ≡ out = cc in rw (← e)
  dump_value-Reads limit not_implemented out w h =
      λ f fuel rest. let e : 0x05 ∷ [] ≡ out = cc in rw (← e)
  dump_value-Reads limit ellipsis out w h = λ f fuel rest. let e : 0x06 ∷ [] ≡ out = cc in rw (← e)
  dump_value-Reads limit (bool true) out w h =
      λ f fuel rest. let e : 0x03 ∷ [] ≡ out = cc in rw (← e)
  dump_value-Reads limit (bool false) out w h =
      λ f fuel rest. let e : 0x04 ∷ [] ≡ out = cc in rw (← e)
  dump_value-Reads limit (int z) out w h =
      λ f fuel rest. dump_int-Loads limit (load_value limit f) z h rest
  dump_value-Reads limit (float x) out w h = λ f fuel rest.
      let e : 0x18 ∷ pack_f8 x ≡ out = cc in
      rw (← e) (float-Loads limit (load_value limit f) x w rest)
  dump_value-Reads limit (complex re im) out w h = λ f fuel rest.
      let e : 0x1b ∷ (pack_f8 re ++ pack_f8 im) ≡ out = cc in
      rw (← e) (complex-Loads limit (load_value limit f) re im w.0 w.1 rest)
  dump_value-Reads limit (bytes obj) out w h =
      λ f fuel rest. dump_bytes-Loads limit (load_value limit f) obj h rest
  dump_value-Reads limit (str text) out w h = dump_str-Reads limit text h
  dump_value-Reads limit (tuple vs) out w h =
      let (header, counted, k) = >>=-eq-ok (tuple_header (length_items vs)) _ h in
      let (body, dumped, k') = >>=-eq-ok (dump_items limit vs) _ k in
      let e : header ++ body ≡ out = cc in
      subst (λ o. Reads limit o (tuple vs)) e
        (tuple-Reads limit vs header body counted (dump_items-Reads limit vs body w dumped))
  dump_value-Reads limit (fset vs) out w h =
      let (header, counted, k) = >>=-eq-ok (tuple_header (length_items vs)) _ h in
      let (body, dumped, k') = >>=-eq-ok (dump_items limit vs) _ k in
      let e : 0x1a ∷ (header ++ body) ≡ out = cc in
      subst (λ o. Reads limit o (fset vs)) e
        (fset-Reads limit vs (header ++ body)
          (tuple-Reads limit vs header body counted (dump_items-Reads limit vs body w dumped)))
  dump_value-Reads limit (slice first last step) out w h =
      let (header, counted, k0) = >>=-eq-ok (tuple_header 3) _ h in
      let (a, da, k1) = >>=-eq-ok (dump_value limit first) _ k0 in
      let (b, db, k2) = >>=-eq-ok (dump_value limit last) _ k1 in
      let (c, dc, k3) = >>=-eq-ok (dump_value limit step) _ k2 in
      let e : 0x19 ∷ (header ++ (a ++ (b ++ c))) ≡ out = cc in
      let reads : ReadsItems limit (a ++ (b ++ (c ++ [])))
          (cons first (cons last (cons step nil))) =
        cons-Reads limit first _ a _ (dump_value-Reads limit first a w.0 da) (
          cons-Reads limit last _ b _ (dump_value-Reads limit last b w.1 db) (
            cons-Reads limit step _ c _ (dump_value-Reads limit step c w.2 dc)
              (nil-Reads limit))) in
      subst (λ o. Reads limit o (slice first last step)) e
        (slice-Reads limit first last step _
          (tuple-Reads limit _ header _ counted (rw append-nil at reads)))
  dump_value-Reads limit (other o) out w h = cc

  dump_items-Reads :
      (limit : ℕ) (vs : Items) (out : Bytes)
      → AreValues vs
      → dump_items limit vs ≡ ok out
      → ReadsItems limit out vs
  dump_items-Reads limit nil out w h =
      let e : [] ≡ out = cc in subst (λ o. ReadsItems limit o nil) e (nil-Reads limit)
  dump_items-Reads limit (cons v vs) out w h =
      let (a, da, k) = >>=-eq-ok (dump_value limit v) _ h in
      let (b, db, k') = >>=-eq-ok (dump_items limit vs) _ k in
      let e : a ++ b ≡ out = cc in
      subst (λ o. ReadsItems limit o (cons v vs)) e
        (cons-Reads limit v vs a b (dump_value-Reads limit v a w.0 da)
          (dump_items-Reads limit vs b w.1 db))

-- Bytes that `dump` returned for a value load as that value, whatever follows them, under the same
-- limit on digits.
pub load-dump :
    (limit : ℕ) (v : Value) (out rest : Bytes)
    → IsValue v
    → dump limit v ≡ ok out
    → load limit (out ++ rest) ≡ ok v
unfolding dump load
load-dump limit v out rest w h = rw (
    spend limit out v (dump_value-Reads limit v out w h) (length (out ++ rest) + 1) rest
      (omega (arith, lengths_of out rest)))

-- Two values with the same bytes are the same value.
pub dump-injective :
    (limit : ℕ) (v w : Value) (out : Bytes)
    → IsValue v
    → IsValue w
    → dump limit v ≡ ok out
    → dump limit w ≡ ok out
    → v ≡ w
dump-injective limit v w out hv hw dv dw =
    cc (load-dump limit v out [] hv dv, load-dump limit w out [] hw dw)
