-- ===== src/Brine/Total.antt =====
-- The fuel of `load` suffices for every input: each call of `_load` takes a byte of the stream.
use rpyc_async.Prelude.{
  ℕ, zero, suc, ◌+◌, ◌≤◌, ◌<◌, ◌≢◌, [], ◌∷◌, arith, length, take, drop, length-drop,
}
use rpyc_async.Outcome.{
  Outcome, ok, out_of_fuel, ◌>>=◌, Ensures, returns, raises, Ensures-bind, Ensures-mono, Settles,
  Ensures-ne-out_of_fuel,
}
use rpyc_async.Codec.Words.{Bytes, unpack_i1, unpack_i4, unpack_f8, unpack_c16}
use rpyc_async.Codec.Words
use rpyc_async.Codec.Utf8
use rpyc_async.Codec.Decimal
use rpyc_async.Codec.Decimal.{int_of_bytes}
use rpyc_async.Brine.Syntax.{Value, Items, none_value, int, bytes, str, tuple, fset, nil, cons}
use rpyc_async.Brine.Load.{
  Reader, Tag, imm, unicode, float_tag, slice_tag, fset_tag, complex_tag, str_of, tuple_of, str_l1,
  str_l4, tuple_l1, tuple_l4, int_l1, int_l4, unknown, tag_of, lift, read, read_i1, read_i4,
  load_items, iterate, slice_of, decoded, load_tag, load_step, load_value, load,
}

iterate-Settles : (v : Value) → Settles (iterate v)
unfolding iterate
iterate-Settles none_value = raises
iterate-Settles (tuple vs) = returns tt
iterate-Settles (fset vs) = returns tt
iterate-Settles (bytes bs) = returns tt
iterate-Settles (str cs) = returns tt
iterate-Settles _ = raises

slice_of-Settles : (vs : Items) → Settles (slice_of vs)
unfolding slice_of
slice_of-Settles (cons a (cons b (cons c nil))) = returns tt
slice_of-Settles _ = raises

decoded-Settles : (v : Value) → Settles (decoded v)
unfolding decoded
decoded-Settles none_value = raises
decoded-Settles (bytes bs) = Ensures-bind (Utf8.decode-Settles bs) λ cs _. returns tt
decoded-Settles _ = raises

-- `p` leaves no more than it was given.
abbrev Shrinks {ℓ} : {A : Type ℓ} → ℕ → Reader A → Type ℓ
Shrinks {A} most p =
    (s : Bytes) → length s ≤ most → Ensures (λ (r : A × Bytes). length r.1 ≤ length s) (p s)

lift-Ensures {ℓ} :
    {A : Type ℓ} (r : Outcome A) (s : Bytes) (most : ℕ)
    → Settles r
    → length s ≤ most
    → Ensures (λ (p : A × Bytes). length p.1 ≤ most) (lift r s)
lift-Ensures r s most (returns w) h = returns h
lift-Ensures r s most raises h = raises

read-Shrinks : (n most : ℕ) → Shrinks most (read n)
read-Shrinks n most s h = returns (omega (arith, length-drop n s))

read_i1-Shrinks : (most : ℕ) → Shrinks most read_i1
read_i1-Shrinks most s h =
    lift-Ensures (unpack_i1 (take 1 s)) (drop 1 s) (length s) (Words.unpack_i1-Settles (take 1 s))
      (omega (arith, length-drop 1 s))

read_i4-Shrinks : (most : ℕ) → Shrinks most read_i4
read_i4-Shrinks most s h =
    lift-Ensures (unpack_i4 (take 4 s)) (drop 4 s) (length s) (Words.unpack_i4-Settles (take 4 s))
      (omega (arith, length-drop 4 s))

module _ (limit most : ℕ) (self : Reader Value) (shrinks : Shrinks most self) where
  load_items-Shrinks : (n : ℕ) → Shrinks most (load_items self n)
  unfolding load_items
  load_items-Shrinks zero s h = returns (omega arith)
  load_items-Shrinks (suc n) s h = Ensures-bind (shrinks s h) λ (v, r) e.
      Ensures-bind (load_items-Shrinks n r (omega arith)) λ (vs, r') e'. returns (omega arith)

  -- The same behind a length word.
  counted-within :
      (n : ℕ) (r s : Bytes)
      → length r ≤ length s
      → length s ≤ most
      → Ensures
          (λ (p : Value × Bytes). length p.1 ≤ length s)
          (load_items self n r >>= λ (vs, r'). ok (tuple vs, r'))
  counted-within n r s e h =
      Ensures-bind (load_items-Shrinks n r (omega arith)) λ (vs, r') e'. returns (omega arith)

  text-within :
      (n : ℕ) (r s : Bytes)
      → length r ≤ length s
      → Ensures
          (λ (p : Value × Bytes). length p.1 ≤ length s)
          (lift (int_of_bytes limit (take n r) >>= λ z. ok (int z)) (drop n r))
  text-within n r s e =
      lift-Ensures _ (drop n r) (length s)
        (Ensures-bind (Decimal.int_of_bytes-Settles limit (take n r)) λ z _. returns tt)
        (omega (arith, length-drop n r))

  load_tag-Shrinks : (t : Tag) → Shrinks most (load_tag limit self t)
  unfolding load_tag
  load_tag-Shrinks (imm z) s h = returns (omega arith)
  load_tag-Shrinks unicode s h =
      Ensures-bind (shrinks s h)
        λ (v, r) e. lift-Ensures (decoded v) r (length s) (decoded-Settles v) e
  load_tag-Shrinks float_tag s h =
      lift-Ensures _ (drop 8 s) (length s)
        (Ensures-bind (Words.unpack_f8-Settles (take 8 s)) λ x _. returns tt)
        (omega (arith, length-drop 8 s))
  load_tag-Shrinks complex_tag s h =
      lift-Ensures _ (drop 16 s) (length s)
        (Ensures-bind (Words.unpack_c16-Settles (take 16 s)) λ x _. returns tt)
        (omega (arith, length-drop 16 s))
  load_tag-Shrinks (str_of n) s h = returns (omega (arith, length-drop n s))
  load_tag-Shrinks str_l1 s h =
      Ensures-bind (read_i1-Shrinks most s h) λ (n, r) e. returns (omega (arith, length-drop n r))
  load_tag-Shrinks str_l4 s h =
      Ensures-bind (read_i4-Shrinks most s h) λ (n, r) e. returns (omega (arith, length-drop n r))
  load_tag-Shrinks (tuple_of n) s h = counted-within n s s (omega arith) h
  load_tag-Shrinks tuple_l1 s h =
      Ensures-bind (read_i1-Shrinks most s h) λ (n, r) e. counted-within n r s e h
  load_tag-Shrinks tuple_l4 s h =
      Ensures-bind (read_i4-Shrinks most s h) λ (n, r) e. counted-within n r s e h
  load_tag-Shrinks int_l1 s h =
      Ensures-bind (read_i1-Shrinks most s h) λ (n, r) e. text-within n r s e
  load_tag-Shrinks int_l4 s h =
      Ensures-bind (read_i4-Shrinks most s h) λ (n, r) e. text-within n r s e
  load_tag-Shrinks slice_tag s h = Ensures-bind (shrinks s h) λ (v, r) e.
      lift-Ensures _ r (length s) (Ensures-bind (iterate-Settles v) λ vs _. slice_of-Settles vs) e
  load_tag-Shrinks fset_tag s h = Ensures-bind (shrinks s h) λ (v, r) e.
      lift-Ensures _ r (length s) (Ensures-bind (iterate-Settles v) λ vs _. returns tt) e
  load_tag-Shrinks unknown s h = raises
  load_tag-Shrinks _ s h = returns (omega arith)

load_value-Shrinks :
    (limit f : ℕ) (s : Bytes)
    → length s < f
    → Ensures (λ (r : Value × Bytes). length r.1 < length s) (load_value limit f s)
unfolding load_value load_step
load_value-Shrinks limit zero s h = absurd (omega arith)
load_value-Shrinks limit (suc f) [] h = raises
load_value-Shrinks limit (suc f) (t ∷ s) h =
    Ensures-mono
      (load_tag-Shrinks limit (length s) (load_value limit f)
        (λ s' h'. Ensures-mono (load_value-Shrinks limit f s' (omega arith)) λ r e. omega arith)
        (tag_of t) s (omega arith))
      λ r e. omega arith

-- With fuel above the number of bytes `_load` returns or raises, whatever the bytes are.
load_value-ne-out_of_fuel :
    (limit f : ℕ) (s : Bytes) → length s < f → load_value limit f s ≢ out_of_fuel
load_value-ne-out_of_fuel limit f s h = Ensures-ne-out_of_fuel (load_value-Shrinks limit f s h)

-- `load` returns a value or raises, on every input.
pub load-Settles : (limit : ℕ) (s : Bytes) → Settles (load limit s)
unfolding load
load-Settles limit s =
    Ensures-bind (load_value-Shrinks limit (length s + 1) s (omega arith)) λ r _. returns tt
