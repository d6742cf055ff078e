-- ===== src/Brine/Dump.antt =====
-- `_dump` and its registry: the bytes that a call appends to the stream, or the exception that it
-- raises. `limit` is the interpreter's limit on the digits of an integer's text.
use rpyc_async.Prelude.{
  ℕ, ◌+◌, ◌-◌, Bool, true, false, [], ◌∷◌, ◌++◌, ltb, ◌==◌, length, if◌then◌else◌, ℤ, pos, negsuc,
}
use rpyc_async.Outcome.{Outcome, ok, raise, type_error, ◌>>=◌}
use rpyc_async.Codec.Words.{Bytes, pack_i1, pack_i4, pack_f8}
use rpyc_async.Codec.Utf8.{encode}
use rpyc_async.Codec.Decimal.{str_of_int}
use rpyc_async.Brine.Syntax.{
  Value, Items, none_value, not_implemented, ellipsis, bool, int, float, complex, bytes, str, tuple,
  fset, slice, other, nil, cons, length_items,
}

-- `obj in IMM_INTS`: -0x30 to 0x9f.
unfoldable pub is_imm : ℤ → Bool
is_imm (pos n) = ltb n 160
is_imm (negsuc n) = ltb n 48

-- The byte `i + 0x50`.
unfoldable pub imm_byte : ℤ → ℕ
imm_byte (pos n) = n + 80
imm_byte (negsuc n) = 79 - n

-- A length word of one byte or of four behind its tag, and the payload.
unfoldable pub sized : ℕ → ℕ → ℕ → Bytes → Outcome Bytes
unfolding pack_i1 pack_i4
sized tag1 tag4 n payload =
    if ltb n 256
    then (pack_i1 n >>= λ w. ok (tag1 ∷ (w ++ payload)))
    else (pack_i4 n >>= λ w. ok (tag4 ∷ (w ++ payload)))

unfoldable pub dump_int : ℕ → ℤ → Outcome Bytes
unfolding is_imm imm_byte sized str_of_int
dump_int limit z =
    if is_imm z
    then ok (imm_byte z ∷ [])
    else (str_of_int limit z >>= λ text. sized 0x16 0x17 (length text) text)

unfoldable pub dump_bytes : Bytes → Outcome Bytes
unfolding sized
dump_bytes obj =
    let n = length obj in
    if n == 0
    then ok (0x01 ∷ [])
    else if n == 1
    then ok (0x0a ∷ obj)
    else if n == 2
    then ok (0x0b ∷ obj)
    else if n == 3
    then ok (0x0c ∷ obj)
    else if n == 4
    then ok (0x0d ∷ obj)
    else sized 0x0e 0x0f n obj

unfoldable pub dump_str : Bytes → Outcome Bytes
unfolding encode dump_bytes
dump_str text = do obj ← encode text; body ← dump_bytes obj; ok (0x08 ∷ body)

-- What `_dump_tuple` writes before the items.
unfoldable pub tuple_header : ℕ → Outcome Bytes
unfolding sized
tuple_header n =
    if n == 0
    then ok (0x02 ∷ [])
    else if n == 1
    then ok (0x10 ∷ [])
    else if n == 2
    then ok (0x11 ∷ [])
    else if n == 3
    then ok (0x12 ∷ [])
    else if n == 4
    then ok (0x13 ∷ [])
    else sized 0x14 0x15 n []

-- `_dump_slice` dumps the tuple of the three bounds, written out here.
unfoldable mutual
  pub dump_value : ℕ → Value → Outcome Bytes
  dump_value limit none_value = ok (0x00 ∷ [])
  dump_value limit not_implemented = ok (0x05 ∷ [])
  dump_value limit ellipsis = ok (0x06 ∷ [])
  dump_value limit (bool true) = ok (0x03 ∷ [])
  dump_value limit (bool false) = ok (0x04 ∷ [])
  dump_value limit (int z) = dump_int limit z
  dump_value limit (float x) = ok (0x18 ∷ pack_f8 x)
  dump_value limit (complex re im) = ok (0x1b ∷ (pack_f8 re ++ pack_f8 im))
  dump_value limit (bytes obj) = dump_bytes obj
  dump_value limit (str text) = dump_str text
  dump_value limit (tuple vs) = do
    header ← tuple_header (length_items vs)
    body ← dump_items limit vs
    ok (header ++ body)
  dump_value limit (fset vs) = do
    header ← tuple_header (length_items vs)
    body ← dump_items limit vs
    ok (0x1a ∷ (header ++ body))
  dump_value limit (slice first last step) = do
    header ← tuple_header 3
    a ← dump_value limit first
    b ← dump_value limit last
    c ← dump_value limit step
    ok (0x19 ∷ (header ++ (a ++ (b ++ c))))
  dump_value limit (other o) = raise type_error

  pub dump_items : ℕ → Items → Outcome Bytes
  dump_items limit nil = ok []
  dump_items limit (cons v vs) = do a ← dump_value limit v; b ← dump_items limit vs; ok (a ++ b)

-- `dump`: the stream's chunks joined.
unfoldable pub dump : ℕ → Value → Outcome Bytes
unfolding dump_value
dump limit obj = dump_value limit obj
