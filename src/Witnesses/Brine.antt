-- ===== src/Witnesses/Brine.antt =====
-- rpyc_async/core/brine.py on concrete values.
use rpyc_async.Prelude.{◌≡◌, refl, [], ◌∷◌, ◌++◌, pos, negsuc, arith}
use rpyc_async.Outcome.{ok, raise, type_error, value_error, Settles}
use rpyc_async.Codec.Words.{Bytes, pack_f8}
use rpyc_async.Codec.Decimal.{int_of_bytes}
use rpyc_async.Brine.Syntax.{Value, none_value, int, bytes, str, tuple, fset, slice, nil, cons}
use rpyc_async.Brine.Dump.{dump, dump_int, dump_bytes, dump_str, tuple_header}
use rpyc_async.Brine.Load.{load}
use rpyc_async.Brine.RoundTrip
use rpyc_async.Brine.Total

-- ("he", 7, 900, frozenset({5}), slice(1, None, b"abc"))
abbrev sample : Value
sample = tuple (
    cons (str (104 ∷ 233 ∷ [])) (
      cons (int (pos 7)) (
        cons (int (pos 900)) (
          cons (fset (cons (int (pos 5)) nil))
            (cons (slice (int (negsuc 0)) none_value (bytes (97 ∷ 98 ∷ 99 ∷ []))) nil)))))

abbrev sample_bytes : Bytes
sample_bytes =
    0x14 ∷ 5 ∷ 0x08 ∷ 0x0c ∷ 104 ∷ 195 ∷ 169 ∷ 0x57 ∷ 0x16 ∷ 3 ∷ 57 ∷ 48 ∷ 48 ∷ 0x1a ∷ 0x10 ∷ 0x55
    ∷ 0x19 ∷ 0x12 ∷ 0x4f ∷ 0x00 ∷ 0x0c ∷ 97 ∷ 98 ∷ 99 ∷ []

dump-sample : dump 4300 sample ≡ ok sample_bytes
unfolding dump dump_int dump_bytes dump_str tuple_header pack_f8
dump-sample = refl

load-sample : load 4300 sample_bytes ≡ ok sample
unfolding load
load-sample = refl

-- A read past the end of the stream is no error of its own.
load_cut_short : load 4300 (0x0c ∷ 97 ∷ []) ≡ ok (bytes (97 ∷ []))
unfolding load
load_cut_short = refl

load_unknown : load 4300 (0x07 ∷ []) ≡ raise type_error
unfolding load
load_unknown = refl

load-dump_example : load 4300 (sample_bytes ++ 1 ∷ 2 ∷ []) ≡ ok sample
load-dump_example =
    RoundTrip.load-dump 4300 sample sample_bytes (1 ∷ 2 ∷ []) (omega arith) dump-sample

load-Settles_example : Settles (load 4300 (0x15 ∷ 255 ∷ 255 ∷ 255 ∷ 255 ∷ []))
load-Settles_example = Total.load-Settles 4300 (0x15 ∷ 255 ∷ 255 ∷ 255 ∷ 255 ∷ [])

spaced : int_of_bytes 4300 (32 ∷ b'-' ∷ b'1' ∷ b'_' ∷ b'2' ∷ 10 ∷ []) ≡ ok (negsuc 11)
unfolding int_of_bytes
spaced = refl

limited : int_of_bytes 2 (b'1' ∷ b'2' ∷ b'3' ∷ []) ≡ raise value_error
unfolding int_of_bytes
limited = refl
