-- ===== src/Channel/Packets.antt =====
-- `Channel.send` and `Channel.recv`. zlib is a parameter.
use rpyc_async.Prelude.{
  ℕ, ◌+◌, ◌-◌, ◌≤◌, ◌≡◌, refl, Bool, ◌&&◌, [], ◌∷◌, ◌++◌, List, arith, ltb, leb, ◌==◌, length, take,
  drop, if◌then◌else◌, append_assoc, append-nil, take-append-drop, length-append,
  take-length-append, drop-length-append, Bool-cases, ltb→lt, le→leb, leb→le, leb-false→lt,
  length-take, inl, inr, ◌⊎◌, ◌∙◌, sym, ap,
}
use rpyc_async.Outcome.{
  Outcome, ok, raise, eof_error, struct_error, ◌>>=◌, >>=-eq-ok, if-eq-ok, Settles, Ensures-bind,
  returns,
}
use rpyc_async.Codec.Words.{
  Bytes, be32, pack_i4, unpack_i4, unpack_i1, be32-value, unpack_i4-Settles, unpack_i1-Settles,
}

-- `MAX_IO_CHUNK` of the streams, and `COMPRESSION_THRESHOLD`.
abbrev pub max_io_chunk : ℕ
max_io_chunk = 64000

abbrev pub compression_threshold : ℕ
compression_threshold = 3000

-- `FRAME_HEADER`: a length of four bytes and a flag of one.
unfoldable pub pack_header : ℕ → ℕ → Outcome Bytes
unfolding pack_i4
pack_header size compressed = pack_i4 size >>= λ w. ok (w ++ compressed ∷ [])

unfoldable pub unpack_header : Bytes → Outcome (ℕ × ℕ)
unfolding unpack_i4 unpack_i1
unpack_header header = do
  size ← unpack_i4 (take 4 header)
  compressed ← unpack_i1 (drop 4 header)
  ok (size, compressed)

-- The writes that put a packet on the stream: one, or three for a packet above a chunk.
unfoldable pub writes : Bytes → Bytes → List Bytes
writes header packet =
    if leb (5 + length packet + 1) max_io_chunk
    then (header ++ (packet ++ 10 ∷ [])) ∷ []
    else (header ++ take (max_io_chunk - 5) packet)
      ∷ drop (max_io_chunk - 5) packet
      ∷ (10 ∷ [])
      ∷ []

-- What a series of writes puts on the stream.
abbrev pub wire : List Bytes → Bytes
wire [] = []
wire (w ∷ ws) = w ++ wire ws

-- `stream.read(n)` on a stream that delivers `s` and then ends.
unfoldable pub read_exactly : ℕ → Bytes → Outcome (Bytes × Bytes)
read_exactly n s = if leb n (length s) then ok (take n s, drop n s) else raise eof_error

module _ (compress : Bytes → Bytes) (decompress : Bytes → Outcome Bytes) where
  unfoldable pub send : Bool → Bytes → Outcome (List Bytes)
  unfolding pack_header writes
  send compressing data_sent =
      if compressing && ltb compression_threshold (length data_sent)
      then (pack_header (length (compress data_sent)) 1 >>= λ header.
          ok (writes header (compress data_sent)))
      else (pack_header (length data_sent) 0 >>= λ header. ok (writes header data_sent))

  unfoldable pub inflate : ℕ → Bytes → Outcome Bytes
  inflate compressed packet = if compressed == 0 then ok packet else decompress packet

  unfoldable pub recv : Bytes → Outcome (Bytes × Bytes)
  unfolding read_exactly unpack_header inflate
  recv s = do
    (header, s1) ← read_exactly 5 s
    (size, compressed) ← unpack_header header
    (body, s2) ← read_exactly (size + 1) s1
    packet ← inflate compressed (take size body)
    ok (packet, s2)

-- Both ways of writing put the same bytes on the stream.
pub wire-writes :
    (header packet : Bytes) → wire (writes header packet) ≡ header ++ (packet ++ 10 ∷ [])
unfolding writes
wire-writes header packet = elim (Bool-cases (leb (5 + length packet + 1) max_io_chunk)) [
  | inl one ↦ rw (one, append-nil)
  | inr three ↦
      rw (three, append_assoc)
        (ap (λ t. header ++ t)
          (sym (
              append_assoc (take (max_io_chunk - 5) packet) (drop (max_io_chunk - 5) packet)
                (10 ∷ []))
            ∙ ap (λ t. t ++ 10 ∷ []) (take-append-drop (max_io_chunk - 5) packet)))
]

read_exactly-append : (a b : Bytes) (n : ℕ) → length a ≡ n → read_exactly n (a ++ b) ≡ ok (a, b)
unfolding read_exactly
read_exactly-append a b n e = rw (
  le→leb n (length (a ++ b)) (omega (arith, length-append a b)),
  ← e,
  take-length-append a b,
  drop-length-append a b,
)

pub unpack_header-Settles : (header : Bytes) → Settles (unpack_header header)
unfolding unpack_header
unpack_header-Settles header =
    Ensures-bind (unpack_i4-Settles (take 4 header))
      λ size _. Ensures-bind (unpack_i1-Settles (drop 4 header)) λ compressed _. returns tt

pub pack_header-eq-ok :
    (size compressed : ℕ) {header : Bytes}
    → pack_header size compressed ≡ ok header
    → (length header ≡ 5) × (unpack_header header ≡ ok (size, compressed))
unfolding pack_header unpack_header pack_i4
pack_header-eq-ok size compressed {header} h =
    let (w, packed, k) = >>=-eq-ok (pack_i4 size) _ h in
    let (fits, e) = if-eq-ok (ltb size 4294967296) struct_error packed in
    let out : be32 size ++ compressed ∷ [] ≡ header = cc in
    rw (← out) (refl, rw (be32-value size (ltb→lt size 4294967296 fits)))

module _ (compress : Bytes → Bytes) (decompress : Bytes → Outcome Bytes) where
  packet-recv :
      (header packet rest : Bytes) (compressed : ℕ)
      → pack_header (length packet) compressed ≡ ok header
      → recv compress decompress (wire (writes header packet) ++ rest)
        ≡ (inflate compress decompress compressed packet >>= λ p. ok (p, rest))
  unfolding recv
  packet-recv header packet rest compressed h =
      let (five, unpacked) = pack_header-eq-ok (length packet) compressed h in
      let body : length (packet ++ 10 ∷ []) ≡ length packet + 1 =
        omega (arith, length-append packet (10 ∷ [])) in
      rw (
        wire-writes header packet,
        append_assoc header (packet ++ 10 ∷ []) rest,
        read_exactly-append header ((packet ++ 10 ∷ []) ++ rest) 5 five,
        unpacked,
        read_exactly-append (packet ++ 10 ∷ []) rest (length packet + 1) body,
        take-length-append packet (10 ∷ []),
      )

  -- What `send` writes, `recv` reads, and it leaves what follows, with any setting of `compress`,
  -- if zlib gives back what it compressed.
  pub recv-send :
      (compressing : Bool) (sent : Bytes) (ws : List Bytes) (rest : Bytes)
      → ((x : Bytes) → decompress (compress x) ≡ ok x)
      → send compress decompress compressing sent ≡ ok ws
      → recv compress decompress (wire ws ++ rest) ≡ ok (sent, rest)
  unfolding send inflate
  recv-send compressing sent ws rest lossless h =
      elim (Bool-cases (compressing && ltb compression_threshold (length sent))) [
        | inl large ↦
            let (header, packed, k) =
              >>=-eq-ok (pack_header (length (compress sent)) 1) _ (rw large at h) in
            let e : writes header (compress sent) ≡ ws = cc in
            rw (← e, packet-recv header (compress sent) rest 1 packed, lossless sent)
        | inr small ↦
            let (header, packed, k) = >>=-eq-ok (pack_header (length sent) 0) _ (rw small at h) in
            let e : writes header sent ≡ ws = cc in rw (← e, packet-recv header sent rest 0 packed)
      ]

-- A packet goes out in one write of at most a chunk, or in three of which the first is a chunk.
pub writes_cases :
    (header packet : Bytes)
    → length header ≡ 5
    → ((w : Bytes) × (writes header packet ≡ w ∷ []) × (length w ≤ max_io_chunk))
      ⊎ ((w1 w2 : Bytes) × (writes header packet ≡ w1 ∷ w2 ∷ (10 ∷ []) ∷ [])
          × (length w1 ≡ max_io_chunk))
unfolding writes
writes_cases header packet h = elim (Bool-cases (leb (5 + length packet + 1) max_io_chunk)) [
  | inl one ↦ inl (
    header ++ (packet ++ 10 ∷ []),
    rw one,
    omega (
      arith,
      length-append header (packet ++ 10 ∷ []),
      length-append packet (10 ∷ []),
      leb→le (5 + length packet + 1) max_io_chunk one,
    ),
  )
  | inr three ↦ inr (
    header ++ take (max_io_chunk - 5) packet,
    drop (max_io_chunk - 5) packet,
    rw three,
    omega (
      arith,
      length-append header (take (max_io_chunk - 5) packet),
      length-take (max_io_chunk - 5) packet,
      leb-false→lt (5 + length packet + 1) max_io_chunk three,
    ),
  )
]
