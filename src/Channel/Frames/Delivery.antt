-- ===== src/Channel/Frames/Delivery.antt =====
-- The packets that `Channel.send` wrote come out of the reader whole and in order.
use rpyc_async.Prelude.{
  ℕ, zero, suc, ◌+◌, ◌<◌, ◌≡◌, refl, Bool, ◌&&◌, [], ◌∷◌, ◌++◌, List, arith, length, take, ltb,
  length-append, take-length-append, take-append, drop_exact, take_all, drop_all, inl, inr, ◌∙◌, ap,
  subst, some, Bool-cases,
}
use rpyc_async.Outcome.{Outcome, ok, ◌>>=◌, >>=-eq-ok, Settles}
use rpyc_async.Codec.Words.{Bytes}
use rpyc_async.Channel.Packets.{
  wire, writes, send, inflate, pack_header, unpack_header, pack_header-eq-ok, wire-writes,
  compression_threshold,
}
use rpyc_async.Channel.Frames.{next_frame, frames, feed, extract_frames, next_frame-whole}
use rpyc_async.Channel.Frames.Split.{feed-extract_frames, next_frame-shrinks}

module _ (compress : Bytes → Bytes) (decompress : Bytes → Outcome Bytes) where
  -- What the other side gets when `messages` are sent one after the other.
  unfoldable pub send_all : Bool → List Bytes → Outcome Bytes
  send_all compressing [] = ok []
  send_all compressing (m ∷ ms) = do
    ws ← send compress decompress compressing m
    rest ← send_all compressing ms
    ok (wire ws ++ rest)

  header-frame :
      (header packet rest : Bytes) (compressed : ℕ)
      → pack_header (length packet) compressed ≡ ok header
      → next_frame compress decompress (wire (writes header packet) ++ rest)
        ≡ (inflate compress decompress compressed packet >>= λ p. ok (some (p, rest)))
  header-frame header packet rest compressed h =
      let (five, unpacked) = pack_header-eq-ok (length packet) compressed h in
      let buf = header ++ (packet ++ 10 ∷ []) in
      let size : 5 + length packet + 1 ≡ length buf =
        omega (arith, length-append header (packet ++ 10 ∷ []), length-append packet (10 ∷ [])) in
      let front : unpack_header (take 5 buf) ≡ ok (length packet, compressed) =
        rw (take-append 5 header (packet ++ 10 ∷ []) (omega arith), take_all 5 header five)
          unpacked in
      rw (wire-writes header packet) (
        next_frame-whole compress decompress buf rest (length packet) compressed front (omega arith)
        ∙ rw (
          drop_exact 5 header (packet ++ 10 ∷ []) five,
          take-length-append packet (10 ∷ []),
          drop_all (5 + length packet + 1) buf (omega arith),
        ))

  send-frame :
      (lossless : (x : Bytes) → decompress (compress x) ≡ ok x) (compressing : Bool) (m : Bytes)
      (ws : List Bytes) (rest : Bytes)
      → send compress decompress compressing m ≡ ok ws
      → next_frame compress decompress (wire ws ++ rest) ≡ ok (some (m, rest))
  unfolding send inflate
  send-frame lossless compressing m ws rest h =
      elim (Bool-cases (compressing && ltb compression_threshold (length m))) [
        | inl large ↦
            let (header, packed, k) =
              >>=-eq-ok (pack_header (length (compress m)) 1) _ (rw large at h) in
            let e : writes header (compress m) ≡ ws = cc in
            rw (← e, header-frame header (compress m) rest 1 packed, lossless m)
        | inr small ↦
            let (header, packed, k) = >>=-eq-ok (pack_header (length m) 0) _ (rw small at h) in
            let e : writes header m ≡ ws = cc in rw (← e, header-frame header m rest 0 packed)
      ]

  frames-empty : (f : ℕ) → frames compress decompress (suc f) [] ≡ ok ([], [])
  unfolding frames
  frames-empty f = refl

  next-frames :
      (f : ℕ) (buf m rest : Bytes)
      → next_frame compress decompress buf ≡ ok (some (m, rest))
      → frames compress decompress (suc f) buf
        ≡ (frames compress decompress f rest >>= λ (ps, left). ok (m ∷ ps, left))
  unfolding frames
  next-frames f buf m rest e = rw e

  send_all-frames :
      (lossless : (x : Bytes) → decompress (compress x) ≡ ok x)
      (total : (x : Bytes) → Settles (decompress x)) (compressing : Bool) (ms : List Bytes)
      (sent : Bytes) (f : ℕ)
      → send_all compressing ms ≡ ok sent
      → length sent < f
      → frames compress decompress f sent ≡ ok (ms, [])
  unfolding send_all
  send_all-frames lossless total compressing ms sent zero h fuel = absurd (omega arith)
  send_all-frames lossless total compressing [] sent (suc f) h fuel =
      let e : [] ≡ sent = cc in
      subst (λ s. frames compress decompress (suc f) s ≡ ok ([], [])) e (frames-empty f)
  send_all-frames lossless total compressing (m ∷ ms) sent (suc f) h fuel =
      let (ws, one, k) = >>=-eq-ok (send compress decompress compressing m) _ h in
      let (rest, more, k') = >>=-eq-ok (send_all compressing ms) _ k in
      let e : wire ws ++ rest ≡ sent = cc in
      let step = send-frame lossless compressing m ws rest one in
      let shrinks = next_frame-shrinks compress decompress total (wire ws ++ rest) m rest step in
      subst (λ s. frames compress decompress (suc f) s ≡ ok (m ∷ ms, [])) e
        (next-frames f (wire ws ++ rest) m rest step
          ∙ rw (
              send_all-frames lossless total compressing ms rest f more
                (omega (arith, shrinks, ap length e))))

  -- Messages framed by `send` and cut into any chunks come out of `_extract_frames` whole and in
  -- order, with nothing left in the buffer, if zlib gives back what it compressed and returns or
  -- raises on all else.
  pub feed-send_all :
      (lossless : (x : Bytes) → decompress (compress x) ≡ ok x)
      (total : (x : Bytes) → Settles (decompress x)) (compressing : Bool)
      (messages chunks : List Bytes)
      → send_all compressing messages ≡ ok (wire chunks)
      → feed compress decompress [] chunks ≡ ok (messages, [])
  unfolding extract_frames
  feed-send_all lossless total compressing messages chunks h =
      feed-extract_frames compress decompress total chunks
      ∙ send_all-frames lossless total compressing messages (wire chunks) (length (wire chunks) + 1)
          h (omega arith)
