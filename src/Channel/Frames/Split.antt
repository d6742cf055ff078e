-- ===== src/Channel/Frames/Split.antt =====
-- How the bytes are cut into chunks makes no difference to the packets.
use rpyc_async.Prelude.{
  ℕ, zero, suc, ◌+◌, ◌≤◌, ◌<◌, ◌≡◌, refl, [], ◌∷◌, ◌++◌, List, arith, length, append_assoc,
  append-nil, length-append, inl, inr, ◌∙◌, sym, ap, subst, Option, none, some,
}
use rpyc_async.Outcome.{
  Outcome, Exc, ok, raise, out_of_fuel, ◌>>=◌, Settles, Ensures, Ensures-bind, returns, raises,
  Ensures-cases, Ensures-mono,
}
use rpyc_async.Codec.Words.{Bytes}
use rpyc_async.Channel.Packets.{wire}
use rpyc_async.Channel.Frames.{
  next_frame, frames, extract_frames, feed, Next, waits, whole, fails, next_frame-Next,
}

abbrev Found : Type 0
Found = Outcome (List Bytes × Bytes)

abbrev append_found : List Bytes → Found → Found
append_found ps r = r >>= λ (qs, rest). ok (ps ++ qs, rest)

abbrev then_found : Found → (Bytes → Found) → Found
then_found r k = r >>= λ (ps, left). append_found ps (k left)

cons_append_found :
    (p : Bytes) (ps : List Bytes) (r : Found)
    → (append_found ps r >>= λ (qs, rest). ok (p ∷ qs, rest)) ≡ append_found (p ∷ ps) r
cons_append_found p ps (ok (qs, rest)) = refl
cons_append_found p ps (raise e) = refl
cons_append_found p ps out_of_fuel = refl

cons_then_found :
    (p : Bytes) (r : Found) (k : Bytes → Found)
    → (then_found r k >>= λ (ps, rest). ok (p ∷ ps, rest))
      ≡ then_found (r >>= λ (ps, left). ok (p ∷ ps, left)) k
cons_then_found p (ok (ps, left)) k = cons_append_found p ps (k left)
cons_then_found p (raise e) k = refl
cons_then_found p out_of_fuel k = refl

append_found-nil : (r : Found) → append_found [] r ≡ r
append_found-nil (ok (qs, rest)) = refl
append_found-nil (raise e) = refl
append_found-nil out_of_fuel = refl

module _ (compress : Bytes → Bytes) (decompress : Bytes → Outcome Bytes)
    (total : (x : Bytes) → Settles (decompress x)) where
  abbrev step : Bytes → Outcome (Option (Bytes × Bytes))
  step = next_frame compress decompress

  abbrev run : ℕ → Bytes → Found
  run = frames compress decompress

  abbrev next : (buf : Bytes) → Next compress decompress buf
  next = next_frame-Next compress decompress total

  alone :
      (buf packet left : Bytes)
      → ((more : Bytes) → step (buf ++ more) ≡ ok (some (packet, left ++ more)))
      → step buf ≡ ok (some (packet, left))
  alone buf packet left k =
      subst (λ l. step buf ≡ ok (some (packet, l))) (append-nil left)
        (subst (λ b. step b ≡ ok (some (packet, left ++ []))) (append-nil buf) (k []))

  alone_fails :
      (buf : Bytes) (e : Exc) → ((more : Bytes) → step (buf ++ more) ≡ raise e) → step buf ≡ raise e
  alone_fails buf e k = subst (λ b. step b ≡ raise e) (append-nil buf) (k [])

  -- A packet takes at least its header and its flusher.
  pub next_frame-shrinks :
      (buf packet left : Bytes) → step buf ≡ ok (some (packet, left)) → length left + 6 ≤ length buf
  next_frame-shrinks buf packet left h = elim (next buf) [
    | waits e ↦ absurd (ground (arith, h, e))
    | whole p l short k ↦
        let same : l ≡ left = ground (arith, alone buf p l k, h) in
        subst (λ x. length x + 6 ≤ length buf) same short
    | fails e k ↦ absurd (ground (arith, h, alone_fails buf e k))
  ]

  -- Any fuel above the number of bytes gives the same result.
  frames-fuel : (f g : ℕ) (buf : Bytes) → length buf < f → length buf < g → run f buf ≡ run g buf
  unfolding frames
  frames-fuel zero g buf hf hg = absurd (omega arith)
  frames-fuel (suc f) zero buf hf hg = absurd (omega arith)
  frames-fuel (suc f) (suc g) buf hf hg = elim (next buf) [
    | waits e ↦ rw e
    | whole packet left short k ↦
        rw (alone buf packet left k, frames-fuel f g left (omega arith) (omega arith))
    | fails e k ↦ rw (alone_fails buf e k)
  ]

  -- Bytes that come later are read from where the loop left off.
  frames-append :
      (f g h : ℕ) (buf chunk : Bytes)
      → length (buf ++ chunk) < f
      → length buf < g
      → length (buf ++ chunk) < h
      → run f (buf ++ chunk) ≡ then_found (run g buf) (λ left. run h (left ++ chunk))
  unfolding frames
  frames-append f zero h buf chunk hf hg hh = absurd (omega arith)
  frames-append zero (suc g) h buf chunk hf hg hh = absurd (omega arith)
  frames-append (suc f) (suc g) h buf chunk hf hg hh = elim (next buf) [
    | waits e ↦
        rw e (
          frames-fuel (suc f) h (buf ++ chunk) hf hh
          ∙ sym (append_found-nil (run h (buf ++ chunk))))
    | whole packet left short k ↦
        let more = length-append buf chunk in
        let less = length-append left chunk in
        rw
          (
            k chunk,
            alone buf packet left k,
            frames-append f g h left chunk (omega arith) (omega arith) (omega arith),
          )
          (cons_then_found packet (run g left) (λ l. run h (l ++ chunk)))
    | fails e k ↦ rw (k chunk, alone_fails buf e k)
  ]

  -- What stays in the buffer has no whole packet.
  abbrev Leaves : ℕ → (List Bytes × Bytes) → Type 0
  Leaves most (packets, left) = (step left ≡ ok none) × (length left ≤ most)

  frames-Leaves : (f : ℕ) (buf : Bytes) → length buf < f → Ensures (Leaves (length buf)) (run f buf)
  unfolding frames
  frames-Leaves zero buf h = absurd (omega arith)
  frames-Leaves (suc f) buf h = elim (next buf) [
    | waits e ↦ rw e (returns (e, omega arith))
    | whole packet left short k ↦ rw (alone buf packet left k) (
        Ensures-bind (frames-Leaves f left (omega arith))
          λ (ps, rest) l. returns (l.0, omega (arith, l.1)))
    | fails e k ↦ rw (alone_fails buf e k) raises
  ]

  frames-waits : (f : ℕ) (buf : Bytes) → step buf ≡ ok none → run (suc f) buf ≡ ok ([], buf)
  unfolding frames
  frames-waits f buf e = rw e

  feed-frames :
      (f : ℕ) (inbuf : Bytes) (chunks : List Bytes)
      → step inbuf ≡ ok none
      → length (inbuf ++ wire chunks) < f
      → feed compress decompress inbuf chunks ≡ run f (inbuf ++ wire chunks)
  unfolding extract_frames feed
  feed-frames zero inbuf chunks e h = absurd (omega arith)
  feed-frames (suc f) inbuf [] e h =
      subst (λ b. ok ([], inbuf) ≡ run (suc f) b) (sym (append-nil inbuf))
        (sym (frames-waits f inbuf e))
  feed-frames (suc f) inbuf (c ∷ cs) e h =
      let joined = length-append (inbuf ++ c) (wire cs) in
      let regroup = append_assoc inbuf c (wire cs) in
      let whole_length = ap length regroup in
      let split =
        frames-append (suc f) (length (inbuf ++ c) + 1) (suc f) (inbuf ++ c) (wire cs) (omega arith)
          (omega arith) (omega arith) in
      rw (← regroup, split)
        (elim (Ensures-cases (frames-Leaves (length (inbuf ++ c) + 1) (inbuf ++ c) (omega arith))) [
          | inl ((ps, left), found, leaves) ↦ rw found (
              ap (append_found ps) (
                feed-frames (suc f) left cs leaves.0
                  (omega (arith, leaves.1, length-append left (wire cs)))))
          | inr (x, failed) ↦ rw failed
        ])

  -- The packets, the buffer and the error of a connection depend on the bytes that came and not on
  -- their chunks.
  pub feed-extract_frames :
      (chunks : List Bytes)
      → feed compress decompress [] chunks ≡ extract_frames compress decompress [] (wire chunks)
  unfolding extract_frames next_frame
  feed-extract_frames chunks = feed-frames (length (wire chunks) + 1) [] chunks refl (omega arith)

  -- `_extract_frames` returns or raises on every buffer, if zlib does on every input.
  pub extract_frames-Settles :
      (inbuf chunk : Bytes) → Settles (extract_frames compress decompress inbuf chunk)
  unfolding extract_frames
  extract_frames-Settles inbuf chunk =
      Ensures-mono (frames-Leaves (length (inbuf ++ chunk) + 1) (inbuf ++ chunk) (omega arith))
        λ r l. tt
