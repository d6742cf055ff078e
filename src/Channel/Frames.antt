-- ===== src/Channel/Frames.antt =====
-- `_extract_frames`: the packets that a buffer holds whole, and what stays in it.
pub mod Split
pub mod Delivery
use rpyc_async.Prelude.{
  ℕ, zero, suc, ◌+◌, ◌-◌, ◌≤◌, ◌<◌, ◌≡◌, ◌≢◌, refl, Bool, true, false, [], ◌∷◌, ◌++◌, List, arith,
  ltb, ◌==◌, ltb→lt, ltb-false→le, lt→ltb, le→ltb-false, length, take, drop, if◌then◌else◌,
  append_assoc, append-nil, length-append, length-drop, take-append, drop-append, Bool-cases, inl,
  inr, ◌∙◌, sym, ap, ◌⊎◌, Option, none, some,
}
use rpyc_async.Outcome.{
  Outcome, Exc, ok, raise, out_of_fuel, ◌>>=◌, >>=-eq-ok, Settles, Ensures, Ensures-bind, returns,
  raises, Settles-if, Settles-cases,
}
use rpyc_async.Codec.Words.{Bytes}
use rpyc_async.Channel.Packets.{unpack_header, inflate, unpack_header-Settles}

module _ (compress : Bytes → Bytes) (decompress : Bytes → Outcome Bytes) where
  -- One round of the loop: the first packet and the bytes behind it, or none if it is not whole.
  unfoldable pub next_frame : Bytes → Outcome (Option (Bytes × Bytes))
  unfolding unpack_header inflate
  next_frame buf =
      if ltb (length buf) 5
      then ok none
      else (unpack_header (take 5 buf) >>= λ (size, compressed).
          if ltb (length buf) (5 + size + 1)
          then ok none
          else (inflate compress decompress compressed (take size (drop 5 buf)) >>= λ packet.
              ok (some (packet, drop (5 + size + 1) buf))))

  -- The loop. It makes at most as many rounds as the buffer has bytes.
  unfoldable pub frames : ℕ → Bytes → Outcome (List Bytes × Bytes)
  unfolding next_frame
  frames zero buf = out_of_fuel
  frames (suc fuel) buf = next_frame buf >>= λ frame. elim frame [
    | none ↦ ok ([], buf)
    | some (packet, left) ↦ frames fuel left >>= λ (packets, rest). ok (packet ∷ packets, rest)
  ]

  -- One event of the reader: the chunk goes behind what was left.
  unfoldable pub extract_frames : Bytes → Bytes → Outcome (List Bytes × Bytes)
  extract_frames inbuf chunk = frames (length (inbuf ++ chunk) + 1) (inbuf ++ chunk)

  -- The events of a connection in turn, from the buffer that the last one left.
  unfoldable pub feed : Bytes → List Bytes → Outcome (List Bytes × Bytes)
  feed inbuf [] = ok ([], inbuf)
  feed inbuf (chunk ∷ chunks) = extract_frames inbuf chunk >>= λ (packets, left).
      feed left chunks >>= λ (more, rest). ok (packets ++ more, rest)

  -- The round on a buffer with a whole packet, whatever follows it.
  pub next_frame-whole :
      (buf more : Bytes) (size compressed : ℕ)
      → unpack_header (take 5 buf) ≡ ok (size, compressed)
      → 5 + size + 1 ≤ length buf
      → next_frame (buf ++ more) ≡ (
          inflate compress decompress compressed (take size (drop 5 buf)) >>= λ packet.
          ok (some (packet, drop (5 + size + 1) buf ++ more)))
  unfolding next_frame
  next_frame-whole buf more size compressed e h =
      let long : length buf + length more ≡ length (buf ++ more) =
        omega (arith, length-append buf more) in
      rw (
        le→ltb-false (length (buf ++ more)) 5 (omega arith),
        take-append 5 buf more (omega arith),
        e,
        le→ltb-false (length (buf ++ more)) (5 + size + 1) (omega arith),
        drop-append 5 buf more (omega arith),
        take-append size (drop 5 buf) more (omega (arith, length-drop 5 buf)),
        drop-append (5 + size + 1) buf more h,
      )

  next_frame-bad_header :
      (buf more : Bytes) (e : Exc)
      → 5 ≤ length buf
      → unpack_header (take 5 buf) ≡ raise e
      → next_frame (buf ++ more) ≡ raise e
  unfolding next_frame
  next_frame-bad_header buf more e h bad = rw (
    le→ltb-false (length (buf ++ more)) 5 (omega (arith, length-append buf more)),
    take-append 5 buf more h,
    bad,
  )

  -- A whole packet takes its header and its flusher off the buffer, and stays the first one when
  -- the buffer grows; so does an error.
  pub data Next (buf : Bytes) : Type 0 where
    waits : next_frame buf ≡ ok none → Next buf
    whole :
        (packet left : Bytes)
        → length left + 6 ≤ length buf
        → ((more : Bytes) → next_frame (buf ++ more) ≡ ok (some (packet, left ++ more)))
        → Next buf
    fails : (e : Exc) → ((more : Bytes) → next_frame (buf ++ more) ≡ raise e) → Next buf

  inflate-Settles :
      ((x : Bytes) → Settles (decompress x))
      → (compressed : ℕ) (packet : Bytes) → Settles (inflate compress decompress compressed packet)
  unfolding inflate
  inflate-Settles total compressed packet = Settles-if (compressed == 0) (returns tt) (total packet)

  whole-Next :
      ((x : Bytes) → Settles (decompress x))
      → (buf : Bytes) (size compressed : ℕ) → unpack_header (take 5 buf) ≡ ok (size, compressed)
      → 5 + size + 1 ≤ length buf
      → Next buf
  whole-Next total buf size compressed e h =
      let step = λ (more : Bytes). next_frame-whole buf more size compressed e h in
      elim (Settles-cases (inflate-Settles total compressed (take size (drop 5 buf)))) [
        | inl (packet, k) ↦
            whole packet (drop (5 + size + 1) buf) (omega (arith, length-drop (5 + size + 1) buf))
              (λ more. step more ∙ rw k)
        | inr (x, k) ↦ fails x (λ more. step more ∙ rw k)
      ]

  next_frame-short : (buf : Bytes) → length buf < 5 → next_frame buf ≡ ok none
  unfolding next_frame
  next_frame-short buf h = rw (lt→ltb (length buf) 5 h)

  next_frame-partial :
      (buf : Bytes) (size compressed : ℕ)
      → 5 ≤ length buf
      → unpack_header (take 5 buf) ≡ ok (size, compressed)
      → length buf < 5 + size + 1
      → next_frame buf ≡ ok none
  unfolding next_frame
  next_frame-partial buf size compressed h e short =
      rw (le→ltb-false (length buf) 5 h, e, lt→ltb (length buf) (5 + size + 1) short)

  pub next_frame-Next : ((x : Bytes) → Settles (decompress x)) → (buf : Bytes) → Next buf
  next_frame-Next total buf = elim (Bool-cases (ltb (length buf) 5)) [
    | inl short ↦ waits (next_frame-short buf (ltb→lt (length buf) 5 short))
    | inr long ↦
        let five = ltb-false→le (length buf) 5 long in
        elim (Settles-cases (unpack_header-Settles (take 5 buf))) [
          | inl ((size, compressed), e) ↦ elim (Bool-cases (ltb (length buf) (5 + size + 1))) [
            | inl part ↦ waits (
                next_frame-partial buf size compressed five e
                  (ltb→lt (length buf) (5 + size + 1) part))
            | inr all ↦
                whole-Next total buf size compressed e
                  (ltb-false→le (length buf) (5 + size + 1) all)
          ]
          | inr (x, e) ↦ fails x (λ more. next_frame-bad_header buf more x five e)
        ]
  ]
