-- ===== src/Stream/Transfer.antt =====
-- What a finished `read` or `write` has moved.
use rpyc_async.Prelude.{
  ℕ, suc, ◌+◌, ◌-◌, ◌≡◌, refl, true, false, List, [], ◌∷◌, ◌++◌, min, length, take, drop, ◌==◌,
  if◌then◌else◌, Bool-cases, inl, inr, arith, append_assoc, append-nil, take-append-drop,
  length-append, length-take, ==_iff, ◌∙◌, sym, ap, subst,
}
use rpyc_async.Codec.Words.{Bytes}
use rpyc_async.Channel.Packets.{max_io_chunk}
use rpyc_async.Stream.Socket.{
  Answer, moved, timed_out, again, broken, Socket, Io, done, failed, blocked, close, recv, is_empty,
  read_loop, read, write,
}

-- What holds after the call, by how it ended.
abbrev pub After {ℓ κ} :
    {A : Type ℓ} → (A → Socket → Type κ) → (Socket → Type κ) → (Socket → Type κ) → Io A → Type κ
After d f b (done a s) = d a s
After d f b (failed s) = f s
After d f b (blocked s) = b s

-- The bytes that were read, in order, and those still to come are the ones that were to come.
abbrev Took : Socket → ℕ → Bytes → Bytes → Socket → Type 0
Took s count got result s' =
    (result ++ s'.incoming ≡ got ++ s.incoming) × (length result ≡ length got + count)

abbrev ReadLoop : ℕ → Bytes → Socket → Io Bytes → Type 0
ReadLoop count got s = After (Took s count got) (λ s'. s'.closed ≡ true) (λ s'. s'.closed ≡ false)

After-mono {ℓ κ} :
    {A : Type ℓ} {d d' : A → Socket → Type κ} (f b : Socket → Type κ) (r : Io A)
    → After d f b r
    → ((a : A) (s : Socket) → d a s → d' a s)
    → After d' f b r
After-mono f b (done a s) h k = k a s h
After-mono f b (failed s) h k = h
After-mono f b (blocked s) h k = h

-- The loop's guards: no byte is left to read, or the stream is closed.
read_loop-guards :
    (answers : List Answer) (count : ℕ) (got : Bytes) (s : Socket)
    → ((count == 0) ≡ false
        → s.closed ≡ false
        → ReadLoop count got s (read_loop answers count got s))
    → ReadLoop count got s (read_loop answers count got s)
unfolding read_loop
read_loop-guards answers count got s live = elim (Bool-cases (count == 0)) [
  | inl e ↦ finished answers e
  | inr more ↦ elim (Bool-cases s.closed) [
    | inl shut ↦ unusable answers more shut
    | inr usable ↦ live more usable
  ]
]
  where
    finished :
        (answers : List Answer)
        → (count == 0) ≡ true
        → ReadLoop count got s (read_loop answers count got s)
    finished [] e = rw e (refl, omega (arith, (==_iff count 0).0 e))
    finished (a ∷ answers) e = rw e (refl, omega (arith, (==_iff count 0).0 e))

    unusable :
        (answers : List Answer)
        → (count == 0) ≡ false
        → s.closed ≡ true
        → ReadLoop count got s (read_loop answers count got s)
    unusable [] e c = rw (e, c) refl
    unusable (a ∷ answers) e c = rw (e, c) refl

abbrev chunk_of : ℕ → ℕ → Socket → Bytes
chunk_of n count s = (recv n (min max_io_chunk count) s).0

abbrev rest_of : ℕ → ℕ → Socket → Socket
rest_of n count s = (recv n (min max_io_chunk count) s).1

-- A round that read something.
Took-round :
    (n count : ℕ) (got : Bytes) (s : Socket) (result : Bytes) (s' : Socket)
    → Took
        (rest_of n count s)
        (count - length (chunk_of n count s))
        (got ++ chunk_of n count s)
        result
        s'
    → Took s count got result s'
unfolding recv
Took-round n count got s result s' (bytes, size) = (
  bytes
      ∙ append_assoc got (chunk_of n count s) (rest_of n count s).incoming
      ∙ ap (λ t. got ++ t) (take-append-drop (min (suc n) (min max_io_chunk count)) s.incoming),
  omega (
    arith,
    size,
    length-append got (chunk_of n count s),
    length-take (min (suc n) (min max_io_chunk count)) s.incoming,
  ),
)

read_loop-moved :
    (n : ℕ) (answers : List Answer) (count : ℕ) (got : Bytes) (s : Socket)
    → (count == 0) ≡ false
    → s.closed ≡ false
    → is_empty (chunk_of n count s) ≡ false
    → read_loop answers
        (count - length (chunk_of n count s))
        (got ++ chunk_of n count s)
        (rest_of n count s)
      ≡ read_loop (moved n ∷ answers) count got s
unfolding read_loop
read_loop-moved n answers count got s more usable some_bytes = simp (more, usable, some_bytes)

read_loop-Took :
    (answers : List Answer) (count : ℕ) (got : Bytes) (s : Socket)
    → ReadLoop count got s (read_loop answers count got s)
unfolding read_loop
read_loop-Took [] count got s =
    read_loop-guards [] count got s λ more usable. simp (more, usable) refl
read_loop-Took (broken ∷ answers) count got s =
    read_loop-guards (broken ∷ answers) count got s λ more usable. simp (more, usable) refl
read_loop-Took (timed_out ∷ answers) count got s =
    read_loop-guards (timed_out ∷ answers) count got s
      λ more usable. simp (more, usable) (read_loop-Took answers count got s)
read_loop-Took (again ∷ answers) count got s =
    read_loop-guards (again ∷ answers) count got s
      λ more usable. simp (more, usable) (read_loop-Took answers count got s)
read_loop-Took (moved n ∷ answers) count got s =
    read_loop-guards (moved n ∷ answers) count got s λ more usable.
      elim (Bool-cases (is_empty (chunk_of n count s))) [
        | inl end ↦ simp (more, usable, end) refl
        | inr some_bytes ↦
            subst (ReadLoop count got s)
              (read_loop-moved n answers count got s more usable some_bytes)
              (After-mono (λ s'. s'.closed ≡ true) (λ s'. s'.closed ≡ false)
                (read_loop answers (count - length (chunk_of n count s)) (got ++ chunk_of n count s)
                  (rest_of n count s))
                (read_loop-Took answers (count - length (chunk_of n count s))
                  (got ++ chunk_of n count s) (rest_of n count s))
                (Took-round n count got s))
      ]

-- A `read` that returns has the next `count` bytes of the peer, no more and no fewer, and takes
-- them off the stream; one that raises EOFError leaves the stream closed; one that still waits has
-- not closed it.
pub read_lem :
    (answers : List Answer) (count : ℕ) (s : Socket)
    → After
        (λ result s'. (result ++ s'.incoming ≡ s.incoming) × (length result ≡ count))
        (λ s'. s'.closed ≡ true)
        (λ s'. s'.closed ≡ false)
        (read answers count s)
unfolding read
read_lem answers count s =
    After-mono (λ s'. s'.closed ≡ true) (λ s'. s'.closed ≡ false) (read_loop answers count [] s)
      (read_loop-Took answers count [] s) λ result s' h. (h.0, omega (arith, h.1))

-- The bytes that went out are the first of those to write.
abbrev pub Sent : Socket → Bytes → Socket → Type 0
Sent s pending s' = (rest : Bytes) × (s'.outgoing ++ rest ≡ s.outgoing ++ pending)

abbrev pub WriteLoop : Bytes → Socket → Io (Unit {0}) → Type 0
WriteLoop pending s =
    After (λ _ s'. s'.outgoing ≡ s.outgoing ++ pending)
      (λ s'. (s'.closed ≡ true) × Sent s pending s') (λ s'. (s'.closed ≡ false) × Sent s pending s')

abbrev accepted : ℕ → Bytes → ℕ
accepted n pending = min n (length (take max_io_chunk pending))

abbrev after_send : ℕ → Bytes → Socket → Socket
after_send n pending s = record s { outgoing = s.outgoing ++ take (accepted n pending) pending }

write-moved :
    (n : ℕ) (answers : List Answer) (b : ℕ) (bs : Bytes) (s : Socket)
    → s.closed ≡ false
    → write answers (drop (accepted n (b ∷ bs)) (b ∷ bs)) (after_send n (b ∷ bs) s)
      ≡ write (moved n ∷ answers) (b ∷ bs) s
unfolding write
write-moved n answers b bs s usable = rw usable

-- The bytes of one round and those of the rounds after it.
regroup : (k : ℕ) (out pending : Bytes) → (out ++ take k pending) ++ drop k pending ≡ out ++ pending
regroup k out pending =
    append_assoc out (take k pending) (drop k pending)
    ∙ ap (λ t. out ++ t) (take-append-drop k pending)

write-round :
    (n : ℕ) (pending : Bytes) (s : Socket) (r : Io (Unit {0}))
    → WriteLoop (drop (accepted n pending) pending) (after_send n pending s) r
    → WriteLoop pending s r
write-round n pending s (done x s') h = h ∙ regroup (accepted n pending) s.outgoing pending
write-round n pending s (failed s') (shut, (rest, e)) =
    (shut, (rest, e ∙ regroup (accepted n pending) s.outgoing pending))
write-round n pending s (blocked s') (live, (rest, e)) =
    (live, (rest, e ∙ regroup (accepted n pending) s.outgoing pending))

-- Any error of `send` closes the stream.
write-refused :
    (a : Answer) (answers : List Answer) (b : ℕ) (bs : Bytes) (s : Socket)
    → write (a ∷ answers) (b ∷ bs) s ≡ (if s.closed then failed s else failed (close s))
    → WriteLoop (b ∷ bs) s (write (a ∷ answers) (b ∷ bs) s)
unfolding close
write-refused a answers b bs s e = elim (Bool-cases s.closed) [
  | inl shut ↦ subst (WriteLoop (b ∷ bs) s) (sym (e ∙ at shut)) (shut, (b ∷ bs, refl))
  | inr live ↦ subst (WriteLoop (b ∷ bs) s) (sym (e ∙ at' live)) (refl, (b ∷ bs, refl))
]
  where
    at :
        s.closed ≡ true
        → ◌≡◌ {A = Io (Unit {0})} (if s.closed then failed s else failed (close s)) (failed s)
    at c = rw c

    at' :
        s.closed ≡ false
        → ◌≡◌ {A = Io (Unit {0})}
            (if s.closed then failed s else failed (close s))
            (failed (close s))
    at' c = simp c

-- A `write` that returns has sent all of its bytes, in order; one that raises EOFError has closed
-- the stream behind some first part of them, and one that still waits has sent such a part.
pub write_lem :
    (answers : List Answer) (pending : Bytes) (s : Socket)
    → WriteLoop pending s (write answers pending s)
unfolding write
write_lem [] [] s = sym (append-nil s.outgoing)
write_lem (a ∷ answers) [] s = sym (append-nil s.outgoing)
write_lem [] (b ∷ bs) s = elim (Bool-cases s.closed) [
  | inl shut ↦ subst (WriteLoop (b ∷ bs) s) (eq shut) (shut, (b ∷ bs, refl))
  | inr live ↦ subst (WriteLoop (b ∷ bs) s) (eq' live) (live, (b ∷ bs, refl))
]
  where
    eq : s.closed ≡ true → failed s ≡ write [] (b ∷ bs) s
    eq e = rw e

    eq' : s.closed ≡ false → blocked s ≡ write [] (b ∷ bs) s
    eq' e = rw e
write_lem (moved n ∷ answers) (b ∷ bs) s = elim (Bool-cases s.closed) [
  | inl shut ↦ subst (WriteLoop (b ∷ bs) s) (eq shut) (shut, (b ∷ bs, refl))
  | inr live ↦ subst (WriteLoop (b ∷ bs) s) (write-moved n answers b bs s live) (
      write-round n (b ∷ bs) s _
        (write_lem answers (drop (accepted n (b ∷ bs)) (b ∷ bs)) (after_send n (b ∷ bs) s)))
]
  where
    eq : s.closed ≡ true → failed s ≡ write (moved n ∷ answers) (b ∷ bs) s
    eq e = rw e
write_lem (timed_out ∷ answers) (b ∷ bs) s = write-refused timed_out answers b bs s refl
write_lem (again ∷ answers) (b ∷ bs) s = write-refused again answers b bs s refl
write_lem (broken ∷ answers) (b ∷ bs) s = write-refused broken answers b bs s refl
