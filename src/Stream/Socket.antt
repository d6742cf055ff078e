-- ===== src/Stream/Socket.antt =====
-- The socket as its system calls answer, and the loops of `read`, `write`, `close` and
-- `recv_available`.
use rpyc_async.Prelude.{
  ℕ, suc, ◌-◌, Bool, true, false, List, [], ◌∷◌, ◌++◌, min, length, take, drop, ◌==◌, if◌then◌else◌,
  Option, none, some,
}
use rpyc_async.Codec.Words.{Bytes}
use rpyc_async.Channel.Packets.{max_io_chunk}

-- One answer of the kernel to `recv` or `send`: it moved some bytes, one of the two exceptions after
-- which `recv` is tried again, or another error.
pub data Answer : Type 0 where
  moved : ℕ → Answer
  timed_out again broken : Answer

-- `incoming` is what the peer has sent and still will send before it closes; `outgoing` what it has
-- been sent. `hooks` counts the calls of the close callback.
pub record Socket : Type 0 where
  pub incoming : Bytes
  pub outgoing : Bytes
  pub closed : Bool
  pub on_close : Bool
  pub hooks : ℕ

-- `failed` is a raised EOFError; `blocked` a call that still waits when the answers end.
pub data Io {ℓ} (A : Type ℓ) : Type ℓ where
  done : A → Socket → Io A
  failed : Socket → Io A
  blocked : Socket → Io A

-- The callback is taken out before it is called, so it is called once.
unfoldable pub close : Socket → Socket
close s = record s {
  closed = true;
  on_close = false;
  hooks = if s.on_close then suc s.hooks else s.hooks;
}

-- `sock.recv(most)`: at least a byte, unless the peer has closed.
unfoldable pub recv : ℕ → ℕ → Socket → Bytes × Socket
recv n most s =
    let k = min (suc n) most in (take k s.incoming, record s { incoming = drop k s.incoming })

unfoldable pub is_empty : Bytes → Bool
is_empty [] = true
is_empty (b ∷ bs) = false

-- `got` is what the loop has read so far. On a closed stream `self.sock` raises EOFError.
unfoldable pub read_loop : List Answer → ℕ → Bytes → Socket → Io Bytes
unfolding recv close is_empty
read_loop [] count got s =
    if count == 0 then done got s else if s.closed then failed s else blocked s
read_loop (a ∷ answers) count got s =
    if count == 0 then done got s else if s.closed then failed s else elim a [
      | moved n ↦
          let (buf, s') = recv n (min max_io_chunk count) s in
          elim (is_empty buf) [
            | true ↦ failed (close s')
            | false ↦ read_loop answers (count - length buf) (got ++ buf) s'
          ]
      | timed_out ↦ read_loop answers count got s
      | again ↦ read_loop answers count got s
      | broken ↦ failed (close s)
    ]

unfoldable pub read : List Answer → ℕ → Socket → Io Bytes
read answers count s = read_loop answers count [] s

-- `while data: count = sock.send(data[:MAX_IO_CHUNK]); data = data[count:]`
unfoldable pub write : List Answer → Bytes → Socket → Io (Unit {0})
unfolding close is_empty
write [] pending s =
    if is_empty pending then done tt s else if s.closed then failed s else blocked s
write (a ∷ answers) pending s =
    if is_empty pending then done tt s else if s.closed then failed s else elim a [
      | moved n ↦
          let k = min n (length (take max_io_chunk pending)) in
          write answers (drop k pending) (record s { outgoing = s.outgoing ++ take k pending })
      | timed_out ↦ failed (close s)
      | again ↦ failed (close s)
      | broken ↦ failed (close s)
    ]

-- One `recv` that does not wait: data, the empty string at the end of the stream, or None.
unfoldable pub recv_available : Answer → Socket → Io (Option Bytes)
unfolding recv close
recv_available a s = if s.closed then failed s else elim a [
  | moved n ↦ let (buf, s') = recv n max_io_chunk s in done (some buf) s'
  | timed_out ↦ done none s
  | again ↦ done none s
  | broken ↦ failed (close s)
]
