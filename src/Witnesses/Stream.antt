-- ===== src/Witnesses/Stream.antt =====
-- A socket that answers in pieces.
use rpyc_async.Prelude.{◌≡◌, refl, [], ◌∷◌, ◌++◌, true, false, length}
use rpyc_async.Stream.Socket.{
  moved, timed_out, broken, Socket, done, failed, read, write, read_loop,
}
use rpyc_async.Stream.Transfer
use rpyc_async.Stream.Transfer.{After}

abbrev socket : Socket
socket = record {
  incoming = 1 ∷ 2 ∷ 3 ∷ 4 ∷ [];
  outgoing = [];
  closed = false;
  on_close = true;
  hooks = 0;
}

read_in_pieces :
    read (moved 0 ∷ timed_out ∷ moved 9 ∷ []) 3 socket
    ≡ done (1 ∷ 2 ∷ 3 ∷ []) (record socket { incoming = 4 ∷ [] })
unfolding read read_loop
read_in_pieces = refl

read_to_the_end :
    read (moved 9 ∷ moved 0 ∷ []) 5 socket
    ≡ failed (record socket { incoming = []; closed = true; on_close = false; hooks = 1 })
unfolding read read_loop
read_to_the_end = refl

write_broken :
    write (moved 2 ∷ broken ∷ []) (7 ∷ 8 ∷ 9 ∷ []) socket
    ≡ failed (record socket { outgoing = 7 ∷ 8 ∷ []; closed = true; on_close = false; hooks = 1 })
unfolding write
write_broken = refl

read_lem_example :
    After
      (λ result s'. (result ++ s'.incoming ≡ socket.incoming) × (length result ≡ 3))
      (λ s'. s'.closed ≡ true)
      (λ s'. s'.closed ≡ false)
      (read (moved 0 ∷ timed_out ∷ moved 9 ∷ []) 3 socket)
read_lem_example = Transfer.read_lem (moved 0 ∷ timed_out ∷ moved 9 ∷ []) 3 socket

write_lem_example :
    Transfer.WriteLoop
      (7 ∷ 8 ∷ 9 ∷ [])
      socket
      (write (moved 2 ∷ broken ∷ []) (7 ∷ 8 ∷ 9 ∷ []) socket)
write_lem_example = Transfer.write_lem (moved 2 ∷ broken ∷ []) (7 ∷ 8 ∷ 9 ∷ []) socket
