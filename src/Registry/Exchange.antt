-- ===== src/Registry/Exchange.antt =====
-- A client's registration, from its datagram to the acknowledgement.
use rpyc_async.Prelude.{
  ℕ, ℤ, ◌≤◌, length, take, take-all, true, List, [], ◌∷◌, append-nil, some, ◌≡◌, refl, ap, sym, ◌∙◌,
  ℕ_eq, list_eq, pair_eq, ℤ_eq,
}
use rpyc_async.Outcome.{ok}
use rpyc_async.Codec.Words.{Bytes}
use rpyc_async.Brine.Syntax.{Value, str, int, tuple, nil, cons, IsValue, AreValues}
use rpyc_async.Brine.Dump.{dump}
use rpyc_async.Brine.Load.{load}
use rpyc_async.Brine.RoundTrip.{load-dump}
use rpyc_async.Registry.Server.{Server, cmd_register, cmd_query}
use rpyc_async.Registry.Wire.{
  Text, Address, max_dgram_size, register_text, query_text, upper_register, upper_query, ok_text,
  answers, texts, texts_of, addresses_value, answer_register, answer_query, call_command,
  with_loaded, work, register_request, query_request, is_acknowledged,
}

texts_of-texts : (ts : List Text) → texts_of (texts ts) ≡ some ts
unfolding texts_of texts
texts_of-texts [] = refl
texts_of-texts (t ∷ ts) = rw (texts_of-texts ts) refl

texts-AreValues : (ts : List Text) → AreValues (texts ts)
unfolding texts
texts-AreValues [] = tt
texts-AreValues (t ∷ ts) = (tt, texts-AreValues ts)

addresses-AreValues : (l : List Address) → AreValues (addresses_value l)
unfolding addresses_value
addresses-AreValues [] = tt
addresses-AreValues ((host, port) ∷ l) = ((tt, (tt, tt)), addresses-AreValues l)

register_request-IsValue :
    (aliases : List Text) (port : ℤ) → IsValue (register_request aliases port)
unfolding register_request
register_request-IsValue aliases port = (tt, (tt, ((texts-AreValues aliases, (tt, tt)), tt)))

-- A datagram that is a whole dump, and not too long, loads as what was dumped.
loads_back :
    (limit : ℕ) (v : Value) (out : Bytes)
    → IsValue v
    → dump limit v ≡ ok out
    → length out ≤ max_dgram_size
    → load limit (take max_dgram_size out) ≡ ok v
loads_back limit v out w h short =
    ap (load limit) (take-all max_dgram_size out short ∙ sym (append-nil out))
    ∙ load-dump limit v out [] w h

module _ (upper lower : Text → Text) (limit now : ℕ) where
  registers :
      (host : Text) (aliases : List Text) (port : ℤ) (s : Server Text Address)
      → lower upper_register ≡ register_text
      → with_loaded upper lower limit now host (ok (register_request aliases port)) s
        ≡ answers (str ok_text) (cmd_register upper now aliases (host, port) s)
  unfolding with_loaded register_request answer_register
  registers host aliases port s lowered =
      ap
        (λ cmd.
          call_command upper lower limit now host cmd
            (cons (tuple (texts aliases)) (cons (int port) nil)) s)
        lowered
      ∙ ap (λ names. answer_register upper lower limit now host names (int port) s)
          (texts_of-texts aliases)

  queries :
      (host name : Text) (s : Server Text Address)
      → lower upper_query ≡ query_text
      → with_loaded upper lower limit now host (ok (query_request name)) s
        ≡ answer_query upper lower limit now (cmd_query upper now name s) s
  unfolding with_loaded query_request
  queries host name s lowered =
      ap (λ cmd. call_command upper lower limit now host cmd (cons (str name) nil) s) lowered

  -- The datagram that a client sends to register aliases, which are texts, with a port makes the
  -- server register the sender under each of them and answer OK, and the client takes the dump of
  -- that answer for an acknowledgement, if lower makes register of REGISTER and neither datagram
  -- is longer than the 1500 bytes that are read.
  pub register-acknowledged :
      (host : Text) (aliases : List Text) (port : ℤ) (s : Server Text Address)
      → (datagram reply : Bytes) → lower upper_register ≡ register_text
      → dump limit (register_request aliases port) ≡ ok datagram
      → dump limit (str ok_text) ≡ ok reply
      → length datagram ≤ max_dgram_size
      → length reply ≤ max_dgram_size
      → (work upper lower limit now host datagram s
          ≡ answers (str ok_text) (cmd_register upper now aliases (host, port) s))
        × (is_acknowledged (load limit (take max_dgram_size reply)) ≡ true)
  unfolding work is_acknowledged
  register-acknowledged host aliases port s datagram reply lowered sent answered short brief = (
    ap (λ r. with_loaded upper lower limit now host r s)
          (loads_back limit (register_request aliases port) datagram
            (register_request-IsValue aliases port) sent short)
        ∙ registers host aliases port s lowered,
    ap is_acknowledged (loads_back limit (str ok_text) reply tt answered brief),
  )

  -- Where the command of a query returns addresses, the datagram that a client sends for it makes
  -- the server answer with them, and from the dump of that answer the client loads the tuple of
  -- those addresses, in their order, if lower makes query of QUERY and neither datagram is longer than
  -- the 1500 bytes that are read.
  pub query-discovered :
      (host name : Text) (s s' : Server Text Address) (addresses : List Address)
      → (datagram reply : Bytes) → lower upper_query ≡ query_text
      → dump limit (query_request name) ≡ ok datagram
      → cmd_query upper now name s ≡ ok (addresses, s')
      → dump limit (tuple (addresses_value addresses)) ≡ ok reply
      → length datagram ≤ max_dgram_size
      → length reply ≤ max_dgram_size
      → (work upper lower limit now host datagram s
          ≡ answers (tuple (addresses_value addresses)) s')
        × (load limit (take max_dgram_size reply) ≡ ok (tuple (addresses_value addresses)))
  unfolding work answer_query query_request
  query-discovered host name s s' addresses datagram reply lowered sent found answered short brief =
      (
        ap (λ r. with_loaded upper lower limit now host r s)
              (loads_back limit (query_request name) datagram (tt, (tt, ((tt, tt), tt))) sent short)
            ∙ (queries host name s lowered
                ∙ ap (λ r. answer_query upper lower limit now r s) found),
        loads_back limit (tuple (addresses_value addresses)) reply (addresses-AreValues addresses)
            answered brief,
      )
