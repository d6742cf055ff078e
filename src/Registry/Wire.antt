-- ===== src/Registry/Wire.antt =====
-- Datagrams: the loop of `_work`, and what the clients send and make of the answers. `upper` and `lower`
-- are the methods of texts, which are lists of code points. Ports are integers.
use rpyc_async.Prelude.{
  ℕ, ℤ, Bool, false, List, [], ◌∷◌, Option, none, some, if◌then◌else◌, ℕ_eq, list_eq, pair_eq, ℤ_eq,
  list_matches, take,
}
use rpyc_async.Outcome.{Outcome, ok, raise, out_of_fuel}
use rpyc_async.Codec.Words.{Bytes}
use rpyc_async.Brine.Syntax.{Value, Items, str, int, bytes, tuple, fset, nil, cons}
use rpyc_async.Brine.Load.{load}
use rpyc_async.Registry.Server.{Server, cmd_register, cmd_unregister, cmd_query}

abbrev pub Text : Type 0
Text = List ℕ

abbrev pub Address : Type 0
Address = Text × ℤ

-- `RPYC`, the commands, and `OK`.
abbrev pub magic_text : Text
magic_text = 82 ∷ 80 ∷ 89 ∷ 67 ∷ []

abbrev pub register_text : Text
register_text = 114 ∷ 101 ∷ 103 ∷ 105 ∷ 115 ∷ 116 ∷ 101 ∷ 114 ∷ []

abbrev pub unregister_text : Text
unregister_text = 117 ∷ 110 ∷ 114 ∷ 101 ∷ 103 ∷ 105 ∷ 115 ∷ 116 ∷ 101 ∷ 114 ∷ []

abbrev pub query_text : Text
query_text = 113 ∷ 117 ∷ 101 ∷ 114 ∷ 121 ∷ []

abbrev pub list_text : Text
list_text = 108 ∷ 105 ∷ 115 ∷ 116 ∷ []

abbrev pub upper_register : Text
upper_register = 82 ∷ 69 ∷ 71 ∷ 73 ∷ 83 ∷ 84 ∷ 69 ∷ 82 ∷ []

abbrev pub upper_unregister : Text
upper_unregister = 85 ∷ 78 ∷ 82 ∷ 69 ∷ 71 ∷ 73 ∷ 83 ∷ 84 ∷ 69 ∷ 82 ∷ []

abbrev pub upper_query : Text
upper_query = 81 ∷ 85 ∷ 69 ∷ 82 ∷ 89 ∷ []

abbrev pub ok_text : Text
ok_text = 79 ∷ 75 ∷ []

abbrev pub max_dgram_size : ℕ
max_dgram_size = 1500

-- A turn of the loop: an answer is sent, nothing is, or an exception leaves the loop. `outside` is a
-- request that is not modelled: LIST, one whose arguments are no tuple, whose port is no integer, or
-- which queries for what is no text.
pub data Turn : Type 0 where
  answers : Value → Server Text Address → Turn
  silent : Server Text Address → Turn
  stops outside : Turn

unfoldable pub texts : List Text → Items
texts [] = nil
texts (t ∷ ts) = cons (str t) (texts ts)

-- `', '.join(names)` needs texts.
unfoldable pub texts_of : Items → Option (List Text)
texts_of nil = some []
texts_of (cons (str t) rest) = elim (texts_of rest) [ none ↦ none | some ts ↦ some (t ∷ ts) ]
texts_of (cons v rest) = none

unfoldable pub chars : Text → List Text
chars [] = []
chars (c ∷ cs) = (c ∷ []) ∷ chars cs

-- The names of a registration: any iterable of texts, and a text is one.
unfoldable pub names_of : Value → Option (List Text)
unfolding texts_of chars
names_of (tuple vs) = texts_of vs
names_of (fset vs) = texts_of vs
names_of (str t) = some (chars t)
names_of (bytes []) = some []
names_of v = none

unfoldable pub addresses_value : List Address → Items
addresses_value [] = nil
addresses_value ((host, port) ∷ rest) =
    cons (tuple (cons (str host) (cons (int port) nil))) (addresses_value rest)

module _ (upper lower : Text → Text) (limit now : ℕ) where
  unfoldable pub answer_register : Text → Option (List Text) → Value → Server Text Address → Turn
  unfolding cmd_register
  answer_register host none port s = silent s
  answer_register host (some names) (int port) s =
      answers (str ok_text) (cmd_register upper now names (host, port) s)
  answer_register host (some names) port s = outside

  unfoldable pub answer_unregister : Outcome (Server Text Address) → Server Text Address → Turn
  answer_unregister (ok s') s = answers (str ok_text) s'
  answer_unregister (raise e) s = silent s
  answer_unregister out_of_fuel s = outside

  unfoldable pub answer_query :
      Outcome (List Address × Server Text Address) → Server Text Address → Turn
  unfolding addresses_value
  answer_query (ok (found, s')) s = answers (tuple (addresses_value found)) s'
  answer_query (raise e) s = silent s
  answer_query out_of_fuel s = outside

  -- The command, called with its arguments; a call with more or fewer raises TypeError, which is logged.
  unfoldable pub call_register : Text → Items → Server Text Address → Turn
  unfolding answer_register names_of
  call_register host (cons names (cons port nil)) s = answer_register host (names_of names) port s
  call_register host args s = silent s

  unfoldable pub call_unregister : Text → Items → Server Text Address → Turn
  unfolding answer_unregister cmd_unregister
  call_unregister host (cons (int port) nil) s = answer_unregister (cmd_unregister (host, port) s) s
  call_unregister host (cons port nil) s = outside
  call_unregister host args s = silent s

  unfoldable pub call_query : Items → Server Text Address → Turn
  unfolding answer_query cmd_query
  call_query (cons (str name) nil) s = answer_query (cmd_query upper now name s) s
  call_query (cons name nil) s = outside
  call_query args s = silent s

  unfoldable pub call_command : Text → Text → Items → Server Text Address → Turn
  unfolding call_register call_unregister call_query
  call_command host cmd args s =
      if list_matches cmd register_text
      then call_register host args s
      else if list_matches cmd unregister_text
      then call_unregister host args s
      else if list_matches cmd query_text
      then call_query args s
      else if list_matches cmd list_text
      then outside
      else silent s

  -- `cmd.lower()` stands outside of any `try`: of texts and bytes only it exists, and no command has
  -- the name that bytes give.
  unfoldable pub with_command : Text → Value → Value → Server Text Address → Turn
  unfolding call_command
  with_command host (str cmd) (tuple args) s = call_command host (lower cmd) args s
  with_command host (str cmd) args s = outside
  with_command host (bytes cmd) args s = silent s
  with_command host cmd args s = stops

  unfoldable pub with_parts : Text → Items → Server Text Address → Turn
  unfolding with_command
  with_parts host (cons (str magic) (cons cmd (cons args nil))) s =
      if list_matches magic magic_text then with_command host cmd args s else silent s
  with_parts host parts s = silent s

  -- What does not load, or is no triple with the magic, is passed over.
  unfoldable pub with_loaded : Text → Outcome Value → Server Text Address → Turn
  unfolding with_parts
  with_loaded host (ok (tuple parts)) s = with_parts host parts s
  with_loaded host (ok (fset parts)) s = with_parts host parts s
  with_loaded host r s = silent s

  -- `_recv` reads no more than `MAX_DGRAM_SIZE` bytes.
  unfoldable pub work : Text → Bytes → Server Text Address → Turn
  unfolding with_loaded load
  work host datagram s = with_loaded host (load limit (take max_dgram_size datagram)) s

-- What the clients send.
unfoldable pub register_request : List Text → ℤ → Value
unfolding texts
register_request aliases port = tuple (
    cons (str magic_text) (
      cons (str upper_register)
        (cons (tuple (cons (tuple (texts aliases)) (cons (int port) nil))) nil)))

unfoldable pub unregister_request : ℤ → Value
unregister_request port =
    tuple
      (cons (str magic_text) (cons (str upper_unregister) (cons (tuple (cons (int port) nil)) nil)))

unfoldable pub query_request : Text → Value
query_request name =
    tuple (cons (str magic_text) (cons (str upper_query) (cons (tuple (cons (str name) nil)) nil)))

-- `reply == "OK"`
unfoldable pub is_acknowledged : Outcome Value → Bool
is_acknowledged (ok (str t)) = list_matches t ok_text
is_acknowledged r = false
