-- ===== src/Witnesses/Registry.antt =====
-- A server that registers, keeps alive, goes stale and leaves.
use rpyc_async.Prelude.{
  take, arith, ℕ, ◌+◌, ◌≡◌, refl, List, [], ◌∷◌, none, true, ℕ_eq, list_eq, pair_eq, ℤ_eq,
  list_matches, pos, if◌then◌else◌,
}
use rpyc_async.Outcome.{ok, raise, out_of_fuel}
use rpyc_async.Codec.Words.{Bytes}
use rpyc_async.Brine.Syntax.{Value, none_value, str, tuple, nil, cons}
use rpyc_async.Brine.Dump.{dump, tuple_header, dump_str, dump_int}
use rpyc_async.Brine.Load.{load}
use rpyc_async.Registry.Wire.{
  max_dgram_size, Text, Address, magic_text, register_text, query_text, upper_register, upper_query,
  ok_text, answers, stops, work, register_request, query_request, is_acknowledged,
}
use rpyc_async.Registry.Exchange
use rpyc_async.Registry.Server.{Server, new_server, cmd_register}
use rpyc_async.Registry.Spec.{
  Command, register, unregister, query, Reply, done, addresses, run, AllAnswer, Tracks, after_all,
}
use rpyc_async.Registry.Refinement

abbrev plus_ten : ℕ → ℕ
plus_ten n = n + 10

abbrev commands : List (ℕ × Command ℕ ℕ)
commands =
    (1, register (1 ∷ 2 ∷ []) 7)
    ∷ (4, register (1 ∷ []) 8)
    ∷ (5, query 1)
    ∷ (8, query 1)
    ∷ (9, unregister 8)
    ∷ (9, query 1)
    ∷ []

six_replies :
    run plus_ten commands (new_server 5 true)
    ≡ ok (
      done ∷ done ∷ addresses (7 ∷ 8 ∷ []) ∷ addresses (8 ∷ []) ∷ done ∷ addresses [] ∷ [],
      record {
        services = (12, (7, 1) ∷ []) ∷ [];
        pruning_timeout = 5;
        allow_listing = true;
        added = (11, 7) ∷ (12, 7) ∷ (11, 8) ∷ [];
        removed = (11, 7) ∷ (11, 8) ∷ (12, 8) ∷ [];
      },
    )
unfolding run
six_replies = refl

run-new_server_example :
    (replies : List (Reply ℕ)) × (s : Server ℕ ℕ) × (run plus_ten commands (new_server 5 true)
      ≡ ok (replies, s))
    × AllAnswer plus_ten 5 commands (λ n a. none) replies
    × Tracks 5 s (after_all plus_ten 5 commands (λ n a. none))
run-new_server_example = Refinement.run-new_server plus_ten 5 true commands

-- Names stay as they are, but for the commands.
abbrev lowered : Text → Text
lowered t =
    if list_matches t upper_register
    then register_text
    else if list_matches t upper_query
    then query_text
    else t

abbrev datagram : Value → Bytes
unfolding dump register_request query_request
datagram v = elim (dump 4300 v) [ ok out ↦ out | raise e ↦ [] | out_of_fuel ↦ [] ]

register-acknowledged_example :
    (work
        (λ t. t)
        lowered
        4300
        7
        (49 ∷ [])
        (datagram (register_request ((65 ∷ []) ∷ []) (pos 300)))
        (new_server 5 true)
      ≡ answers
          (str ok_text)
          (cmd_register (λ t. t) 7 ((65 ∷ []) ∷ []) (49 ∷ [], pos 300) (new_server 5 true)))
    × (is_acknowledged (load 4300 (take max_dgram_size (datagram (str ok_text)))) ≡ true)
unfolding dump register_request tuple_header dump_str dump_int datagram
register-acknowledged_example =
    Exchange.register-acknowledged (λ t. t) lowered 4300 7 (49 ∷ []) ((65 ∷ []) ∷ []) (pos 300)
      (new_server 5 true) (datagram (register_request ((65 ∷ []) ∷ []) (pos 300)))
      (datagram (str ok_text)) refl refl refl (omega arith) (omega arith)

abbrev one_server : Server Text Address
one_server = record {
  services = (65 ∷ [], ((49 ∷ [], pos 300), 7) ∷ []) ∷ [];
  pruning_timeout = 5;
  allow_listing = true;
  added = [];
  removed = [];
}

-- A command that is no text ends the loop.
no_command :
    work
      (λ t. t)
      lowered
      4300
      7
      (49 ∷ [])
      (datagram (tuple (cons (str magic_text) (cons none_value (cons (tuple nil) nil)))))
      (new_server 5 true)
    ≡ stops
unfolding work dump datagram tuple_header dump_str
no_command = refl
