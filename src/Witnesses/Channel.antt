-- ===== src/Witnesses/Channel.antt =====
-- Packets over a stream, with a zlib that only marks what it compresses.
use rpyc_async.Prelude.{◌≡◌, refl, List, [], ◌∷◌, true}
use rpyc_async.Outcome.{Outcome, ok, raise, value_error, Settles, returns, raises}
use rpyc_async.Codec.Words.{Bytes}
use rpyc_async.Channel.Packets.{send, wire}
use rpyc_async.Channel.Frames.{feed, extract_frames, frames}
use rpyc_async.Channel.Frames.Delivery
use rpyc_async.Channel.Frames.Delivery.{send_all}

abbrev mark : Bytes → Bytes
mark x = 255 ∷ x

abbrev unmark : Bytes → Outcome Bytes
unmark [] = raise value_error
unmark (b ∷ x) = ok x

unmark-Settles : (x : Bytes) → Settles (unmark x)
unmark-Settles [] = raises
unmark-Settles (b ∷ x) = returns tt

abbrev hi : Bytes
hi = 104 ∷ 105 ∷ []

abbrev hi_packet : Bytes
hi_packet = 0 ∷ 0 ∷ 0 ∷ 2 ∷ 0 ∷ 104 ∷ 105 ∷ 10 ∷ []

send-hi : send mark unmark true hi ≡ ok (hi_packet ∷ [])
unfolding send
send-hi = refl

abbrev cut : List Bytes
cut =
    (0 ∷ 0 ∷ 0 ∷ 2 ∷ [])
    ∷ []
    ∷ (0 ∷ 104 ∷ 105 ∷ 10 ∷ 0 ∷ [])
    ∷ (0 ∷ 0 ∷ 2 ∷ 0 ∷ 104 ∷ 105 ∷ 10 ∷ [])
    ∷ []

sent_twice : send_all mark unmark true (hi ∷ hi ∷ []) ≡ ok (wire cut)
unfolding send_all send
sent_twice = refl

fed_in_pieces : feed mark unmark [] cut ≡ ok (hi ∷ hi ∷ [], [])
unfolding feed extract_frames frames
fed_in_pieces = refl

feed-send_all_example : feed mark unmark [] cut ≡ ok (hi ∷ hi ∷ [], [])
feed-send_all_example =
    Delivery.feed-send_all mark unmark (λ x. refl) unmark-Settles true (hi ∷ hi ∷ []) cut sent_twice
