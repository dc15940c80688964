-- ===== src/Network/Framing/Examples.antt =====
-- Two messages and the first bytes of a third.
use chain_breaker.Base.{
  ℕ, ◌≡◌, refl, List, [], ◌∷◌, ◌++◌, Bytes, length, replicate, length-replicate, take, drop, ok,
  arith,
}
use chain_breaker.Stdlib.{pack_be, to_le}
use chain_breaker.Network.Envelope.{NetworkEnvelope, serialize_envelope, parse_envelope}
use chain_breaker.Network.Envelope.Laws.{preamble, parse_envelope-serialize_envelope}
use chain_breaker.Network.Framing.{SocketLimits, consume_loop, consume}
use chain_breaker.Network.Framing.Termination.{IsWaiting, consume_loop-ends}
use chain_breaker.Network.Framing.Stream.{consume-stream}
use chain_breaker.Network.Framing.Rounds.{IsAccepted}

abbrev toy : Bytes → Bytes
toy raw = replicate 32 9

toy-digest : (b : Bytes) → length (toy b) ≡ 32
toy-digest b = length-replicate {A = ℕ} 32 9

abbrev ping : NetworkEnvelope
ping = record { message_type = 3; flags = 0; payload = 7 ∷ 8 ∷ [] }

abbrev limits : SocketLimits
limits = record { max_frame_buffer_bytes = 1000; max_message_size = 500 }

parse_envelope-serialize_envelope_example :
    (raw : Bytes) × (serialize_envelope toy ping ≡ ok raw) × (parse_envelope toy raw ≡ ok ping)
parse_envelope-serialize_envelope_example =
    parse_envelope-serialize_envelope toy toy-digest ping
      (record { kind = refl; reserved = refl; flags = omega arith; size = omega arith })

abbrev raw_ping : Bytes
raw_ping = preamble 3 0 ++ ((0 ∷ 0 ∷ 0 ∷ 2 ∷ []) ++ (replicate 32 9 ++ (7 ∷ 8 ∷ [])))

sent_ping : serialize_envelope toy ping ≡ ok raw_ping
unfolding serialize_envelope pack_be to_le
sent_ping = refl

ping-IsAccepted : IsAccepted toy toy-digest limits ping
ping-IsAccepted =
    (record { kind = refl; reserved = refl; flags = omega arith; size = omega arith }, omega arith)

consume_loop-ends_example :
    (consume_loop toy limits 20 (1 ∷ 2 ∷ 67 ∷ []) ≡ consume_loop toy limits 4 (1 ∷ 2 ∷ 67 ∷ []))
    × ((rest : Bytes) (es : List NetworkEnvelope)
        → consume_loop toy limits 20 (1 ∷ 2 ∷ 67 ∷ []) ≡ (rest, ok es)
        → IsWaiting toy limits rest)
consume_loop-ends_example = consume_loop-ends toy limits 20 (1 ∷ 2 ∷ 67 ∷ []) (omega arith)

-- The first ten bytes came before.
consume-stream_example :
    consume toy limits (take 10 raw_ping) (105 ∷ drop 11 (raw_ping ++ take 5 raw_ping))
    ≡ (take 5 raw_ping, ok (ping ∷ []))
consume-stream_example =
    consume-stream toy toy-digest limits (ping ∷ []) (raw_ping ++ []) ping raw_ping 5
      (take 10 raw_ping) 105 (drop 11 (raw_ping ++ take 5 raw_ping))
      (raw_ping, [], refl, sent_ping, ping-IsAccepted, refl) sent_ping ping-IsAccepted (omega arith)
      refl (omega arith)
