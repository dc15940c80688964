-- ===== src/Network/Framing/Stream.antt =====
-- Streams of serialized envelopes, cut by chainbreaker/network/socket/framing.py.
use mathlib.Core.Path.{subst}
use chain_breaker.Base.{
  ℕ, zero, suc, ◌+◌, ◌≤◌, ◌<◌, ◌≡◌, ap, ◌∙◌, false, none, some, List, [], ◌∷◌, ◌++◌, append_assoc,
  Bytes, length, length-append, take, ok, arith, ltb,
}
use chain_breaker.Network.Envelope.{NetworkEnvelope, serialize_envelope}
use chain_breaker.Network.Envelope.Laws.{IsWire, length-IsWire, serialize_envelope-IsWire}
use chain_breaker.Network.Framing.{SocketLimits, try_parse_one, cons_result, consume_loop, consume}
use chain_breaker.Network.Framing.Rounds.{IsAccepted, whole_round, part_round}

module _ (sha256 : Bytes → Bytes) (digest : (b : Bytes) → length (sha256 b) ≡ 32)
    (limits : SocketLimits) where
  -- The bytes are the envelopes' messages, one behind the other.
  abbrev pub IsStream : List NetworkEnvelope → Bytes → Type 0
  IsStream [] stream = stream ≡ []
  IsStream (e ∷ es) stream =
      (raw : Bytes) × (rest : Bytes) × (stream ≡ raw ++ rest)
      × (serialize_envelope sha256 e ≡ ok raw)
      × IsAccepted sha256 digest limits e
      × IsStream es rest

  sent-IsWire :
      (e : NetworkEnvelope) (raw : Bytes)
      → serialize_envelope sha256 e ≡ ok raw
      → IsAccepted sha256 digest limits e
      → IsWire sha256 digest e raw
  sent-IsWire e raw sent accepted =
      let (found, same, wire) = serialize_envelope-IsWire sha256 digest e accepted.0 in
      let equal : found ≡ raw = cc (sent, same) in subst (IsWire sha256 digest e) equal wire

  -- Each message has a byte at least.
  length-IsStream :
      (es : List NetworkEnvelope) (stream : Bytes) → IsStream es stream → length es ≤ length stream
  length-IsStream [] stream s = omega arith
  length-IsStream (e ∷ es) stream (raw, rest, whole, sent, accepted, more) = omega (
    arith,
    ap length whole,
    length-append raw rest,
    length-IsStream es rest more,
    length-IsWire sha256 digest e raw (sent-IsWire e raw sent accepted),
  )

  loop_waits :
      (fuel : ℕ) (part : Bytes)
      → try_parse_one sha256 limits part ≡ (part, ok none)
      → consume_loop sha256 limits (suc fuel) part ≡ (part, ok [])
  unfolding consume_loop
  loop_waits fuel part waits =
      let same : ltb (length part) (length part) ≡ false = ground arith in
      rw (waits, consume_loop) (rw waits (rw same (ap (λ r. (r.0, ok [])) waits)))

  loop_cuts :
      (fuel : ℕ) (buf rest left : Bytes) (e : NetworkEnvelope) (es : List NetworkEnvelope)
      → try_parse_one sha256 limits buf ≡ (rest, ok (some e))
      → consume_loop sha256 limits fuel rest ≡ (left, ok es)
      → consume_loop sha256 limits (suc fuel) buf ≡ (left, ok (e ∷ es))
  unfolding consume_loop cons_result
  loop_cuts fuel buf rest left e es cut more =
      rw (cut, consume_loop) (rw cut (ap (cons_result e) more))

  loop_stream :
      (es : List NetworkEnvelope) (stream part : Bytes) (fuel : ℕ)
      → IsStream es stream
      → try_parse_one sha256 limits part ≡ (part, ok none)
      → length es < fuel
      → consume_loop sha256 limits fuel (stream ++ part) ≡ (part, ok es)
  loop_stream es stream part zero s waits few = absurd (omega arith)
  loop_stream [] stream part (suc fuel) s waits few =
      ap (λ head. consume_loop sha256 limits (suc fuel) (head ++ part)) s
      ∙ loop_waits fuel part waits
  loop_stream (e ∷ es) stream part (suc fuel) (raw, rest, whole, sent, accepted, more) waits few =
      let cut =
        whole_round sha256 digest limits e raw (rest ++ part) (sent-IsWire e raw sent accepted)
          accepted in
      let shape : stream ++ part ≡ raw ++ (rest ++ part) =
        ap (λ head. head ++ part) whole ∙ append_assoc raw rest part in
      ap (consume_loop sha256 limits (suc fuel)) shape
      ∙ loop_cuts fuel _ (rest ++ part) part e es cut
          (loop_stream es rest part fuel more waits (omega arith))

  -- The buffer and the new bytes are together the messages of accepted envelopes and a strict prefix
  -- of one message more, and not above the limit of the buffer. Then `consume` yields the envelopes,
  -- each once and in order, and leaves the prefix in the buffer.
  pub consume-stream :
      (es : List NetworkEnvelope) (stream : Bytes) (last : NetworkEnvelope) (raw : Bytes) (k : ℕ)
      (buffer : Bytes) (b : ℕ) (bs : Bytes)
      → IsStream es stream
      → serialize_envelope sha256 last ≡ ok raw
      → IsAccepted sha256 digest limits last
      → k < length raw
      → buffer ++ (b ∷ bs) ≡ stream ++ take k raw
      → length buffer + length (b ∷ bs) ≤ limits.max_frame_buffer_bytes
      → consume sha256 limits buffer (b ∷ bs) ≡ (take k raw, ok es)
  unfolding consume
  consume-stream es stream last raw k buffer b bs s sent accepted short whole room =
      let fits : ltb limits.max_frame_buffer_bytes (length buffer + length (b ∷ bs)) ≡ false =
        ground (arith, room) in
      let held = ap length whole ∙ length-append stream (take k raw) in
      let few : length es < suc (length (buffer ++ (b ∷ bs))) =
        omega (arith, held, length-IsStream es stream s) in
      let waits =
        part_round sha256 digest limits last raw k (sent-IsWire last raw sent accepted) accepted
          short in
      rw fits (
        ap (consume_loop sha256 limits (suc (length (buffer ++ (b ∷ bs))))) whole
        ∙ loop_stream es stream (take k raw) (suc (length (buffer ++ (b ∷ bs)))) s waits few)
