-- ===== src/Network/Framing.antt =====
-- chainbreaker/network/socket/framing.py: `EnvelopeFraming`, which cuts a stream of bytes into
-- envelopes. The state is the buffer; an exception leaves the buffer as it then is.
pub mod Termination
pub mod Rounds
pub mod Stream
mod Examples
use chain_breaker.Base.{
  ℕ, zero, suc, ◌+◌, ◌-◌, ◌*◌, Bool, true, false, not, ◌||◌, Option, none, some, List, [], ◌∷◌,
  ◌++◌, Bytes, bytes_eq, length, take, drop, Result, ok, raise, ◌>>=◌, Exn, transport_limit_error,
  index_error, ltb, leb, ◌==◌, if◌then◌else◌,
}
use chain_breaker.Stdlib.{from_be, slice}
use chain_breaker.Codec.{byte_at}
use chain_breaker.Network.Envelope.{NetworkEnvelope, cbn1_magic, parse_envelope}

-- the two fields of `SocketLimits` that the framing reads
pub record SocketLimits : Type 0 where
  pub max_frame_buffer_bytes : ℕ
  pub max_message_size : ℕ

abbrev pub one_later : Option ℕ → Option ℕ
one_later none = none
one_later (some i) = some (suc i)

-- `buf.find(CBN1_MAGIC)`
unfoldable pub find_magic : Bytes → Option ℕ
find_magic [] = none
find_magic (b ∷ bs) =
    let later = one_later (find_magic bs) in
    if bytes_eq (take 4 (b ∷ bs)) cbn1_magic then some 0 else later

-- the buffer behind a failed search: its last three bytes, or the bytes from the magic on
unfoldable pub resynchronised : Bytes → Option ℕ → Bytes
resynchronised buf none = drop (length buf - 3) buf
resynchronised buf (some i) = drop i buf

-- the declared length of the payload
abbrev pub declared : Bytes → ℕ → ℕ
declared buf id_size = from_be (slice buf (9 + id_size) 4)

-- a round of the loop: the buffer, and an envelope, nothing, or an exception
abbrev pub Round : Type 0
Round = Bytes × Result (Option NetworkEnvelope)

abbrev pub wrap : Result NetworkEnvelope → Result (Option NetworkEnvelope)
wrap (ok e) = ok (some e)
wrap (raise x) = raise x

-- the envelopes of the rounds before are lost with an exception
unfoldable pub cons_result :
    NetworkEnvelope → Bytes × Result (List NetworkEnvelope) → Bytes × Result (List NetworkEnvelope)
cons_result e (buf, ok es) = (buf, ok (e ∷ es))
cons_result e (buf, raise x) = (buf, raise x)

module _ (sha256 : Bytes → Bytes) (limits : SocketLimits) where
  -- `_try_parse_one` with the payload's length known
  unfoldable pub take_frame : Bytes → ℕ → ℕ → Round
  take_frame buf id_size size =
      if ltb limits.max_message_size size
      then (buf, raise transport_limit_error)
      else if ltb limits.max_message_size (45 + id_size + size)
      then (buf, raise transport_limit_error)
      else if ltb (length buf) (45 + id_size + size)
      then (buf, ok none)
      else (
        drop (45 + id_size + size) buf,
        wrap (parse_envelope sha256 (take (45 + id_size + size) buf)),
      )

  -- `_try_parse_one` behind the magic, with the length of the network's name
  unfoldable pub after_magic : Bytes → ℕ → Round
  after_magic buf id_size =
      if id_size == 0 || ltb 64 id_size
      then (drop 1 buf, ok none)
      else if ltb (length buf) (45 + id_size)
      then (buf, ok none)
      else take_frame buf id_size (declared buf id_size)

  -- `EnvelopeFraming._try_parse_one`
  unfoldable pub try_parse_one : Bytes → Round
  try_parse_one buf =
      if ltb (length buf) 4
      then (buf, ok none)
      else if not (bytes_eq (take 4 buf) cbn1_magic)
      then (resynchronised buf (find_magic buf), ok none)
      else if ltb (length buf) 7
      then (buf, ok none)
      else elim (byte_at buf 6) [ raise x ↦ (buf, raise x) | ok id_size ↦ after_magic buf id_size ]

  -- The loop of `consume`. Each round but the last shrinks the buffer.
  unfoldable pub consume_loop : ℕ → Bytes → Bytes × Result (List NetworkEnvelope)
  consume_loop zero buf = (buf, ok [])
  consume_loop (suc fuel) buf =
      let (rest, outcome) = try_parse_one buf in
      elim outcome [
        | raise x ↦ (rest, raise x)
        | ok (some e) ↦ cons_result e (consume_loop fuel rest)
        | ok none ↦ elim (ltb (length rest) (length buf)) [
          | true ↦ consume_loop fuel rest
          | false ↦ (rest, ok [])
        ]
      ]

  -- `EnvelopeFraming.consume`: the buffer and the new bytes; one round more than there are bytes is
  -- fuel enough.
  unfoldable pub consume : Bytes → Bytes → Bytes × Result (List NetworkEnvelope)
  consume buffer [] = (buffer, ok [])
  consume buffer (b ∷ bs) =
      if ltb limits.max_frame_buffer_bytes (length buffer + length (b ∷ bs))
      then (buffer, raise transport_limit_error)
      else consume_loop (suc (length (buffer ++ (b ∷ bs)))) (buffer ++ (b ∷ bs))
