-- ===== src/Network/Framing/Rounds.antt =====
-- The rounds on a buffer that begins with a message, whole or in part: chainbreaker/network/socket/framing.py.
use mathlib.Core.Path.{subst}
use chain_breaker.Base.{
  ℕ, ◌+◌, ◌-◌, ◌≤◌, ◌<◌, ◌≡◌, refl, sym, ap, ◌∙◌, true, false, inl, inr, none, some, [], ◌∷◌, ◌++◌,
  append_assoc, Bytes, bytes_eq, get_elem?, length, length-append, length-take, take, drop,
  take_append, drop_append, take-append_long, ok, arith, ltb, Bool-cases, if◌then◌else◌,
}
use chain_breaker.Codec.{byte_at}
use chain_breaker.Codec.Reading.{slice_at}
use chain_breaker.Network.Envelope.{NetworkEnvelope, cbn1_magic, parse_envelope}
use chain_breaker.Network.Envelope.Laws.{
  IsSendable, preamble, IsWire, length-IsWire, parse_envelope-IsWire,
}
use chain_breaker.Network.Framing.{
  SocketLimits, Round, wrap, take_frame, after_magic, try_parse_one,
}

module _ (sha256 : Bytes → Bytes) (digest : (b : Bytes) → length (sha256 b) ≡ 32)
    (limits : SocketLimits) where
  -- The envelope can be sent, and its message is within the limit of the socket.
  abbrev pub IsAccepted : NetworkEnvelope → Type 0
  IsAccepted e = IsSendable e × (70 + length e.payload ≤ limits.max_message_size)

  -- What becomes of a buffer that begins with the header of a message, by its payload's size.
  abbrev pub outcome : Bytes → ℕ → Round
  outcome buf n =
      if ltb (length buf) (70 + n)
      then (buf, ok none)
      else (drop (70 + n) buf, wrap (parse_envelope sha256 (take (70 + n) buf)))

  -- A buffer that begins with all of a message's bytes in front of its payload.
  begun :
      (e : NetworkEnvelope) (raw tail : Bytes) (w : IsWire sha256 digest e raw)
      → IsAccepted e
      → let buf = preamble e.message_type e.flags ++ (w.size ++ (sha256 e.payload ++ tail)) in
        try_parse_one sha256 limits buf ≡ outcome buf (length e.payload)
  unfolding try_parse_one after_magic take_frame byte_at bytes_eq
  begun e raw tail w (sendable, within) =
      let digested = sha256 e.payload ++ tail in
      let buf = preamble e.message_type e.flags ++ (w.size ++ digested) in
      let n = length e.payload in
      let total : length buf ≡ 70 + length tail = omega (
        arith,
        length-append w.size digested,
        length-append (sha256 e.payload) tail,
        w.size_length,
        digest e.payload,
      ) in
      let four : ltb (length buf) 4 ≡ false = ground (arith, total) in
      let seven : ltb (length buf) 7 ≡ false = ground (arith, total) in
      let header : ltb (length buf) 70 ≡ false = ground (arith, total) in
      let small : ltb limits.max_message_size n ≡ false = ground (arith, within) in
      let fits : ltb limits.max_message_size (70 + n) ≡ false = ground (arith, within) in
      rw
        (
          four,
          seven,
          header,
          slice_at buf 34 4 w.size digested refl w.size_length,
          w.size_value,
          small,
          fits,
        )
        refl

  -- A whole message at the front of the buffer is cut.
  pub whole_round :
      (e : NetworkEnvelope) (raw rest : Bytes)
      → IsWire sha256 digest e raw
      → IsAccepted e
      → try_parse_one sha256 limits (raw ++ rest) ≡ (rest, ok (some e))
  whole_round e raw rest w accepted =
      let n = length e.payload in
      let size = length-IsWire sha256 digest e raw w in
      let total = length-append raw rest in
      let enough : ltb (length (raw ++ rest)) (70 + n) ≡ false = ground (arith, size, total) in
      let shape : raw ++ rest
          ≡ preamble e.message_type e.flags
            ++ (w.size ++ (sha256 e.payload ++ (e.payload ++ rest))) =
        rw w.whole (simp append_assoc refl) in
      let left = subst (λ m. drop m (raw ++ rest) ≡ rest) size (drop_append raw rest) in
      let frame = subst (λ m. take m (raw ++ rest) ≡ raw) size (take_append raw rest) in
      let parsed = parse_envelope-IsWire sha256 digest e raw accepted.0 w in
      subst (λ buf. try_parse_one sha256 limits buf ≡ outcome buf n) (sym shape)
        (begun e raw (e.payload ++ rest) w accepted)
      ∙ rw (enough, left, frame, parsed) refl

  begins :
      (raw : Bytes) (k m : ℕ) (front tail : Bytes)
      → m ≤ k
      → length front ≡ m
      → raw ≡ front ++ tail
      → take k raw ≡ front ++ take (k - m) tail
  begins raw k m front tail low size whole =
      let sum : m + (k - m) ≡ k = omega (arith, low) in
      ap (λ x. take x raw) (sym sum)
      ∙ ap (take (m + (k - m))) whole
      ∙ take-append_long front tail m (k - m) size

  waits_in_magic :
      (buf tail : Bytes)
      → 4 ≤ length buf
      → length buf < 7
      → buf ≡ cbn1_magic ++ tail
      → try_parse_one sha256 limits buf ≡ (buf, ok none)
  unfolding try_parse_one bytes_eq
  waits_in_magic buf tail low high whole =
      let four : ltb (length buf) 4 ≡ false = ground (arith, low) in
      let seven : ltb (length buf) 7 ≡ true = ground (arith, high) in
      let magic : take 4 buf ≡ cbn1_magic = ap (take 4) whole in
      rw (four, magic, seven, try_parse_one) refl

  waits_in_header :
      (buf tail : Bytes)
      → 7 ≤ length buf
      → length buf < 70
      → buf ≡ cbn1_magic ++ (0 ∷ 1 ∷ 25 ∷ tail)
      → try_parse_one sha256 limits buf ≡ (buf, ok none)
  unfolding try_parse_one bytes_eq after_magic byte_at
  waits_in_header buf tail low high whole =
      let four : ltb (length buf) 4 ≡ false = ground (arith, low) in
      let seven : ltb (length buf) 7 ≡ false = ground (arith, low) in
      let header : ltb (length buf) 70 ≡ true = ground (arith, high) in
      let magic : take 4 buf ≡ cbn1_magic = ap (take 4) whole in
      let size : get_elem? buf 6 ≡ some 25 = ap (λ b. get_elem? b 6) whole in
      rw (four, magic, seven, size, header, try_parse_one) refl

  waits_in_payload :
      (e : NetworkEnvelope) (raw : Bytes) (k : ℕ)
      → IsWire sha256 digest e raw
      → IsAccepted e
      → 70 ≤ k
      → k < length raw
      → try_parse_one sha256 limits (take k raw) ≡ (take k raw, ok none)
  waits_in_payload e raw k w accepted low short =
      let n = length e.payload in
      let held : length (take k raw) ≡ k = length-take k raw (omega (arith, short)) in
      let size = length-IsWire sha256 digest e raw w in
      let missing : ltb (length (take k raw)) (70 + n) ≡ true = ground (arith, held, size, short) in
      let front = preamble e.message_type e.flags ++ (w.size ++ sha256 e.payload) in
      let reach : length front ≡ 70 =
        omega (arith, length-append w.size (sha256 e.payload), w.size_length, digest e.payload) in
      let whole : raw ≡ front ++ e.payload = rw w.whole (simp append_assoc refl) in
      let shape : take k raw
          ≡ preamble e.message_type e.flags
            ++ (w.size ++ (sha256 e.payload ++ take (k - 70) e.payload)) =
        begins raw k 70 front e.payload low reach whole ∙ simp append_assoc refl in
      subst (λ buf. try_parse_one sha256 limits buf ≡ outcome buf n) (sym shape)
        (begun e raw (take (k - 70) e.payload) w accepted)
      ∙ rw missing refl

  -- A strict prefix of a message is left in the buffer.
  pub part_round :
      (e : NetworkEnvelope) (raw : Bytes) (k : ℕ)
      → IsWire sha256 digest e raw
      → IsAccepted e
      → k < length raw
      → try_parse_one sha256 limits (take k raw) ≡ (take k raw, ok none)
  unfolding try_parse_one after_magic byte_at bytes_eq
  part_round e raw k w accepted short =
      let n = length e.payload in
      let buf = take k raw in
      let size = length-IsWire sha256 digest e raw w in
      let held : length buf ≡ k = length-take k raw (omega (arith, short)) in
      elim (Bool-cases (ltb k 4)) [
        | inl a ↦
            let four : ltb (length buf) 4 ≡ true = ground (arith, held, a) in
            rw (four, try_parse_one) refl
        | inr a ↦ elim (Bool-cases (ltb k 7)) [
          | inl b ↦
              waits_in_magic buf _ (ground (arith, held, a)) (ground (arith, held, b))
                (begins raw k 4 cbn1_magic _ (ground (arith, a)) refl w.whole)
          | inr b ↦ elim (Bool-cases (ltb k 70)) [
            | inl c ↦ waits_in_header buf _ (ground (arith, held, b)) (ground (arith, held, c)) (
                begins raw k 7 (cbn1_magic ++ (0 ∷ 1 ∷ 25 ∷ [])) _ (ground (arith, b)) refl w.whole)
            | inr c ↦ waits_in_payload e raw k w accepted (ground (arith, c)) short
          ]
        ]
      ]
