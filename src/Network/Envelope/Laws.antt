-- ===== src/Network/Envelope/Laws.antt =====
-- The wire form of an envelope, and what chainbreaker/network/envelope.py parses it to.
use chain_breaker.Base.{
  ℕ, ◌+◌, ◌%◌, ◌≤◌, ◌<◌, ◌≡◌, refl, sym, ap, ◌∙◌, true, false, [], ◌∷◌, ◌++◌, Bytes, bytes_eq,
  bytes_eq_self, length, length-append, append-nil, ok, arith, ltb, ◌==◌,
}
use chain_breaker.Stdlib.{to_le, from_le, pack_be, from_be}
use chain_breaker.Stdlib.Integers.{pack_be_fits}
use chain_breaker.Codec.{byte_at}
use chain_breaker.Codec.Reading.{slice_at, move}
use chain_breaker.Network.Envelope.{
  NetworkEnvelope, cbn1_magic, network_id_bytes, max_payload_bytes, max_message_size, is_known,
  has_reserved, serialize_envelope, parse_envelope,
}

-- The type is known, no reserved flag is set, and the payload is within the limit.
pub record IsSendable (e : NetworkEnvelope) : Type 0 where
  pub kind : is_known e.message_type ≡ true
  pub reserved : has_reserved e.flags ≡ false
  pub flags : e.flags < 256
  pub size : length e.payload ≤ max_payload_bytes

pack_be_byte : (n : ℕ) → n < 256 → pack_be 1 n ≡ ok (n ∷ [])
unfolding pack_be to_le
pack_be_byte n h = let same : n % 256 ≡ n = omega arith in ground (arith, same)

version_bytes : pack_be 2 1 ≡ ok (0 ∷ 1 ∷ [])
unfolding pack_be to_le
version_bytes = refl

id_size_byte : pack_be 1 25 ≡ ok (25 ∷ [])
unfolding pack_be to_le
id_size_byte = refl

version_value : (from_be (0 ∷ 1 ∷ []) == 1) ≡ true
unfolding from_be from_le
version_value = refl

-- The bytes in front of the payload's size.
abbrev pub preamble : ℕ → ℕ → Bytes
preamble kind flags = cbn1_magic ++ (0 ∷ 1 ∷ 25 ∷ (network_id_bytes ++ (kind ∷ flags ∷ [])))

module _ (sha256 : Bytes → Bytes) (digest : (b : Bytes) → length (sha256 b) ≡ 32) where
  -- The wire form of an envelope, with the bytes of its payload's size.
  pub record IsWire (e : NetworkEnvelope) (raw : Bytes) : Type 0 where
    pub size : Bytes
    pub size_length : length size ≡ 4
    pub size_value : from_be size ≡ length e.payload
    pub whole : raw ≡ preamble e.message_type e.flags ++ (size ++ (sha256 e.payload ++ e.payload))

  pub serialize_envelope-IsWire :
      (e : NetworkEnvelope)
      → IsSendable e
      → (raw : Bytes) × (serialize_envelope sha256 e ≡ ok raw) × IsWire e raw
  unfolding serialize_envelope
  serialize_envelope-IsWire e w =
      let (size, packed, size_length, size_value) =
        pack_be_fits 4 (length e.payload) (omega (arith, w.size)) in
      let fits : ltb max_payload_bytes (length e.payload) ≡ false = ground (arith, w.size) in
      let kind : e.message_type < 256 = ground (arith, w.kind) in
      (
        preamble e.message_type e.flags ++ (size ++ (sha256 e.payload ++ e.payload)),
        rw
            (
              w.kind,
              w.reserved,
              fits,
              version_bytes,
              id_size_byte,
              pack_be_byte e.message_type kind,
              pack_be_byte e.flags w.flags,
              packed,
            )
            refl,
        record { size = size; size_length = size_length; size_value = size_value; whole = refl },
      )

  pub length-IsWire :
      (e : NetworkEnvelope) (raw : Bytes) → IsWire e raw → length raw ≡ 70 + length e.payload
  length-IsWire e raw w =
      ap length w.whole
      ∙ omega (
        arith,
        length-append w.size (sha256 e.payload ++ e.payload),
        length-append (sha256 e.payload) e.payload,
        w.size_length,
        digest e.payload,
      )

  parse_parts :
      (e : NetworkEnvelope) (size : Bytes)
      → IsSendable e
      → length size ≡ 4
      → from_be size ≡ length e.payload
      → parse_envelope sha256
          (preamble e.message_type e.flags ++ (size ++ (sha256 e.payload ++ e.payload)))
        ≡ ok e
  unfolding parse_envelope byte_at bytes_eq
  parse_parts e size w four value =
      let raw = preamble e.message_type e.flags ++ (size ++ (sha256 e.payload ++ e.payload)) in
      let n = length e.payload in
      let total : length raw ≡ 70 + n =
        length-IsWire e raw
          (record { size = size; size_length = four; size_value = value; whole = refl }) in
      let short : ltb (length raw) 70 ≡ false = ground (arith, total) in
      let long : ltb max_message_size (length raw) ≡ false = ground (arith, total, w.size) in
      let fits : ltb max_payload_bytes n ≡ false = ground (arith, w.size) in
      let exact : (length raw == 70 + n) ≡ true = ground (arith, total) in
      let digested = sha256 e.payload ++ e.payload in
      let behind = move raw 34 38 4 size digested refl four refl in
      let last = move raw 38 70 32 (sha256 e.payload) e.payload behind (digest e.payload) refl in
      rw
        (
          short,
          long,
          version_value,
          w.kind,
          w.reserved,
          slice_at raw 34 4 size digested refl four,
          value,
          fits,
          exact,
          slice_at raw 38 32 (sha256 e.payload) e.payload behind (digest e.payload),
          slice_at raw 70 n e.payload [] (last ∙ sym (append-nil e.payload)) refl,
          bytes_eq_self (sha256 e.payload),
        )
        refl

  pub parse_envelope-IsWire :
      (e : NetworkEnvelope) (raw : Bytes)
      → IsSendable e
      → IsWire e raw
      → parse_envelope sha256 raw ≡ ok e
  parse_envelope-IsWire e raw w wire =
      ap (parse_envelope sha256) wire.whole
      ∙ parse_parts e wire.size w wire.size_length wire.size_value

  -- An envelope of a known type, with flags of one byte, none of them reserved, and a payload within
  -- the limit, is serialized, and its bytes are parsed to the very envelope.
  pub parse_envelope-serialize_envelope :
      (e : NetworkEnvelope)
      → IsSendable e
      → (raw : Bytes) × (serialize_envelope sha256 e ≡ ok raw) × (parse_envelope sha256 raw ≡ ok e)
  parse_envelope-serialize_envelope e w =
      let (raw, sent, wire) = serialize_envelope-IsWire e w in
      (raw, sent, parse_envelope-IsWire e raw w wire)
