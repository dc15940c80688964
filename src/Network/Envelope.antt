-- ===== src/Network/Envelope.antt =====
-- chainbreaker/network/envelope.py: `serialize_envelope` and `parse_envelope`, with the constants of
-- chainbreaker/network/constants.py.
pub mod Laws
use chain_breaker.Base.{
  ℕ, suc, ◌+◌, ◌*◌, ◌/◌, ◌%◌, ◌^◌, Bool, true, false, not, ◌&&◌, ◌||◌, List, [], ◌∷◌, ◌++◌, Bytes,
  text, bytes_eq, length, Result, ok, raise, ◌>>=◌, ◌>>◌, raise_if, Exn, network_validation_error,
  unknown_message_type_error, oversized_payload_error, payload_hash_mismatch_error, struct_error,
  ltb, leb, ◌==◌, if◌then◌else◌,
}
use chain_breaker.Stdlib.{pack_be, from_be, slice}
use chain_breaker.Codec.{byte_at}
use chain_breaker.Governance.{network_id}

-- "CBN1"
abbrev pub cbn1_magic : Bytes
cbn1_magic = 67 ∷ 66 ∷ 78 ∷ 49 ∷ []

abbrev pub net_protocol_version : ℕ
net_protocol_version = 1

-- the canonical network's name, in ASCII
abbrev pub network_id_bytes : Bytes
network_id_bytes = network_id

abbrev pub max_payload_bytes : ℕ
max_payload_bytes = 2000000

abbrev pub max_network_id_length : ℕ
max_network_id_length = 64

-- the header with a network's name of 25 bytes
abbrev pub envelope_header_size : ℕ
envelope_header_size = 4 + 2 + 1 + 25 + 1 + 1 + 4 + 32

abbrev pub max_message_size : ℕ
max_message_size = envelope_header_size + max_payload_bytes

-- `KNOWN_MESSAGE_TYPES`, the types 0x01 to 0x0D
abbrev pub is_known : ℕ → Bool
is_known t = leb 1 t && leb t 13

-- `flags & FLAG_RESERVED_MASK`, the bits 2 to 7
abbrev pub has_reserved : ℕ → Bool
has_reserved flags = not (flags / 4 % 64 == 0)

-- `NetworkEnvelope`
pub record NetworkEnvelope : Type 0 where
  pub message_type : ℕ
  pub flags : ℕ
  pub payload : Bytes

module _ (sha256 : Bytes → Bytes) where
  -- `serialize_envelope`
  unfoldable pub serialize_envelope : NetworkEnvelope → Result Bytes
  serialize_envelope e = do
    raise_if (not (is_known e.message_type)) unknown_message_type_error
    raise_if (has_reserved e.flags) network_validation_error
    raise_if (ltb max_payload_bytes (length e.payload)) oversized_payload_error
    version ← pack_be 2 net_protocol_version
    id_size ← pack_be 1 (length network_id_bytes)
    kind ← pack_be 1 e.message_type
    flags ← pack_be 1 e.flags
    size ← pack_be 4 (length e.payload)
    ok (
        cbn1_magic
        ++ (version
            ++ (id_size
                ++ (network_id_bytes
                    ++ (kind ++ (flags ++ (size ++ (sha256 e.payload ++ e.payload))))))))

  -- `parse_envelope`
  unfoldable pub parse_envelope : Bytes → Result NetworkEnvelope
  parse_envelope raw = do
    raise_if (ltb (length raw) envelope_header_size) network_validation_error
    raise_if (ltb max_message_size (length raw)) network_validation_error
    raise_if (not (bytes_eq (slice raw 0 4) cbn1_magic)) network_validation_error
    raise_if (not (from_be (slice raw 4 2) == net_protocol_version)) network_validation_error
    id_size ← byte_at raw 6
    raise_if (id_size == 0 || ltb max_network_id_length id_size) network_validation_error
    raise_if (ltb (length raw) (45 + id_size)) network_validation_error
    raise_if (not (bytes_eq (slice raw 7 id_size) network_id_bytes)) network_validation_error
    kind ← byte_at raw (7 + id_size)
    raise_if (not (is_known kind)) unknown_message_type_error
    flags ← byte_at raw (8 + id_size)
    raise_if (has_reserved flags) network_validation_error
    let size = from_be (slice raw (9 + id_size) 4)
    raise_if (ltb max_payload_bytes size) oversized_payload_error
    raise_if (not (length raw == 45 + id_size + size)) network_validation_error
    let payload = slice raw (45 + id_size) size
    raise_if (not (bytes_eq (slice raw (13 + id_size) 32) (sha256 payload)))
        payload_hash_mismatch_error
    ok (record { message_type = kind; flags = flags; payload = payload })
