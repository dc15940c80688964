-- ===== src/Registry/Deserialize.antt =====
-- chainbreaker/registry_state.py: the reading of the canonical bytes of a registry state. The decoding
-- of UTF-8 is given.
pub mod Pieces
pub mod Records
pub mod RoundTrip
mod Examples
use chain_breaker.Base.{
  ℕ, zero, suc, ◌+◌, ◌*◌, Bool, true, false, not, Option, none, some, List, [], ◌∷◌, ◌++◌, Bytes,
  Str, bytes_eq, length, replicate, Result, ok, raise, ◌>>=◌, ◌>>◌, raise_if, registry_error, ltb,
  leb, ◌==◌, if◌then◌else◌,
}
use chain_breaker.Stdlib.{from_le, hex, slice}
use chain_breaker.Codec.{byte_at}
use chain_breaker.Governance.{governance_schema_version}
use chain_breaker.Registry.{CuratorRecord, RegistryState, never}

-- `_decode_varint` behind the first byte; a slice past the end is short
unfoldable pub wide_varint : Bytes → ℕ → ℕ → Result (ℕ × ℕ)
wide_varint raw offset first =
    if ltb first 0xFD
    then ok (first, offset + 1)
    else if first == 0xFD
    then ok (from_le (slice raw (offset + 1) 2), offset + 3)
    else if first == 0xFE
    then ok (from_le (slice raw (offset + 1) 4), offset + 5)
    else if first == 0xFF
    then ok (from_le (slice raw (offset + 1) 8), offset + 9)
    else raise registry_error

-- `_decode_varint`
unfoldable pub decode_registry_varint : Bytes → ℕ → Result (ℕ × ℕ)
decode_registry_varint raw offset = do
  raise_if (leb (length raw) offset) registry_error
  first ← byte_at raw offset
  wide_varint raw offset first

-- `_decode_bytes`
unfoldable pub decode_bytes_at : Bytes → ℕ → Result (Bytes × ℕ)
decode_bytes_at raw offset = do
  size ← decode_registry_varint raw offset
  raise_if (ltb (length raw) (size.1 + size.0)) registry_error
  ok (slice raw size.1 size.0, size.1 + size.0)

-- `None if raw == bytes(32) else raw.hex()`
abbrev pub optional_text : Bytes → Option Str
optional_text raw = if bytes_eq raw (replicate 32 0) then none else some (hex raw)

-- `None if raw == 0xFFFFFFFFFFFFFFFF else raw`
abbrev pub optional_height : ℕ → Option ℕ
optional_height n = if n == never then none else some n

-- the fields of a record behind its curator's name
unfoldable pub record_fields : Bytes → ℕ → Str → CuratorRecord
record_fields raw o curator_id = record {
  curator_id = curator_id;
  public_key_hex = hex (slice raw o 32);
  activation_height = from_le (slice raw (o + 32) 8);
  revocation_height = optional_height (from_le (slice raw (o + 40) 8));
  previous_key_hex = optional_text (slice raw (o + 48) 32);
  registration_txid = hex (slice raw (o + 80) 32);
  latest_rotation_txid = optional_text (slice raw (o + 112) 32);
}

-- `data[offset + i * 32 : offset + (i + 1) * 32].hex()`, of as many keys
unfoldable pub keys_at : ℕ → Bytes → ℕ → List Str
keys_at zero raw offset = []
keys_at (suc n) raw offset = hex (slice raw offset 32) ∷ keys_at n raw (offset + 32)

module _ (decode_utf8 : Bytes → Result Str) where
  -- `_decode_str`
  unfoldable pub decode_str_at : Bytes → ℕ → Result (Str × ℕ)
  decode_str_at raw offset = do
    found ← decode_bytes_at raw offset
    s ← decode_utf8 found.0
    ok (s, found.1)

  -- `_deserialize_record`
  unfoldable pub deserialize_record : Bytes → ℕ → Result (CuratorRecord × ℕ)
  deserialize_record raw offset = do
    raise_if (not (from_le (slice raw offset 4) == governance_schema_version)) registry_error
    name ← decode_str_at raw (offset + 4)
    ok (record_fields raw name.1 name.0, name.1 + 144)

  unfoldable pub records_at : ℕ → Bytes → ℕ → Result (List CuratorRecord × ℕ)
  records_at zero raw offset = ok ([], offset)
  records_at (suc n) raw offset = do
    first ← deserialize_record raw offset
    rest ← records_at n raw first.1
    ok (first.0 ∷ rest.0, rest.1)

  -- `deserialize_registry_state`
  unfoldable pub deserialize_registry_state : Bytes → Result RegistryState
  deserialize_registry_state raw = do
    raise_if (ltb (length raw) 4) registry_error
    let version = from_le (slice raw 0 4)
    raise_if (not (version == governance_schema_version)) registry_error
    network ← decode_str_at raw 4
    count ← decode_registry_varint raw network.1
    raise_if (ltb (length raw) (count.1 + count.0 * 32)) registry_error
    threshold ← byte_at raw (count.1 + count.0 * 32)
    number ← decode_registry_varint raw (count.1 + count.0 * 32 + 1)
    found ← records_at number.0 raw number.1
    raise_if (not (found.1 == length raw)) registry_error
    ok (record {
      records = found.0;
      governance_version = version;
      network_id = network.0;
      governance_keys = keys_at count.0 raw count.1;
      threshold = threshold;
    })
