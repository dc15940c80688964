-- ===== src/Platform.antt =====
-- What the code takes from `hashlib`, `json` and the `cryptography` package: functions that it
-- does not implement, and the hashing helpers of chainbreaker/crypto.py over them.
use chain_breaker.Base.{
  Bool, false, none, some, Bytes, Str, length, Result, ok, raise, ◌>>=◌, value_error, ◌==◌,
  if◌then◌else◌,
}
use chain_breaker.Stdlib.{hex, unhex}
use chain_breaker.Json.{Value}

pub record Platform : Type 0 where
  -- `hashlib.sha256(data).digest()`
  pub sha256 : Bytes → Bytes
  -- `json.dumps(obj, sort_keys=True, separators=(",", ":"), allow_nan=False).encode("utf-8")`
  pub canonical_json : Value → Bytes
  -- whether `Ed25519PublicKey.from_public_bytes(raw).verify(signature, message)` returns
  pub signed_by : Bytes → Bytes → Bytes → Bool

-- `bytes.fromhex`
unfoldable pub from_hex : Str → Result Bytes
from_hex s = elim (unhex s) [ none ↦ raise value_error | some raw ↦ ok raw ]

module _ (p : Platform) where
  -- `HashEngine.hash_object`
  unfoldable pub hash_object : Value → Bytes
  hash_object v = p.sha256 (p.canonical_json v)

  -- `HashEngine.hash_object_hex`
  unfoldable pub hash_object_hex : Value → Str
  hash_object_hex v = hex (hash_object v)

  -- `HashEngine.hash_single_hex`
  unfoldable pub hash_single_hex : Bytes → Str
  hash_single_hex bs = hex (p.sha256 bs)

  -- `decode_public_key`: the raw bytes of the key
  unfoldable pub decode_public_key : Str → Result Bytes
  decode_public_key hex_key = do
    raw ← from_hex hex_key
    if length raw == 32 then ok raw else raise value_error

  -- `verify`
  unfoldable pub verify : Bytes → Bytes → Str → Bool
  verify pk message signature_hex = elim (unhex signature_hex) [
    | none ↦ false
    | some raw ↦ if length raw == 64 then p.signed_by pk raw message else false
  ]
