-- ===== src/Block.antt =====
-- chainbreaker/block.py: v2 headers and blocks, their hash and the proof-of-work test. The hash
-- of a header may raise, since its codec does.
use chain_breaker.Base.{
  ℕ, ◌+◌, ◌-◌, ◌*◌, ◌^◌, Bool, List, [], ◌∷◌, Bytes, Str, Result, ok, raise, ◌>>=◌, overflow_error,
  ltb, leb, if◌then◌else◌,
}
use mathlib.Core.List.{reverse}
use chain_breaker.Stdlib.{to_le, hex}
use chain_breaker.Json.{Value}
use chain_breaker.Codec.{HeaderDict, encode_header_v2}

abbrev pub protocol_version : ℕ
protocol_version = 2

abbrev pub max_target : ℕ
max_target = 0x0000FFFF00000000000000000000000000000000000000000000000000000000

abbrev pub min_target : ℕ
min_target = 1

abbrev pub genesis_target : ℕ
genesis_target = max_target

-- `BlockHeaderV2`
pub record BlockHeaderV2 : Type 0 where
  pub version : ℕ
  pub prev_hash : Str
  pub merkle_root : Str
  pub registry_root : Str
  pub timestamp : ℕ
  pub target : ℕ
  pub nonce : ℕ

-- `BlockV2`
pub record BlockV2 : Type 0 where
  pub header : BlockHeaderV2
  pub transactions : List Value

-- `target_to_hex`
unfoldable pub target_to_hex : ℕ → Result Str
target_to_hex target =
    if ltb target (2 ^ 256) then ok (hex (reverse (to_le 32 target))) else raise overflow_error

-- `BlockHeaderV2.to_dict`
unfoldable pub to_dict : BlockHeaderV2 → Result HeaderDict
to_dict header = do
  target ← target_to_hex header.target
  ok (record {
    version = header.version;
    prev_hash = header.prev_hash;
    merkle_root = header.merkle_root;
    registry_root = header.registry_root;
    timestamp = header.timestamp;
    target = target;
    nonce = header.nonce;
  })

hex_digit : ℕ → ℕ
hex_digit c = if ltb c 58 then c - 48 else c - 87

-- `int(block_hash, 16)` of a text that `bytes.hex` has written
unfoldable pub hex_value : ℕ → Str → ℕ
unfolding hex_digit
hex_value acc [] = acc
hex_value acc (c ∷ rest) = hex_value (16 * acc + hex_digit c) rest

-- `satisfies_pow`
unfoldable pub satisfies_pow : Str → ℕ → Bool
satisfies_pow block_hash target = leb (hex_value 0 block_hash) target

module _ (sha256 : Bytes → Bytes) where
  -- `BlockHeaderV2.hash`: the double SHA-256 of the canonical header bytes
  unfoldable pub header_hash : BlockHeaderV2 → Result Str
  header_hash header = do
    dict ← to_dict header
    raw ← encode_header_v2 dict
    ok (hex (sha256 (sha256 raw)))

  -- `BlockV2.hash`
  abbrev pub block_hash : BlockV2 → Result Str
  block_hash block = header_hash block.header
