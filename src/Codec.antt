-- ===== src/Codec.antt =====
-- chainbreaker/codec.py: the strict binary codec, `BinaryCodec`, for varints, byte strings and
-- block headers. Every read is bounds-checked by `_need` and raises `CodecError`.
pub mod Varint
pub mod Canonical
pub mod Reading
pub mod Header
mod Examples
use chain_breaker.Base.{
  ℕ, suc, ◌+◌, ◌-◌, ◌^◌, Bool, true, false, not, ◌&&◌, Option, none, some, List, [], ◌∷◌, ◌++◌,
  Bytes, Str, length, get_elem?, Result, ok, raise, ◌>>=◌, ◌>>◌, raise_if, Exn, codec_error,
  index_error, value_error, key_error, ltb, leb, ◌==◌, if◌then◌else◌,
}
use chain_breaker.Stdlib.{to_le, from_le, pack, slice, hex, unhex}

-- `_need`
unfoldable pub need : Bytes → ℕ → ℕ → Result (Unit {0})
need bs offset size = raise_if (ltb (length bs) (offset + size)) codec_error

-- `data[offset]`
unfoldable pub byte_at : Bytes → ℕ → Result ℕ
byte_at bs offset = elim (get_elem? bs offset) [ none ↦ raise index_error | some b ↦ ok b ]

-- `encode_hash`; `bytes.fromhex` raises a `ValueError`
unfoldable pub encode_hash : Str → Result Bytes
encode_hash hash_hex = elim (unhex hash_hex) [
  | none ↦ raise value_error
  | some raw ↦ if length raw == 32 then ok raw else raise codec_error
]

-- `decode_hash`
unfoldable pub decode_hash : Bytes → Result Str
decode_hash bs = if length bs == 32 then ok (hex bs) else raise codec_error

abbrev pub max_varint : ℕ
max_varint = 0xFFFFFFFFFFFFFFFF

-- `encode_varint`
unfoldable pub encode_varint : ℕ → Result Bytes
unfolding pack
encode_varint n =
    if ltb n 0xFD
    then pack 1 n
    else if leb n 0xFFFF
    then (do bs ← pack 2 n; ok (0xFD ∷ bs))
    else if leb n 0xFFFFFFFF
    then (do bs ← pack 4 n; ok (0xFE ∷ bs))
    else if leb n max_varint
    then (do bs ← pack 8 n; ok (0xFF ∷ bs))
    else raise codec_error

-- `_canonical_length`
unfoldable pub canonical_length : ℕ → ℕ
canonical_length n =
    if ltb n 0xFD then 1 else if leb n 0xFFFF then 3 else if leb n 0xFFFFFFFF then 5 else 9

-- One of the three long branches of `decode_varint`: `width` bytes behind the prefix.
unfoldable pub decode_wide : Bytes → ℕ → ℕ → Result (ℕ × ℕ)
decode_wide bs offset width = do
  need bs (offset + 1) width
  let n = from_le (slice bs (offset + 1) width)
  raise_if (not (canonical_length n == width + 1)) codec_error
  ok (n, offset + (width + 1))

-- `decode_varint`: the number and the offset behind it
unfoldable pub decode_varint : Bytes → ℕ → Result (ℕ × ℕ)
decode_varint bs offset = do
  need bs offset 1
  prefix ← byte_at bs offset
  (if ltb prefix 0xFD
      then ok (prefix, offset + 1)
      else if prefix == 0xFD
      then decode_wide bs offset 2
      else if prefix == 0xFE
      then decode_wide bs offset 4
      else if prefix == 0xFF
      then decode_wide bs offset 8
      else raise codec_error)

-- `encode_bytes`
unfoldable pub encode_bytes : Bytes → Result Bytes
encode_bytes blob = do size ← encode_varint (length blob); ok (size ++ blob)

-- `decode_bytes`
unfoldable pub decode_bytes : Bytes → ℕ → Result (Bytes × ℕ)
decode_bytes bs offset = do
  (size, start) ← decode_varint bs offset
  need bs start size
  ok (slice bs start size, start + size)

-- The dictionary of a v2 header, as `BlockHeaderV2.to_dict` makes it: texts in hexadecimal.
pub record HeaderDict : Type 0 where
  pub version : ℕ
  pub prev_hash : Str
  pub merkle_root : Str
  pub registry_root : Str
  pub timestamp : ℕ
  pub target : Str
  pub nonce : ℕ

abbrev pub type_header : ℕ
type_header = 2

-- `except (KeyError, ValueError) as exc: raise CodecError`
unfoldable pub as_codec_error {ℓ} : {A : Type ℓ} → Result A → Result A
as_codec_error (ok a) = ok a
as_codec_error (raise key_error) = raise codec_error
as_codec_error (raise value_error) = raise codec_error
as_codec_error (raise e) = raise e

-- the `try` block of `encode_header_v2`; a number out of range raises `struct.error`
unfoldable pub encode_fields : HeaderDict → Result Bytes
encode_fields header = do
  marker ← pack 1 type_header
  version ← pack 4 header.version
  prev_hash ← encode_hash header.prev_hash
  merkle_root ← encode_hash header.merkle_root
  registry_root ← encode_hash header.registry_root
  timestamp ← pack 8 header.timestamp
  target ← encode_hash header.target
  nonce ← pack 8 header.nonce
  ok (
      marker
      ++ (version
          ++ (prev_hash ++ (merkle_root ++ (registry_root ++ (timestamp ++ (target ++ nonce)))))))

-- `encode_header_v2`; nothing catches the `struct.error`
unfoldable pub encode_header_v2 : HeaderDict → Result Bytes
encode_header_v2 header = as_codec_error (encode_fields header)

-- `_need`, then `struct.unpack_from`
unfoldable pub read_number : ℕ → Bytes → ℕ → Result ℕ
read_number width bs offset = do need bs offset width; ok (from_le (slice bs offset width))

-- `_need`, then `decode_hash` of the slice
unfoldable pub read_hash : Bytes → ℕ → Result Str
read_hash bs offset = do need bs offset 32; decode_hash (slice bs offset 32)

-- the fields behind the type marker, and the offset behind them
unfoldable pub decode_fields : Bytes → ℕ → Result (HeaderDict × ℕ)
decode_fields bs offset = do
  version ← read_number 4 bs offset
  prev_hash ← read_hash bs (offset + 4)
  merkle_root ← read_hash bs (offset + 36)
  registry_root ← read_hash bs (offset + 68)
  timestamp ← read_number 8 bs (offset + 100)
  target ← read_hash bs (offset + 108)
  nonce ← read_number 8 bs (offset + 140)
  ok (
    record {
      version = version;
      prev_hash = prev_hash;
      merkle_root = merkle_root;
      registry_root = registry_root;
      timestamp = timestamp;
      target = target;
      nonce = nonce;
    },
    offset + 148,
  )

-- `decode_header_v2`, with its `strict` flag
unfoldable pub decode_header_v2 : Bytes → ℕ → Bool → Result (HeaderDict × ℕ)
decode_header_v2 bs offset strict = do
  raise_if (strict && not (offset == 0)) codec_error
  raise_if (strict && not (length bs == 149)) codec_error
  need bs offset 1
  marker ← byte_at bs offset
  raise_if (not (marker == type_header)) codec_error
  (header, end) ← decode_fields bs (offset + 1)
  raise_if (strict && not (end == length bs)) codec_error
  ok (header, end)
