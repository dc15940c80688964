-- ===== src/Codec/Examples.antt =====
-- Varints of each width and a header, encoded and decoded.
use chain_breaker.Base.{
  ℕ, zero, suc, ◌+◌, ◌≤◌, ◌<◌, ◌≡◌, refl, true, [], ◌∷◌, ◌++◌, Bytes, IsBytes, ok, raise,
  codec_error, length, replicate, arith,
}
use chain_breaker.Stdlib.{from_le, slice, hex}
use chain_breaker.Codec.{
  HeaderDict, need, byte_at, encode_varint, decode_varint, decode_wide, canonical_length,
  encode_header_v2, decode_header_v2,
}
use chain_breaker.Codec.Varint.{decode_varint-encode_varint}
use chain_breaker.Codec.Canonical.{encode_varint-decode_varint}
use chain_breaker.Codec.Header.{IsEncodable, decode_header_v2-encode_header_v2}

decode_varint-encode_varint_example :
    (enc : Bytes) × (encode_varint 70000 ≡ ok enc)
    × (decode_varint (1 ∷ (enc ++ (9 ∷ []))) 1 ≡ ok (70000, 1 + length enc))
decode_varint-encode_varint_example =
    decode_varint-encode_varint 70000 (1 ∷ []) (9 ∷ []) (omega arith)

abbrev wide : Bytes
wide = 0xFD ∷ 0x2C ∷ 0x01 ∷ 7 ∷ []

wide_is_300 : decode_varint wide 0 ≡ ok (300, 3)
unfolding decode_varint need byte_at decode_wide canonical_length from_le
wide_is_300 = refl

encode_varint-decode_varint_example : (encode_varint 300 ≡ ok (slice wide 0 3)) × (3 ≤ length wide)
encode_varint-decode_varint_example =
    encode_varint-decode_varint wide 0 300 3
      (omega arith, (omega arith, (omega arith, (omega arith, tt)))) wide_is_300

-- The long form of a small number is refused.
padded_is_refused : decode_varint (0xFD ∷ 5 ∷ 0 ∷ []) 0 ≡ raise codec_error
unfolding decode_varint need byte_at decode_wide canonical_length from_le
padded_is_refused = refl

abbrev header : HeaderDict
header = record {
  version = 2;
  prev_hash = hex (replicate 32 1);
  merkle_root = hex (replicate 32 2);
  registry_root = hex (replicate 32 3);
  timestamp = 1700000000;
  target = hex (replicate 32 4);
  nonce = 77;
}

replicate-IsBytes : (n b : ℕ) → b < 256 → IsBytes (replicate n b)
replicate-IsBytes zero b h = tt
replicate-IsBytes (suc n) b h = (h, replicate-IsBytes n b h)

header-IsEncodable : IsEncodable header
header-IsEncodable = record {
  version = omega arith;
  prev_hash = (replicate 32 1, refl, replicate-IsBytes 32 1 (omega arith), refl);
  merkle_root = (replicate 32 2, refl, replicate-IsBytes 32 2 (omega arith), refl);
  registry_root = (replicate 32 3, refl, replicate-IsBytes 32 3 (omega arith), refl);
  timestamp = omega arith;
  target = (replicate 32 4, refl, replicate-IsBytes 32 4 (omega arith), refl);
  nonce = omega arith;
}

decode_header_v2-encode_header_v2_example :
    (bs : Bytes) × (encode_header_v2 header ≡ ok bs)
    × (length bs ≡ 149)
    × (decode_header_v2 bs 0 true ≡ ok (header, 149))
decode_header_v2-encode_header_v2_example =
    decode_header_v2-encode_header_v2 header header-IsEncodable
