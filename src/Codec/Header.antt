-- ===== src/Codec/Header.antt =====
-- The 149 bytes of a v2 header, `encode_header_v2` and `decode_header_v2` of
-- chainbreaker/codec.py.
use chain_breaker.Base.{
  ℕ, suc, ◌+◌, ◌^◌, ◌<◌, ◌≡◌, refl, sym, ap, ◌∙◌, true, [], ◌∷◌, ◌++◌, Bytes, Str, IsBytes, length,
  drop, length-append, ok, arith, append-nil,
}
use chain_breaker.Stdlib.{to_le, from_le, pack, hex}
use chain_breaker.Stdlib.Integers.{length-to_le, from_le-to_le, pack_fits}
use chain_breaker.Stdlib.Hex.{unhex-hex}
use chain_breaker.Codec.{
  HeaderDict, encode_hash, encode_fields, as_codec_error, encode_header_v2, decode_header_v2,
  decode_fields, type_header,
}
use chain_breaker.Codec.Reading.{need_here, byte_at_here, read_hash_here, move, number}

-- The seven fields, as bytes of the right lengths.
record Fields : Type 0 where
  version : Bytes
  prev_hash : Bytes
  merkle_root : Bytes
  registry_root : Bytes
  timestamp : Bytes
  target : Bytes
  nonce : Bytes
  version_size : length version ≡ 4
  prev_hash_size : length prev_hash ≡ 32
  merkle_root_size : length merkle_root ≡ 32
  registry_root_size : length registry_root ≡ 32
  timestamp_size : length timestamp ≡ 8
  target_size : length target ≡ 32
  nonce_size : length nonce ≡ 8

abbrev joined : Fields → Bytes
joined f =
    f.version
    ++ (f.prev_hash
        ++ (f.merkle_root ++ (f.registry_root ++ (f.timestamp ++ (f.target ++ f.nonce)))))

abbrev header_of : Fields → HeaderDict
header_of f = record {
  version = from_le f.version;
  prev_hash = hex f.prev_hash;
  merkle_root = hex f.merkle_root;
  registry_root = hex f.registry_root;
  timestamp = from_le f.timestamp;
  target = hex f.target;
  nonce = from_le f.nonce;
}

decode_fields_here :
    (bs : Bytes) (a : ℕ) (f : Fields)
    → drop a bs ≡ joined f
    → decode_fields bs a ≡ ok (header_of f, a + 148)
unfolding decode_fields
decode_fields_here bs a f here =
    let h1 = move bs a (a + 4) 4 f.version _ here f.version_size refl in
    let h2 = move bs (a + 4) (a + 36) 32 f.prev_hash _ h1 f.prev_hash_size (omega arith) in
    let h3 = move bs (a + 36) (a + 68) 32 f.merkle_root _ h2 f.merkle_root_size (omega arith) in
    let h4 =
      move bs (a + 68) (a + 100) 32 f.registry_root _ h3 f.registry_root_size (omega arith) in
    let h5 = move bs (a + 100) (a + 108) 8 f.timestamp _ h4 f.timestamp_size (omega arith) in
    let h6 = move bs (a + 108) (a + 140) 32 f.target _ h5 f.target_size (omega arith) in
    let h7 : drop (a + 140) bs ≡ f.nonce ++ [] = h6 ∙ sym (append-nil f.nonce) in
    rw
      (
        number bs a 4 f.version _ here f.version_size (omega arith),
        read_hash_here bs (a + 4) f.prev_hash _ h1 f.prev_hash_size,
        read_hash_here bs (a + 36) f.merkle_root _ h2 f.merkle_root_size,
        read_hash_here bs (a + 68) f.registry_root _ h3 f.registry_root_size,
        number bs (a + 100) 8 f.timestamp _ h4 f.timestamp_size (omega arith),
        read_hash_here bs (a + 108) f.target _ h5 f.target_size,
        number bs (a + 140) 8 f.nonce [] h7 f.nonce_size (omega arith),
      )
      refl

length-joined : (f : Fields) → length (joined f) ≡ 148
length-joined f =
    rw (length-append, length-append, length-append, length-append, length-append, length-append)
      (omega arith)

-- The hexadecimal text of 32 bytes.
abbrev pub IsDigestText : Str → Type 0
IsDigestText s = (b : Bytes) × (s ≡ hex b) × IsBytes b × (length b ≡ 32)

pub record IsEncodable (h : HeaderDict) : Type 0 where
  pub version : h.version < 256 ^ 4
  pub prev_hash : IsDigestText h.prev_hash
  pub merkle_root : IsDigestText h.merkle_root
  pub registry_root : IsDigestText h.registry_root
  pub timestamp : h.timestamp < 256 ^ 8
  pub target : IsDigestText h.target
  pub nonce : h.nonce < 256 ^ 8

encode_hash-hex : (s : Str) (d : IsDigestText s) → encode_hash s ≡ ok d.0
unfolding encode_hash
encode_hash-hex s (b, e, valid, size) =
    rw (e, unhex-hex b valid, encode_hash) (ground (arith, size))

fields_of : (h : HeaderDict) → IsEncodable h → Fields
fields_of h w = record {
  version = to_le 4 h.version;
  prev_hash = w.prev_hash.0;
  merkle_root = w.merkle_root.0;
  registry_root = w.registry_root.0;
  timestamp = to_le 8 h.timestamp;
  target = w.target.0;
  nonce = to_le 8 h.nonce;
  version_size = length-to_le 4 h.version;
  prev_hash_size = w.prev_hash.3;
  merkle_root_size = w.merkle_root.3;
  registry_root_size = w.registry_root.3;
  timestamp_size = length-to_le 8 h.timestamp;
  target_size = w.target.3;
  nonce_size = length-to_le 8 h.nonce;
}

header_of-fields_of : (h : HeaderDict) (w : IsEncodable h) → header_of (fields_of h w) ≡ h
unfolding fields_of
header_of-fields_of h w = λ i. record {
  version = from_le-to_le 4 h.version w.version i;
  prev_hash = sym w.prev_hash.1 i;
  merkle_root = sym w.merkle_root.1 i;
  registry_root = sym w.registry_root.1 i;
  timestamp = from_le-to_le 8 h.timestamp w.timestamp i;
  target = sym w.target.1 i;
  nonce = from_le-to_le 8 h.nonce w.nonce i;
}

pack_marker : pack 1 type_header ≡ ok (type_header ∷ [])
unfolding pack to_le
pack_marker = refl

encode_header_v2-fields :
    (h : HeaderDict) (w : IsEncodable h)
    → encode_header_v2 h ≡ ok (type_header ∷ joined (fields_of h w))
unfolding encode_header_v2 encode_fields as_codec_error fields_of
encode_header_v2-fields h w =
    rw
      (
        pack_marker,
        pack_fits 4 h.version w.version,
        encode_hash-hex h.prev_hash w.prev_hash,
        encode_hash-hex h.merkle_root w.merkle_root,
        encode_hash-hex h.registry_root w.registry_root,
        pack_fits 8 h.timestamp w.timestamp,
        encode_hash-hex h.target w.target,
        pack_fits 8 h.nonce w.nonce,
      )
      refl

-- A header whose numbers fit and whose hashes are the hexadecimal text of 32 bytes is encoded in
-- 149 bytes, which the strict decoder takes back to the very header, leaving nothing over.
pub decode_header_v2-encode_header_v2 :
    (h : HeaderDict)
    → IsEncodable h
    → (bs : Bytes) × (encode_header_v2 h ≡ ok bs)
      × (length bs ≡ 149)
      × (decode_header_v2 bs 0 true ≡ ok (h, 149))
unfolding decode_header_v2
decode_header_v2-encode_header_v2 h w =
    let f = fields_of h w in
    let bs = type_header ∷ joined f in
    let size : length bs ≡ 149 = ap suc (length-joined f) in
    let start = need_here bs 0 (type_header ∷ []) (joined f) refl (omega arith) in
    (
      bs,
      encode_header_v2-fields h w,
      size,
      rw
          (
            start,
            byte_at_here bs 0 type_header (joined f) refl,
            decode_fields_here bs 1 f refl,
            header_of-fields_of h w,
          )
          (ground (arith, size)),
    )
