-- ===== src/Registry/Deserialize/Records.antt =====
-- The records that `serialize_registry_state` of chainbreaker/registry_state.py writes, read again.
use chain_breaker.Base.{
  ℕ, ◌+◌, ◌^◌, ◌<◌, ◌≡◌, refl, sym, ap, ◌∙◌, true, false, Option, none, some, [], ◌∷◌, ◌++◌,
  append_assoc, Bytes, Str, bytes_eq, length, length-append, length-replicate, drop, replicate,
  Result, ok, arith, ◌==◌,
}
use chain_breaker.Stdlib.{to_le, from_le, hex, utf8, is_encodable, slice}
use chain_breaker.Stdlib.Integers.{length-to_le, from_le-to_le}
use chain_breaker.Stdlib.Hex.{unhex-hex}
use chain_breaker.Codec.Header.{IsDigestText}
use chain_breaker.Codec.Reading.{slice_at, move}
use chain_breaker.Platform.{from_hex}
use chain_breaker.Governance.{governance_schema_version}
use chain_breaker.Registry.{
  CuratorRecord, to_bytes, encode_str, optional_hash, never, revocation_value, serialize_record,
}
use chain_breaker.Registry.Deserialize.{
  optional_text, optional_height, record_fields, deserialize_record,
}
use chain_breaker.Registry.Deserialize.Pieces.{to_bytes_fits, name_here}

pub from_hex-digest : (s : Str) (w : IsDigestText s) → from_hex s ≡ ok w.0
unfolding from_hex
from_hex-digest s (b, e, valid, size) = ap from_hex e ∙ rw (unhex-hex b valid, from_hex) refl

-- No hash, or one that is not all zeros.
abbrev pub IsOptionalDigest : Option Str → Type 0
IsOptionalDigest none = Unit
IsOptionalDigest (some s) = (w : IsDigestText s) × (bytes_eq w.0 (replicate 32 0) ≡ false)

-- An optional hash as it is written.
optional_digest :
    (o : Option Str)
    → IsOptionalDigest o
    → (b : Bytes) × (optional_hash o ≡ ok b) × (length b ≡ 32) × (optional_text b ≡ o)
unfolding optional_hash bytes_eq hex
optional_digest none w = (replicate 32 0, refl, length-replicate {A = ℕ} 32 0, refl)
optional_digest (some []) (([], e, valid, size), other) = absurd (omega (arith, size))
optional_digest (some []) ((x ∷ xs, e, valid, size), other) = cc
optional_digest (some (c ∷ cs)) ((b, e, valid, size), other) =
    (b, from_hex-digest (c ∷ cs) (b, e, valid, size), size, rw (other, e) refl)

-- The name can be encoded, the numbers of a record are below 2 ^ 64, the revocation height below
-- 2 ^ 64 - 1, its hashes are the hexadecimal text of 32 bytes, and no hash that it may lack is all
-- zeros.
pub record IsStorable (r : CuratorRecord) : Type 0 where
  pub encodable : is_encodable r.curator_id ≡ true
  pub name : length (utf8 r.curator_id) < 256 ^ 8
  pub public_key : IsDigestText r.public_key_hex
  pub activation : r.activation_height < 256 ^ 8
  pub revocation : (h : ℕ) → r.revocation_height ≡ some h → h < never
  pub previous : IsOptionalDigest r.previous_key_hex
  pub registration : IsDigestText r.registration_txid
  pub rotation : IsOptionalDigest r.latest_rotation_txid

-- The revocation height as it is written.
revocation_written :
    (o : Option ℕ)
    → ((h : ℕ) → o ≡ some h → h < never)
    → (revocation_value o < 256 ^ 8) × (optional_height (revocation_value o) ≡ o)
revocation_written none w = (omega arith, refl)
revocation_written (some h) w =
    let small = w h refl in
    let other : (h == never) ≡ false = ground (arith, small) in
    (omega (arith, small), rw other refl)

-- The bytes of a record behind its name, by what they are read to.
record Tail (r : CuratorRecord) : Type 0 where
  key : Bytes
  activation : Bytes
  revocation : Bytes
  previous : Bytes
  registration : Bytes
  rotation : Bytes
  key_size : length key ≡ 32
  activation_size : length activation ≡ 8
  revocation_size : length revocation ≡ 8
  previous_size : length previous ≡ 32
  registration_size : length registration ≡ 32
  rotation_size : length rotation ≡ 32
  key_read : hex key ≡ r.public_key_hex
  activation_read : from_le activation ≡ r.activation_height
  revocation_read : optional_height (from_le revocation) ≡ r.revocation_height
  previous_read : optional_text previous ≡ r.previous_key_hex
  registration_read : hex registration ≡ r.registration_txid
  rotation_read : optional_text rotation ≡ r.latest_rotation_txid

abbrev joined : {r : CuratorRecord} → Tail r → Bytes → Bytes
joined t rest =
    t.key
    ++ (t.activation ++ (t.revocation ++ (t.previous ++ (t.registration ++ (t.rotation ++ rest)))))

record_fields_here :
    (r : CuratorRecord) (t : Tail r) (raw : Bytes) (o : ℕ) (rest : Bytes)
    → drop o raw ≡ joined t rest
    → (record_fields raw o r.curator_id ≡ r) × (drop (o + 144) raw ≡ rest)
unfolding record_fields
record_fields_here r t raw o rest here =
    let a = move raw o (o + 32) 32 t.key _ here t.key_size refl in
    let b = move raw (o + 32) (o + 40) 8 t.activation _ a t.activation_size (omega arith) in
    let c = move raw (o + 40) (o + 48) 8 t.revocation _ b t.revocation_size (omega arith) in
    let d = move raw (o + 48) (o + 80) 32 t.previous _ c t.previous_size (omega arith) in
    let e = move raw (o + 80) (o + 112) 32 t.registration _ d t.registration_size (omega arith) in
    let key = ap hex (slice_at raw o 32 t.key _ here t.key_size) ∙ t.key_read in
    let activation =
      ap from_le (slice_at raw (o + 32) 8 t.activation _ a t.activation_size) ∙ t.activation_read in
    let revocation =
      ap (λ x. optional_height (from_le x))
        (slice_at raw (o + 40) 8 t.revocation _ b t.revocation_size)
      ∙ t.revocation_read in
    let previous =
      ap optional_text (slice_at raw (o + 48) 32 t.previous _ c t.previous_size)
      ∙ t.previous_read in
    let registration =
      ap hex (slice_at raw (o + 80) 32 t.registration _ d t.registration_size)
      ∙ t.registration_read in
    let rotation =
      ap optional_text (slice_at raw (o + 112) 32 t.rotation _ e t.rotation_size)
      ∙ t.rotation_read in
    (
      (λ i. record {
        curator_id = r.curator_id;
        public_key_hex = key i;
        activation_height = activation i;
        revocation_height = revocation i;
        previous_key_hex = previous i;
        registration_txid = registration i;
        latest_rotation_txid = rotation i;
      }),
      move raw (o + 112) (o + 144) 32 t.rotation rest e t.rotation_size (omega arith),
    )

tail_of : (r : CuratorRecord) → IsStorable r → Tail r
tail_of r w =
    let (revocation_fits, revoked) = revocation_written r.revocation_height w.revocation in
    let (previous, _, previous_size, previous_read) =
      optional_digest r.previous_key_hex w.previous in
    let (rotation, _, rotation_size, rotation_read) =
      optional_digest r.latest_rotation_txid w.rotation in
    record {
      key = w.public_key.0;
      activation = to_le 8 r.activation_height;
      revocation = to_le 8 (revocation_value r.revocation_height);
      previous = previous;
      registration = w.registration.0;
      rotation = rotation;
      key_size = w.public_key.3;
      activation_size = length-to_le 8 r.activation_height;
      revocation_size = length-to_le 8 (revocation_value r.revocation_height);
      previous_size = previous_size;
      registration_size = w.registration.3;
      rotation_size = rotation_size;
      key_read = sym w.public_key.1;
      activation_read = from_le-to_le 8 r.activation_height w.activation;
      revocation_read =
          ap optional_height
            (from_le-to_le 8 (revocation_value r.revocation_height) revocation_fits)
          ∙ revoked;
      previous_read = previous_read;
      registration_read = sym w.registration.1;
      rotation_read = rotation_read;
    }

abbrev body : {r : CuratorRecord} → Tail r → Bytes
body t = t.key ++ (t.activation ++ (t.revocation ++ (t.previous ++ (t.registration ++ t.rotation))))

length-body : (r : CuratorRecord) (t : Tail r) → length (body t) ≡ 144
length-body r t = omega (
  arith,
  length-append t.key
      (t.activation ++ (t.revocation ++ (t.previous ++ (t.registration ++ t.rotation)))),
  length-append t.activation (t.revocation ++ (t.previous ++ (t.registration ++ t.rotation))),
  length-append t.revocation (t.previous ++ (t.registration ++ t.rotation)),
  length-append t.previous (t.registration ++ t.rotation),
  length-append t.registration t.rotation,
  t.key_size,
  t.activation_size,
  t.revocation_size,
  t.previous_size,
  t.registration_size,
  t.rotation_size,
)

body-joined : (r : CuratorRecord) (t : Tail r) (rest : Bytes) → body t ++ rest ≡ joined t rest
body-joined r t rest = simp append_assoc refl

spread :
    (r : CuratorRecord) (t : Tail r) (name rest : Bytes)
    → (1 ∷ 0 ∷ 0 ∷ 0 ∷ (name ++ body t)) ++ rest ≡ 1 ∷ 0 ∷ 0 ∷ 0 ∷ (name ++ joined t rest)
spread r t name rest =
    ap (λ x. 1 ∷ 0 ∷ 0 ∷ 0 ∷ x)
      (append_assoc name (body t) rest ∙ ap (◌++◌ name) (body-joined r t rest))

-- the four bytes of the schema version
abbrev pub version_bytes : Bytes
version_bytes = 1 ∷ 0 ∷ 0 ∷ 0 ∷ []

pub version_written : to_bytes 4 governance_schema_version ≡ ok version_bytes
unfolding to_bytes to_le
version_written = refl

pub version_read : from_le version_bytes ≡ governance_schema_version
unfolding from_le
version_read = refl

module _ (decode_utf8 : Bytes → Result Str)
    (decodes : (s : Str) → is_encodable s ≡ true → decode_utf8 (utf8 s) ≡ ok s) where
  -- Where the bytes of a record stand, it is read, and the offset moves behind it.
  abbrev pub RecordReads : CuratorRecord → Bytes → Type 0
  RecordReads r part =
      (raw : Bytes) (offset : ℕ) (rest : Bytes)
      → drop offset raw ≡ part ++ rest
      → deserialize_record decode_utf8 raw offset ≡ ok (r, offset + length part)

  serialize_record-parts :
      (r : CuratorRecord) (w : IsStorable r) (name : Bytes)
      → encode_str r.curator_id ≡ ok name
      → serialize_record r ≡ ok (version_bytes ++ (name ++ body (tail_of r w)))
  unfolding serialize_record tail_of
  serialize_record-parts r w name named =
      let revocation = (revocation_written r.revocation_height w.revocation).0 in
      rw
        (
          version_written,
          named,
          from_hex-digest r.public_key_hex w.public_key,
          to_bytes_fits 8 r.activation_height w.activation,
          to_bytes_fits 8 (revocation_value r.revocation_height) revocation,
          (optional_digest r.previous_key_hex w.previous).1,
          from_hex-digest r.registration_txid w.registration,
          (optional_digest r.latest_rotation_txid w.rotation).1,
        )
        refl

  pub serialize_record_reads :
      (r : CuratorRecord) (w : IsStorable r)
      → (part : Bytes) × (serialize_record r ≡ ok part) × RecordReads r part
  unfolding deserialize_record
  serialize_record_reads r w =
      let (name, named, reads) = name_here decode_utf8 decodes r.curator_id w.encodable w.name in
      let t = tail_of r w in
      (
        version_bytes ++ (name ++ body t),
        serialize_record-parts r w name named,
        λ raw offset rest here.
            let split : drop offset raw ≡ version_bytes ++ (name ++ joined t rest) =
              here ∙ spread r t name rest in
            let behind =
              move raw offset (offset + 4) 4 version_bytes (name ++ joined t rest) split refl
                refl in
            let start =
              move raw (offset + 4) (offset + 4 + length name) (length name) name (joined t rest)
                behind refl refl in
            let version : (from_le (slice raw offset 4) == governance_schema_version) ≡ true =
              ap (λ b. from_le b == governance_schema_version)
                (slice_at raw offset 4 version_bytes (name ++ joined t rest) split refl)
              ∙ ap (λ n. n == governance_schema_version) version_read in
            let sum : offset + 4 + length name + 144
                ≡ offset + length (version_bytes ++ (name ++ body t)) =
              omega (arith, length-append name (body t), length-body r t) in
            rw
              (
                version,
                reads raw (offset + 4) (joined t rest) behind,
                (record_fields_here r t raw (offset + 4 + length name) rest start).0,
                sum,
              )
              refl,
      )
