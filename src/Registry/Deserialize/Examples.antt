-- ===== src/Registry/Deserialize/Examples.antt =====
-- A state of one key and one record, with a decoder of UTF-8.
use chain_breaker.Base.{
  ℕ, zero, suc, ◌+◌, ◌-◌, ◌*◌, ◌/◌, ◌%◌, ◌≤◌, ◌≡◌, refl, true, false, ap, ◌∙◌, inl, inr, none, [],
  ◌∷◌, ◌++◌, Bytes, Str, text, drop, replicate, length, Result, ok, arith, ltb, Bool-cases,
  if◌then◌else◌,
}
use chain_breaker.Stdlib.{hex, utf8, encode_char, is_scalar, is_encodable}
use chain_breaker.Codec.Header.{IsDigestText}
use chain_breaker.Registry.{CuratorRecord, RegistryState, serialize_registry_state, sorted_by_id}
use chain_breaker.Registry.Deserialize.{deserialize_registry_state}
use chain_breaker.Registry.Deserialize.Records.{IsStorable}
use chain_breaker.Registry.Deserialize.RoundTrip.{
  IsStorableState, deserialize_registry_state-serialize_registry_state,
}

byte : ℕ → Bytes → ℕ
byte i [] = 0
byte zero (b ∷ bs) = b
byte (suc i) (b ∷ bs) = byte i bs

-- The code points of bytes that are well formed, on their number as fuel.
points : ℕ → Bytes → Str
points zero bs = []
points (suc f) [] = []
points (suc f) (a ∷ bs) =
    let one = points f bs in
    let two = points f (drop 1 bs) in
    let three = points f (drop 2 bs) in
    let four = points f (drop 3 bs) in
    if ltb a 128
    then a ∷ one
    else if ltb a 224
    then ((a - 192) * 64 + (byte 0 bs - 128)) ∷ two
    else if ltb a 240
    then ((a - 224) * 4096 + (byte 0 bs - 128) * 64 + (byte 1 bs - 128)) ∷ three
    else ((a - 240) * 262144
        + (byte 0 bs - 128) * 4096
        + (byte 1 bs - 128) * 64
        + (byte 2 bs - 128))
      ∷ four

points-encode_char :
    (c f : ℕ) (rest : Bytes) → points (suc f) (encode_char c ++ rest) ≡ c ∷ points f rest
unfolding points encode_char byte
points-encode_char c f rest = elim (Bool-cases (ltb c 128)) [
  | inl a ↦ rw a (rw a refl)
  | inr a ↦ elim (Bool-cases (ltb c 2048)) [
    | inl b ↦
        let first : ltb (192 + c / 64) 128 ≡ false = ground arith in
        let second : ltb (192 + c / 64) 224 ≡ true = ground (arith, b) in
        let whole : (192 + c / 64 - 192) * 64 + (128 + c % 64 - 128) ≡ c = omega arith in
        rw (a, b) (rw (first, second, whole) refl)
    | inr b ↦ elim (Bool-cases (ltb c 65536)) [
      | inl d ↦
          let first : ltb (224 + c / 4096) 128 ≡ false = ground arith in
          let second : ltb (224 + c / 4096) 224 ≡ false = ground arith in
          let third : ltb (224 + c / 4096) 240 ≡ true = ground (arith, d) in
          let whole : (224 + c / 4096 - 224) * 4096
                + (128 + c / 64 % 64 - 128) * 64
                + (128 + c % 64 - 128)
              ≡ c =
            omega arith in
          rw (a, b, d) (rw (first, second, third, whole) refl)
      | inr d ↦
          let first : ltb (240 + c / 262144) 128 ≡ false = ground arith in
          let second : ltb (240 + c / 262144) 224 ≡ false = ground arith in
          let third : ltb (240 + c / 262144) 240 ≡ false = ground arith in
          let whole : (240 + c / 262144 - 240) * 262144
                + (128 + c / 4096 % 64 - 128) * 4096
                + (128 + c / 64 % 64 - 128) * 64
                + (128 + c % 64 - 128)
              ≡ c =
            omega arith in
          rw (a, b, d) (rw (first, second, third, whole) refl)
    ]
  ]
]

length-encode_char : (c : ℕ) (rest : Bytes) → suc (length rest) ≤ length (encode_char c ++ rest)
unfolding encode_char
length-encode_char c rest = ground arith

points-utf8 : (s : Str) (f : ℕ) → length (utf8 s) ≤ f → points f (utf8 s) ≡ s
unfolding points utf8
points-utf8 [] zero h = refl
points-utf8 [] (suc f) h = refl
points-utf8 (c ∷ s) zero h = absurd (omega (arith, length-encode_char c (utf8 s), h))
points-utf8 (c ∷ s) (suc f) h =
    points-encode_char c f (utf8 s)
    ∙ ap (λ r. c ∷ r) (points-utf8 s f (omega (arith, length-encode_char c (utf8 s), h)))

abbrev decode : Bytes → Result Str
decode bs = ok (points (length bs) bs)

decode-utf8 : (s : Str) → is_encodable s ≡ true → decode (utf8 s) ≡ ok s
decode-utf8 s encodable = ap ok (points-utf8 s (length (utf8 s)) (omega arith))

abbrev key : Str
key = hex (replicate 32 7)

key-IsDigestText : IsDigestText key
key-IsDigestText = (replicate 32 7, refl, omega arith, refl)

abbrev alice : CuratorRecord
alice = record {
  curator_id = text "alice";
  public_key_hex = key;
  activation_height = 5;
  revocation_height = none;
  previous_key_hex = none;
  registration_txid = key;
  latest_rotation_txid = none;
}

alice-IsStorable : IsStorable alice
unfolding utf8 encode_char is_scalar is_encodable
alice-IsStorable = record {
  encodable = refl;
  name = omega arith;
  public_key = key-IsDigestText;
  activation = omega arith;
  revocation = λ h e. cc;
  previous = tt;
  registration = key-IsDigestText;
  rotation = tt;
}

abbrev stored : RegistryState
stored = record {
  records = alice ∷ [];
  governance_version = 1;
  network_id = text "n";
  governance_keys = key ∷ [];
  threshold = 1;
}

stored-IsStorableState : IsStorableState stored
unfolding utf8 encode_char is_scalar is_encodable
stored-IsStorableState = record {
  version = refl;
  encodable = refl;
  network = omega arith;
  key_count = omega arith;
  keys = (key-IsDigestText, tt);
  threshold = omega arith;
  record_count = omega arith;
  records = (alice-IsStorable, tt);
}

deserialize_registry_state-serialize_registry_state_example :
    (raw : Bytes) × (serialize_registry_state stored ≡ ok raw)
    × (deserialize_registry_state decode raw
        ≡ ok (record stored { records = sorted_by_id (alice ∷ []) }))
deserialize_registry_state-serialize_registry_state_example =
    deserialize_registry_state-serialize_registry_state decode decode-utf8 stored
      stored-IsStorableState
