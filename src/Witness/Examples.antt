-- ===== src/Witness/Examples.antt =====
-- A transaction that two curators have attested.
use chain_breaker.Base.{
  ◌≤◌, ◌≡◌, refl, true, none, some, List, [], ◌∷◌, Str, bytes_eq, text, replicate, length, ok,
}
use chain_breaker.Stdlib.{unhex, digit_value}
use chain_breaker.Json.{Value, Fields, int, str, arr, obj, nil, cons, end, field, get, member}
use chain_breaker.Platform.{Platform, hash_object_hex, from_hex, decode_public_key, verify}
use chain_breaker.Registry.{
  CuratorRecord, RegistryState, matches, is_active_at, attests, any_attests, is_previous,
  key_was_valid_at,
}
use chain_breaker.Witness.{
  text_at, height_is, check_signature, verify_attestation_v2, verify_witnesses,
  verify_transaction_witnesses_v2,
}
use chain_breaker.Witness.Attested.{
  AreDistinct, AllAttest, verify_transaction_witnesses_v2-accepted,
}

-- Every signature is good.
abbrev trusting : Platform
trusting = record {
  sha256 = λ b. replicate 32 9;
  canonical_json = λ v. [];
  signed_by = λ k s m. true;
}

abbrev key : Str
key = replicate 64 55

abbrev signature : Str
signature = replicate 128 55

abbrev curator : Str → CuratorRecord
curator name = record {
  curator_id = name;
  public_key_hex = key;
  activation_height = 5;
  revocation_height = none;
  previous_key_hex = none;
  registration_txid = key;
  latest_rotation_txid = none;
}

abbrev state : RegistryState
state = record {
  records = curator (text "alice") ∷ curator (text "bob") ∷ [];
  governance_version = 1;
  network_id = text "n";
  governance_keys = [];
  threshold = 1;
}

abbrev witness : Str → Value
witness name = obj (
    field (text "curator_id") (str name) (
      field (text "signature") (str signature)
        (field (text "block_height") (int 9) (field (text "public_key_hex") (str key) end))))

abbrev tx : Fields
tx = field (text "body") (obj end) (
    field (text "witnesses") (arr (cons (witness (text "alice")) (cons (witness (text "bob")) nil)))
      end)

tx_accepted : verify_transaction_witnesses_v2 trusting state (obj tx) 9 2 ≡ ok true
unfolding verify_transaction_witnesses_v2 verify_witnesses verify_attestation_v2 text_at height_is
    check_signature decode_public_key from_hex unhex digit_value verify key_was_valid_at matches
    any_attests attests is_active_at is_previous get member bytes_eq
tx_accepted = refl

verify_transaction_witnesses_v2-accepted_example :
    (body : Value) × (get (text "body") tx ≡ some body)
    × (names : List Str) × (2 ≤ length names)
    × AreDistinct names
    × AllAttest trusting state (hash_object_hex trusting body) 9 names
verify_transaction_witnesses_v2-accepted_example =
    verify_transaction_witnesses_v2-accepted trusting state tx 9 2 tx_accepted
