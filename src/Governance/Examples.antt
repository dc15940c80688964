-- ===== src/Governance/Examples.antt =====
-- The threshold check on two signatures of a message.
use chain_breaker.Base.{◌≤◌, ◌≡◌, ◌↔◌, [], ◌∷◌, ok, raise, governance_error, refl, bytes_eq}
use chain_breaker.Stdlib.{digit, hex, digit_value, add_byte, unhex}
use chain_breaker.Json.{end}
use chain_breaker.Platform.{hash_object, hash_object_hex, from_hex, decode_public_key, verify}
use chain_breaker.Governance.{
  GovernanceSignature, GovernanceContext, network_id, governance_message, is_used, counts,
  count_valid, verify_governance_signatures,
}
use chain_breaker.Governance.Threshold.{AreDistinct, valid_count, verify_governance_signatures_iff}
use chain_breaker.Toys.{toy_platform, toy_key, toy_signature}

abbrev context : GovernanceContext
context = record {
  public_keys_hex = toy_key 11 ∷ toy_key 12 ∷ [];
  threshold = 2;
  network_id = network_id;
}

abbrev first : GovernanceSignature
first = record { key_index = 0; signature_hex = toy_signature 11 }

abbrev second : GovernanceSignature
second = record { key_index = 1; signature_hex = toy_signature 12 }

verify_governance_signatures_iff_example :
    (verify_governance_signatures toy_platform context end (second ∷ first ∷ []) ≡ ok tt) ↔ (
      AreDistinct 2 [] (second ∷ first ∷ [])
      × (2
          ≤ valid_count toy_platform
              (toy_key 11 ∷ toy_key 12 ∷ [])
              (governance_message toy_platform network_id end)
              (second ∷ first ∷ [])))
verify_governance_signatures_iff_example =
    verify_governance_signatures_iff toy_platform context end (second ∷ first ∷ [])

passes_with_both :
    verify_governance_signatures toy_platform context end (second ∷ first ∷ []) ≡ ok tt
unfolding bytes_eq digit hex digit_value add_byte unhex hash_object hash_object_hex from_hex
    decode_public_key verify governance_message is_used counts count_valid
    verify_governance_signatures
passes_with_both = refl

fails_with_one :
    verify_governance_signatures toy_platform context end (first ∷ []) ≡ raise governance_error
unfolding bytes_eq digit hex digit_value add_byte unhex hash_object hash_object_hex from_hex
    decode_public_key verify governance_message is_used counts count_valid
    verify_governance_signatures
fails_with_one = refl
