-- ===== src/Witness.antt =====
-- chainbreaker/witness.py: the attestations of version 2 and their verification against the registry
-- state at a height.
pub mod Attested
pub mod Roster
mod Examples
use chain_breaker.Base.{
  ℕ, zero, suc, Bool, true, false, not, ◌&&◌, Option, none, some, List, [], ◌∷◌, Bytes, Str, text,
  length, Result, ok, raise, attribute_error, leb, ◌==◌, if◌then◌else◌,
}
use chain_breaker.Json.{
  Value, Items, Fields, int, str, arr, obj, nil, cons, end, field, get, member,
}
use chain_breaker.Platform.{Platform, hash_object, hash_object_hex, decode_public_key, verify}
use chain_breaker.Governance.{network_id}
use chain_breaker.Registry.{RegistryState, key_was_valid_at}

-- `attestation_message_v2`
unfoldable pub attestation_message_v2 : Platform → Str → Str → ℕ → Bytes
attestation_message_v2 p body_hash curator_id block_height = hash_object p (
    obj (
      field (text "network_id") (str network_id) (
        field (text "version") (int 2) (
          field (text "type") (str (text "attestation")) (
            field (text "body_hash") (str body_hash) (
              field (text "curator_id") (str curator_id)
                (field (text "block_height") (int block_height) end)))))))

-- a text among the entries of a witness, with `none` for what is missing or no text
unfoldable pub text_at : Str → Fields → Option Str
text_at key d = elim (get key d) [ none ↦ none | some v ↦ elim v [ str s ↦ some s | other ↦ none ] ]

-- `witness_height == block_height`, of an integer that is no Boolean
unfoldable pub height_is : ℕ → Fields → Bool
height_is height d = elim (get (text "block_height") d) [
  | none ↦ false
  | some v ↦ elim v [ int n ↦ n == height | other ↦ false ]
]

-- the key and the signature, decoded and checked
unfoldable pub check_signature : Platform → Str → Str → Bytes → Bool
check_signature p key signature message = elim (decode_public_key p key) [
  | raise x ↦ false
  | ok pk ↦ verify p pk message signature
]

-- `verify_attestation_v2`, with its exceptions caught
unfoldable pub verify_attestation_v2 : Platform → RegistryState → Fields → Str → ℕ → Bool
verify_attestation_v2 p state d body_hash height = elim (text_at (text "curator_id") d) [
  | none ↦ false
  | some curator ↦ elim (text_at (text "signature") d) [
    | none ↦ false
    | some signature ↦ elim (text_at (text "public_key_hex") d) [
      | none ↦ false
      | some key ↦
          height_is height d
          && (length key == 64
              && (key_was_valid_at state curator key height
                  && check_signature p key signature
                      (attestation_message_v2 p body_hash curator height)))
    ]
  ]
]

-- The loop of `verify_transaction_witnesses_v2`: the curators seen, and the count of the valid.
unfoldable pub verify_witnesses :
    Platform → RegistryState → Str → ℕ → ℕ → List Str → ℕ → Items → Result Bool
verify_witnesses p state body_hash height least seen valid nil = ok (leb least valid)
verify_witnesses p state body_hash height least seen valid (cons (obj d) rest) =
    elim (text_at (text "curator_id") d) [
      | none ↦ ok false
      | some curator ↦ elim (member curator seen) [
        | true ↦ ok false
        | false ↦ elim (verify_attestation_v2 p state d body_hash height) [
          | false ↦ ok false
          | true ↦ verify_witnesses p state body_hash height least (curator ∷ seen) (suc valid) rest
        ]
      ]
    ]
verify_witnesses p state body_hash height least seen valid (cons other rest) = raise attribute_error

abbrev pub is_dictionary : Option Value → Bool
is_dictionary (some (obj d)) = true
is_dictionary v = false

-- `tx["body"]`, where it is there
abbrev pub body_of : Option Value → Value
body_of none = obj end
body_of (some v) = v

-- the list at a key, with `none` for what is missing or no list
abbrev pub items_at : Option Value → Option Items
items_at (some (arr items)) = some items
items_at v = none

-- `verify_transaction_witnesses_v2`
unfoldable pub verify_transaction_witnesses_v2 :
    Platform → RegistryState → Value → ℕ → ℕ → Result Bool
verify_transaction_witnesses_v2 p state (obj tx) height least =
    if not (is_dictionary (get (text "body") tx))
    then ok false
    else elim (items_at (get (text "witnesses") tx)) [
      | none ↦ ok false
      | some items ↦
          verify_witnesses p state (hash_object_hex p (body_of (get (text "body") tx))) height least
            [] 0 items
    ]
verify_transaction_witnesses_v2 p state tx height least = ok false
