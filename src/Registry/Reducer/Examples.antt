-- ===== src/Registry/Reducer/Examples.antt =====
-- A registration, a rotation and a revocation of a curator, and the theorems at these transactions.
use chain_breaker.Base.{
  ◌≤◌, ◌<◌, ◌≡◌, refl, true, ◌&&◌, none, some, List, [], ◌∷◌, text, ok, arith, ltb, leb,
  if◌then◌else◌, bytes_eq,
}
use chain_breaker.Stdlib.{to_le, digit, hex, digit_value, add_byte, unhex, encode_char, utf8}
use chain_breaker.Platform.{
  from_hex, hash_object, hash_object_hex, hash_single_hex, decode_public_key, verify,
}
use chain_breaker.Governance.{
  GovernanceSignature, GovernanceContext, rotate, CuratorRegisterTx, CuratorRotateTx,
  CuratorRevokeTx, network_id, governance_schema_version, signature_dicts, metadata_field,
  register_dict, rotate_dict, revoke_dict, without, is_used, governance_message, counts,
  count_valid, verify_governance_signatures,
}
use chain_breaker.Registry.{
  CuratorRecord, RegistryState, with_defaults, is_active_at, matches, others, latest, latest_of,
  by_id, is_active, active_key_at, is_previous, attests, any_attests, key_was_valid_at, bytes_lt,
  insert_by_id, sorted_by_id, to_bytes, encode_varint, encode_str, optional_hash, serialize_record,
  serialize_records, serialize_keys, serialize_registry_state, registry_root,
}
use chain_breaker.Registry.Reducer.{
  require_not_registered, require_public_key_unused, require_active_record, keep, registered,
  retired, rotated, verify_curator_signature, require_root, apply_register, apply_rotate,
  apply_revoke, apply_registry_transaction,
}
use chain_breaker.Registry.Reducer.Effects.{apply_registry_transaction-others}
use chain_breaker.Registry.Reducer.Keys.{KeysOwned}
use chain_breaker.Registry.Reducer.Ownership.{apply_registry_transaction-KeysOwned}
use chain_breaker.Registry.Reducer.History.{
  apply_register_activates, apply_rotate_gap, key_was_valid_at-apply_rotate, is_active-apply_revoke,
}
use chain_breaker.Registry.Reducer.Reuse.{apply_revoke-frees_previous_key}
use chain_breaker.Toys.{toy_platform, toy_hash, toy_key, toy_signature}

abbrev context : GovernanceContext
context = record {
  public_keys_hex = toy_key 11 ∷ toy_key 12 ∷ [];
  threshold = 2;
  network_id = network_id;
}

abbrev signatures : List GovernanceSignature
signatures =
    record { key_index = 1; signature_hex = toy_signature 12 }
    ∷ record { key_index = 0; signature_hex = toy_signature 11 }
    ∷ []

abbrev empty : RegistryState
empty = record {
  records = [];
  governance_version = governance_schema_version;
  network_id = network_id;
  governance_keys = toy_key 11 ∷ toy_key 12 ∷ [];
  threshold = 2;
}

abbrev join : CuratorRegisterTx
join = record {
  curator_id = text "ann";
  public_key_hex = toy_key 21;
  activation_height = 20;
  display_metadata_hash = none;
  previous_registry_root = toy_hash;
  governance_signatures = signatures;
  network_id = network_id;
  schema_version = 1;
}

abbrev change : CuratorRotateTx
change = record {
  curator_id = text "ann";
  public_key_hex = toy_key 21;
  new_public_key_hex = toy_key 22;
  activation_height = 30;
  display_metadata_hash = none;
  previous_registry_root = toy_hash;
  governance_signatures = signatures;
  curator_signature_hex = toy_signature 21;
  network_id = network_id;
  schema_version = 1;
}

abbrev leave : CuratorRevokeTx
leave = record {
  curator_id = text "ann";
  public_key_hex = toy_key 21;
  revocation_height = 40;
  reason_code = text "left";
  previous_registry_root = toy_hash;
  governance_signatures = signatures;
  curator_signature_hex = toy_signature 21;
  network_id = network_id;
  schema_version = 1;
}

abbrev ann : CuratorRecord
ann = record {
  curator_id = text "ann";
  public_key_hex = toy_key 21;
  activation_height = 20;
  revocation_height = none;
  previous_key_hex = none;
  registration_txid = toy_hash;
  latest_rotation_txid = none;
}

abbrev joined : RegistryState
joined = record empty { records = ann ∷ [] }

abbrev changed : RegistryState
changed = record empty {
  records =
      record ann { revocation_height = some 30; latest_rotation_txid = some toy_hash }
      ∷ record ann {
        public_key_hex = toy_key 22;
        activation_height = 30;
        previous_key_hex = some (toy_key 21);
        latest_rotation_txid = some toy_hash;
      }
      ∷ [];
}

abbrev left : RegistryState
left = record {
  records = record ann { revocation_height = some 40; latest_rotation_txid = some toy_hash } ∷ [];
  governance_version = governance_schema_version;
  network_id = network_id;
  governance_keys = [];
  threshold = 0;
}

unfoldable program : Unit {0}
unfolding bytes_eq to_le digit hex digit_value add_byte unhex encode_char utf8 from_hex hash_object
    hash_object_hex hash_single_hex decode_public_key verify signature_dicts metadata_field
    register_dict rotate_dict revoke_dict without is_used governance_message counts count_valid
    verify_governance_signatures with_defaults is_active_at matches others latest latest_of by_id
    is_active active_key_at is_previous attests any_attests key_was_valid_at bytes_lt insert_by_id
    sorted_by_id to_bytes encode_varint encode_str optional_hash serialize_record serialize_records
    serialize_keys serialize_registry_state registry_root require_not_registered
    require_public_key_unused require_active_record keep registered retired rotated
    verify_curator_signature require_root apply_register apply_rotate apply_revoke
    apply_registry_transaction
program = tt

joins : apply_register toy_platform empty 10 toy_hash context join ≡ ok joined
unfolding program
joins = refl

changes : apply_rotate toy_platform joined 25 toy_hash context change ≡ ok changed
unfolding program
changes = refl

leaves : apply_revoke toy_platform joined 25 toy_hash context leave ≡ ok left
unfolding program
leaves = refl

apply_registry_transaction-others_example :
    (matches (text "bob") changed.records ≡ matches (text "bob") joined.records)
    × (by_id changed (text "bob") ≡ by_id joined (text "bob"))
    × (key_was_valid_at changed (text "bob") (toy_key 23) 50
        ≡ key_was_valid_at joined (text "bob") (toy_key 23) 50)
unfolding program
apply_registry_transaction-others_example =
    apply_registry_transaction-others toy_platform joined 25 toy_hash context (rotate change)
      changed (text "bob") (toy_key 23) 50 changes refl

apply_registry_transaction-KeysOwned_example : KeysOwned changed.records
unfolding apply_registry_transaction
apply_registry_transaction-KeysOwned_example =
    apply_registry_transaction-KeysOwned toy_platform joined 25 toy_hash context (rotate change)
      changed (tt, tt) changes

apply_register_activates_example :
    (10 < 20)
    × (active_key_at joined (text "ann") 19 ≡ (if leb 20 19 then some (toy_key 21) else none))
    × (key_was_valid_at joined (text "ann") (toy_key 21) 19 ≡ leb 20 19)
apply_register_activates_example =
    apply_register_activates toy_platform empty 10 toy_hash context join joined 19 joins

apply_rotate_gap_example :
    (old : CuratorRecord) × (by_id joined (text "ann") ≡ some old)
    × (active_key_at changed (text "ann") 27
        ≡ (if ltb old.activation_height 30 && leb 30 27 then some (toy_key 22) else none))
apply_rotate_gap_example =
    apply_rotate_gap toy_platform joined 25 toy_hash context change changed 27 changes

key_was_valid_at-apply_rotate_example : key_was_valid_at changed (text "ann") (toy_key 21) 5 ≡ true
key_was_valid_at-apply_rotate_example =
    key_was_valid_at-apply_rotate toy_platform joined 25 toy_hash context change changed 5 changes
      (omega arith)

is_active-apply_revoke_example :
    (old : CuratorRecord) × (by_id joined (text "ann") ≡ some old)
    × (25 < 40)
    × (old.activation_height ≤ 40)
    × (is_active left (text "ann") 30 ≡ leb old.activation_height 30 && ltb 30 40)
is_active-apply_revoke_example =
    is_active-apply_revoke toy_platform joined 25 toy_hash context leave left 30 leaves

-- The revocation of the curator's second key.
abbrev resign : CuratorRevokeTx
resign = record leave { public_key_hex = toy_key 22; curator_signature_hex = toy_signature 22 }

abbrev resigned : RegistryState
resigned = record left {
  records =
      record ann {
        public_key_hex = toy_key 22;
        activation_height = 30;
        revocation_height = some 40;
        previous_key_hex = some (toy_key 21);
        latest_rotation_txid = some toy_hash;
      }
      ∷ [];
}

resigns : apply_revoke toy_platform changed 35 toy_hash context resign ≡ ok resigned
unfolding program
resigns = refl

apply_revoke-frees_previous_key_example :
    (require_not_registered resigned.records (text "bob") (toy_key 21) ≡ ok tt)
    × ((r : CuratorRecord) × (by_id resigned (text "ann") ≡ some r)
        × (r.previous_key_hex ≡ some (toy_key 21)))
unfolding program
apply_revoke-frees_previous_key_example =
    apply_revoke-frees_previous_key toy_platform joined 25 35 toy_hash toy_hash context context
      change resign changed resigned (text "bob") (tt, tt) changes resigns refl refl refl
