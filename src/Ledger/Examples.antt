-- ===== src/Ledger/Examples.antt =====
-- A ledger of a genesis block to which a block is added, and to which one is refused.
use chain_breaker.Base.{◌≡◌, refl, true, false, none, [], ◌∷◌, bytes_eq, arith, ok}
use chain_breaker.Stdlib.{to_le, pack, digit, hex, digit_value, add_byte, unhex, encode_char, utf8}
use chain_breaker.Codec.{encode_hash, encode_fields, as_codec_error, encode_header_v2}
use chain_breaker.Platform.{from_hex, hash_single_hex, decode_public_key}
use chain_breaker.Block.{BlockV2, target_to_hex, to_dict, hex_value, satisfies_pow, header_hash}
use chain_breaker.Retarget.{block_at, expected_target_at}
use chain_breaker.Governance.{network_id, governance_schema_version}
use chain_breaker.Registry.{
  RegistryState, to_bytes, sorted_by_id, insert_by_id, encode_varint, encode_str, serialize_records,
  serialize_keys, serialize_registry_state, registry_root,
}
use chain_breaker.Ledger.{
  contains, check_keys, make_context, check_genesis_keys, genesis, genesis_state,
  apply_transactions, replay_from, state_at,
}
use chain_breaker.Registry.{insert_text, sorted_texts}
use chain_breaker.Ledger.Blocks.{
  Ledger, insert_number, sorted_numbers, middle, median_past_time, is_ok, all_valid, all_pass,
  merkle_root, is_well_formed, is_timely, verify_block, extends, extended, append_block, add_linked,
  add_block_v2,
}
use chain_breaker.Ledger.Extension.{
  IsAppended, IsValidNext, add_block_v2-refused, add_block_v2-accepted,
}
use chain_breaker.Ledger.Invariant.{IsConsistent, add_block_v2-IsConsistent}
use chain_breaker.Toys.{toy_key, digest, last_byte_platform, mined, genesis_block}

abbrev start : RegistryState
start = record {
  records = [];
  governance_version = governance_schema_version;
  network_id = network_id;
  governance_keys = toy_key 11 ∷ [];
  threshold = 1;
}

abbrev ledger : Ledger
ledger = record {
  chain = genesis_block ∷ [];
  registry_states = (0, start) ∷ [];
  transaction_validator = none;
  governance_keys = toy_key 11 ∷ [];
  governance_threshold = 1;
  network_id = network_id;
}

abbrev next_block : BlockV2
next_block = mined (hex (digest 1)) 2

abbrev unlinked_block : BlockV2
unlinked_block = mined (hex (digest 9)) 2

abbrev longer : Ledger
longer = record ledger {
  chain = genesis_block ∷ next_block ∷ [];
  registry_states = (1, start) ∷ (0, start) ∷ [];
}

unfoldable program : Unit {0}
unfolding bytes_eq to_le pack digit hex digit_value add_byte unhex encode_char utf8 encode_hash
    encode_fields as_codec_error encode_header_v2 from_hex hash_single_hex decode_public_key
    target_to_hex to_dict hex_value satisfies_pow header_hash block_at expected_target_at to_bytes
    sorted_by_id insert_by_id encode_varint encode_str serialize_records serialize_keys
    serialize_registry_state registry_root contains check_keys make_context insert_text sorted_texts
    check_genesis_keys genesis genesis_state apply_transactions replay_from state_at insert_number
    sorted_numbers middle median_past_time is_ok all_valid all_pass merkle_root is_well_formed
    is_timely verify_block extends extended append_block add_linked add_block_v2
program = tt

accepts : add_block_v2 last_byte_platform ledger 1000 next_block ≡ ok (true, longer)
unfolding program
accepts = refl

refuses : add_block_v2 last_byte_platform ledger 1000 unlinked_block ≡ ok (false, ledger)
unfolding program
refuses = refl

ledger-IsConsistent : IsConsistent last_byte_platform ledger
unfolding program
ledger-IsConsistent = ((omega arith, omega arith, tt), (omega arith, refl, tt))

add_block_v2-refused_example : ledger ≡ ledger
add_block_v2-refused_example =
    add_block_v2-refused last_byte_platform ledger 1000 unlinked_block ledger refuses

add_block_v2-accepted_example :
    IsAppended last_byte_platform ledger next_block longer
    × IsValidNext last_byte_platform ledger 1000 next_block
add_block_v2-accepted_example =
    add_block_v2-accepted last_byte_platform ledger 1000 next_block longer accepts

add_block_v2-IsConsistent_example : IsConsistent last_byte_platform longer
add_block_v2-IsConsistent_example =
    add_block_v2-IsConsistent last_byte_platform ledger 1000 next_block true longer
      ledger-IsConsistent accepts
