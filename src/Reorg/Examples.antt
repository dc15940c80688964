-- ===== src/Reorg/Examples.antt =====
-- A chain of two blocks, a candidate of three that forks off behind the genesis block, and the
-- engine's switch to it.
use chain_breaker.Base.{
  ℕ, ◌-◌, ◌≤◌, ◌<◌, ◌≡◌, refl, true, false, some, List, [], ◌∷◌, bytes_eq, ok, length, min,
}
use chain_breaker.Stdlib.{to_le, pack, digit, hex, digit_value, add_byte, unhex, encode_char, utf8}
use chain_breaker.Codec.{encode_hash, encode_fields, as_codec_error, encode_header_v2}
use chain_breaker.Platform.{from_hex, hash_single_hex, decode_public_key}
use chain_breaker.Block.{BlockV2, target_to_hex, to_dict, hex_value, satisfies_pow, header_hash}
use chain_breaker.Merkle.{levels, top, root}
use chain_breaker.Work.{compute_work, branch_work_from, branch_work, compare_work}
use chain_breaker.Retarget.{block_at, expected_target_at}
use chain_breaker.Governance.{network_id}
use chain_breaker.Registry.{
  RegistryState, to_bytes, sorted_by_id, insert_by_id, encode_varint, encode_str, serialize_records,
  serialize_keys, serialize_registry_state, registry_root,
}
use chain_breaker.Ledger.{
  contains, check_keys, make_context, check_genesis_keys, genesis, genesis_state,
  apply_transactions, replay_from, state_at,
}
use chain_breaker.Registry.{insert_text, sorted_texts}
use chain_breaker.Reorg.{
  ReorgEngine, ReorgResult, accepted, not_more_work, kept, heights_from, or_zeros,
  governance_to_reorg, target_at, walk_back, find_common_ancestor, transactions_root, require_link,
  check_block, validate_from, validate_candidate_suffix, engine_state_at, engine_target_at,
  engine_targets, switched_to, decide, after_validation, exceeds_depth, validate_in_scratch,
  evaluate_candidate,
}
use chain_breaker.Reorg.Ancestor.{Agree, Differ, find_common_ancestor_lem}
use chain_breaker.Reorg.Switch.{HasMoreWork, evaluate_candidate_switches}
use chain_breaker.Reorg.Comparison.{Compares, evaluate_candidate-Compares}
use chain_breaker.Toys.{toy_key, digest, last_byte_platform, mined, genesis_block}

abbrev current : List BlockV2
current = genesis_block ∷ mined (hex (digest 1)) 2 ∷ []

abbrev candidate : List BlockV2
candidate = genesis_block ∷ mined (hex (digest 1)) 3 ∷ mined (hex (digest 3)) 4 ∷ []

abbrev engine : ReorgEngine
engine = record {
  current_chain = current;
  governance_keys = toy_key 11 ∷ [];
  governance_threshold = 1;
  max_reorg_depth = some 1;
  network = network_id;
}

abbrev outcome : ReorgResult
outcome = record {
  switched = true;
  old_tip_height = 1;
  old_tip_hash = hex (digest 2);
  new_tip_height = 2;
  new_tip_hash = hex (digest 4);
  common_ancestor_height = 0;
  disconnect_heights = 1 ∷ [];
  connect_heights = 1 ∷ 2 ∷ [];
  reason = accepted;
}

unfoldable program : Unit {0}
unfolding bytes_eq to_le pack digit hex digit_value add_byte unhex encode_char utf8 encode_hash
    encode_fields as_codec_error encode_header_v2 from_hex hash_single_hex decode_public_key
    target_to_hex to_dict hex_value satisfies_pow header_hash levels top root compute_work
    branch_work_from branch_work compare_work block_at expected_target_at to_bytes sorted_by_id
    insert_by_id encode_varint encode_str serialize_records serialize_keys serialize_registry_state
    registry_root contains check_keys make_context insert_text sorted_texts check_genesis_keys
    genesis genesis_state apply_transactions replay_from state_at heights_from or_zeros
    governance_to_reorg target_at walk_back find_common_ancestor transactions_root require_link
    check_block validate_from validate_candidate_suffix engine_state_at engine_target_at
    engine_targets switched_to decide after_validation exceeds_depth validate_in_scratch
    evaluate_candidate
program = tt

forks_at_genesis : find_common_ancestor last_byte_platform current candidate ≡ ok 0
unfolding program
forks_at_genesis = refl

switches : evaluate_candidate last_byte_platform engine candidate ≡ ok outcome
unfolding program
switches = refl

find_common_ancestor_lem_example :
    (0 ≤ min 2 3 - 1)
    × Agree last_byte_platform current candidate 0
    × ((i : ℕ) → 0 < i → i ≤ min 2 3 - 1 → Differ last_byte_platform current candidate i)
find_common_ancestor_lem_example =
    find_common_ancestor_lem last_byte_platform current candidate 0 forks_at_genesis

evaluate_candidate_switches_example :
    (common : ℕ) × (states : List RegistryState) × (find_common_ancestor last_byte_platform current
        candidate
      ≡ ok common)
    × (exceeds_depth last_byte_platform engine common ≡ false)
    × (validate_in_scratch last_byte_platform engine candidate common ≡ ok (ok states))
    × HasMoreWork last_byte_platform engine candidate common
    × (outcome.common_ancestor_height ≡ common)
    × (outcome.new_tip_height ≡ length candidate - 1)
evaluate_candidate_switches_example =
    evaluate_candidate_switches last_byte_platform engine candidate outcome switches refl

-- A candidate of the current chain's work, whose tip has another hash.
abbrev tied : List BlockV2
tied = genesis_block ∷ mined (hex (digest 1)) 3 ∷ []

abbrev stays : ReorgResult
stays = record {
  switched = false;
  old_tip_height = 1;
  old_tip_hash = hex (digest 2);
  new_tip_height = 1;
  new_tip_hash = hex (digest 2);
  common_ancestor_height = 0;
  disconnect_heights = [];
  connect_heights = [];
  reason = not_more_work;
}

evaluate_candidate-Compares_example : Compares last_byte_platform engine tied 0 65537 65537 stays
unfolding program kept
evaluate_candidate-Compares_example =
    evaluate_candidate-Compares last_byte_platform engine tied 0 65537 65537 _ stays refl refl refl
      refl refl refl
