-- ===== src/Ledger.antt =====
-- chainbreaker/chain.py: how the ledger replays the registry state along its chain of v2 blocks.
pub mod Blocks
pub mod Replay
pub mod Extension
pub mod Invariant
mod Examples
use chain_breaker.Base.{
  ℕ, ◌+◌, Bool, true, false, not, ◌&&◌, ◌||◌, Option, none, some, List, [], ◌∷◌, Str, str_eq, text,
  length, take, drop, Result, ok, raise, ◌>>=◌, ◌>>◌, raise_if, governance_error, registry_error,
  ledger_error, attribute_error, ltb, leb, ◌==◌, if◌then◌else◌,
}
use chain_breaker.Stdlib.{unhex}
use chain_breaker.Json.{Value, obj, null, Fields, end}
use chain_breaker.Block.{BlockV2}
use chain_breaker.Platform.{Platform, hash_object_hex, from_hex}
use chain_breaker.Governance.{
  network_id, governance_schema_version, GovernanceContext, GovernanceSignature, GovernanceTx,
  register, rotate, revoke, register_dict, rotate_dict, revoke_dict,
}
use chain_breaker.Governance.Parse.{get_default, is_text, parse_body}
use chain_breaker.Registry.{sorted_texts, RegistryState, bytes_lt}
use chain_breaker.Registry.Reducer.{apply_registry_transaction}

-- `key in seen`
unfoldable pub contains : Str → List Str → Bool
contains s [] = false
contains s (t ∷ ts) = str_eq s t || contains s ts

-- The loop of `GovernanceContext.__init__`.
unfoldable pub check_keys : List Str → List Str → Result (Unit {0})
check_keys seen [] = ok tt
check_keys seen (key ∷ keys) = do
  raise_if (contains key seen) governance_error
  raise_if (elim (unhex key) [ none ↦ true | some raw ↦ not (length raw == 32) ]) governance_error
  check_keys (key ∷ seen) keys

-- `GovernanceContext.__init__`
unfoldable pub make_context : List Str → ℕ → Str → Result GovernanceContext
make_context keys threshold network = do
  raise_if (not (leb 1 (length keys) && leb (length keys) 16)) governance_error
  check_keys [] keys
  raise_if (not (leb 1 threshold && leb threshold (length keys))) governance_error
  raise_if (length network == 0) governance_error
  ok (record { public_keys_hex = keys; threshold = threshold; network_id = network })

unfoldable pub check_genesis_keys : List Str → Result (Unit {0})
check_genesis_keys [] = ok tt
check_genesis_keys (key ∷ keys) = do
  raw ← from_hex key
  raise_if (not (length raw == 32)) registry_error
  check_genesis_keys keys

-- `RegistryState.genesis`
unfoldable pub genesis : List Str → ℕ → Result RegistryState
genesis keys threshold = do
  raise_if (length keys == 0) registry_error
  raise_if (not (leb 1 threshold && leb threshold (length keys))) registry_error
  check_genesis_keys keys
  ok (record {
    records = [];
    governance_version = governance_schema_version;
    network_id = network_id;
    governance_keys = sorted_texts keys;
    threshold = threshold;
  })

-- `RegistryState.with_network_id`
unfoldable pub with_network_id : RegistryState → Str → RegistryState
with_network_id state network = record state { network_id = network }

-- `genesis`, moved to the ledger's network if that is not the alpha network
unfoldable pub genesis_state : List Str → ℕ → Str → Result RegistryState
genesis_state keys threshold network = do
  state ← genesis keys threshold
  ok (if str_eq network network_id then state else with_network_id state network)

-- `sorted(signatures, key=lambda s: s["key_index"])`, which is stable
unfoldable pub insert_signature :
    GovernanceSignature → List GovernanceSignature → List GovernanceSignature
insert_signature s [] = s ∷ []
insert_signature s (t ∷ ts) =
    let behind = insert_signature s ts in
    if ltb t.key_index s.key_index then t ∷ behind else s ∷ t ∷ ts

unfoldable pub sorted_signatures : List GovernanceSignature → List GovernanceSignature
sorted_signatures [] = []
sorted_signatures (s ∷ ss) = insert_signature s (sorted_signatures ss)

-- the dictionary of a transaction, with its signatures sorted
unfoldable pub canonical_dict : GovernanceTx → Fields
canonical_dict (register tx) =
    register_dict (record tx { governance_signatures = sorted_signatures tx.governance_signatures })
canonical_dict (rotate tx) =
    rotate_dict (record tx { governance_signatures = sorted_signatures tx.governance_signatures })
canonical_dict (revoke tx) =
    revoke_dict (record tx { governance_signatures = sorted_signatures tx.governance_signatures })

-- `Ledger._parse_governance_transaction`, where a missing body is `{}`
unfoldable pub parse_in_ledger : Str → Value → Result (Option GovernanceTx)
parse_in_ledger network (obj d) =
    if is_text (get_default (text "type") null d) (text "governance")
    then elim (get_default (text "body") (obj end) d) [
      | obj body ↦ parse_body network body
      | _ ↦ raise attribute_error
    ]
    else ok none
parse_in_ledger network _ = ok none

module _ (p : Platform) where
  -- `_canonical_txid(parsed.to_dict())`
  unfoldable pub canonical_txid : GovernanceTx → Str
  canonical_txid tx = hash_object_hex p (obj (canonical_dict tx))

  -- The loop of `_apply_transactions`, in the ledger and in the reorg engine, over their parsers.
  unfoldable pub apply_transactions :
      (Value → Result (Option GovernanceTx))
      → GovernanceContext
      → ℕ
      → RegistryState
      → List Value
      → Result RegistryState
  apply_transactions parse context height state [] = ok state
  apply_transactions parse context height state (tx ∷ txs) = do
    parsed ← parse tx
    next ← elim parsed [
      | none ↦ ok state
      | some t ↦ apply_registry_transaction p state height (canonical_txid t) context t
    ]
    apply_transactions parse context height next txs

  -- The loops over heights: the state behind each of the blocks, the first at `height`.
  unfoldable pub replay_from :
      (Value → Result (Option GovernanceTx))
      → GovernanceContext
      → ℕ
      → RegistryState
      → List BlockV2
      → Result RegistryState
  replay_from parse context height state [] = ok state
  replay_from parse context height state (block ∷ blocks) = do
    next ← apply_transactions parse context height state block.transactions
    replay_from parse context (height + 1) next blocks

  -- `Ledger._state_at`, by the ledger's chain, keys, threshold and network
  unfoldable pub state_at : List BlockV2 → List Str → ℕ → Str → ℕ → Result RegistryState
  state_at chain keys threshold network height = do
    context ← make_context keys threshold network
    raise_if (leb (length chain) height) ledger_error
    state ← genesis_state keys threshold network
    replay_from (parse_in_ledger network) context 1 state (take height (drop 1 chain))
