-- ===== src/Reorg.antt =====
-- chainbreaker/reorg.py: the comparison of a candidate branch with the current chain, and the
-- decision to switch.
pub mod Ancestor
pub mod Switch
pub mod Comparison
mod Examples
use chain_breaker.Base.{
  ℕ, zero, suc, ◌+◌, ◌-◌, Bool, true, false, not, ◌&&◌, Option, none, some, List, [], ◌∷◌, map,
  Bytes, Str, str_eq, length, get_elem?, take, drop, replicate, Result, ok, raise, ◌>>=◌, ◌>>◌,
  raise_if, Exn, governance_error, registry_error, reorg_error, index_error, ltb, leb, ◌==◌,
  if◌then◌else◌, min,
}
use chain_breaker.Stdlib.{hex}
use chain_breaker.Json.{Value}
use chain_breaker.Block.{BlockV2, block_hash, satisfies_pow, genesis_target}
use chain_breaker.Platform.{Platform, hash_object}
use chain_breaker.Merkle.{root}
use chain_breaker.Work.{branch_work, compare_work, Decision, candidate_wins, current_wins, tie}
use chain_breaker.Retarget.{block_at, expected_target_at}
use chain_breaker.Governance.{network_id, GovernanceContext}
use chain_breaker.Governance.Parse.{parse_in_reorg}
use chain_breaker.Registry.{RegistryState, registry_root}
use chain_breaker.Ledger.{make_context, genesis, apply_transactions, replay_from, state_at}

pub data Reason : Type 0 where
  empty_candidate genesis_mismatch too_deep validation_failed not_more_work accepted : Reason

-- `ReorgResult`, with the kind of its reason
pub record ReorgResult : Type 0 where
  pub switched : Bool
  pub old_tip_height : ℕ
  pub old_tip_hash : Str
  pub new_tip_height : ℕ
  pub new_tip_hash : Str
  pub common_ancestor_height : ℕ
  pub disconnect_heights : List ℕ
  pub connect_heights : List ℕ
  pub reason : Reason

-- The fields of a `ReorgEngine`; `network` is the network of its identity.
pub record ReorgEngine : Type 0 where
  pub current_chain : List BlockV2
  pub governance_keys : List Str
  pub governance_threshold : ℕ
  pub max_reorg_depth : Option ℕ
  pub network : Str

-- `list(range(first, first + count))`
unfoldable pub heights_from : ℕ → ℕ → List ℕ
heights_from first zero = []
heights_from first (suc count) = first ∷ heights_from (first + 1) count

-- `root or bytes(32)`
unfoldable pub or_zeros : Option Bytes → Bytes
or_zeros none = replicate 32 0
or_zeros (some []) = replicate 32 0
or_zeros (some (b ∷ bs)) = b ∷ bs

-- `except GovernanceError: raise ReorgError`
unfoldable pub governance_to_reorg {ℓ} : {A : Type ℓ} → Result A → Result A
governance_to_reorg (ok a) = ok a
governance_to_reorg (raise governance_error) = raise reorg_error
governance_to_reorg (raise e) = raise e

-- `isinstance(exc, ReorgError)`
unfoldable pub is_reorg_error : Exn → Bool
is_reorg_error reorg_error = true
is_reorg_error e = false

-- `expected_targets[idx]`
unfoldable pub target_at : List ℕ → ℕ → Result ℕ
target_at targets idx = elim (get_elem? targets idx) [ none ↦ raise index_error | some t ↦ ok t ]

module _ (p : Platform) where
  -- The loop of `find_common_ancestor`, from a height down to 0.
  unfoldable pub walk_back : List BlockV2 → List BlockV2 → ℕ → Result ℕ
  walk_back current candidate zero = do
    a ← block_at current 0
    b ← block_at candidate 0
    x ← block_hash p.sha256 a
    y ← block_hash p.sha256 b
    ok 0
  walk_back current candidate (suc h) = do
    a ← block_at current (suc h)
    b ← block_at candidate (suc h)
    x ← block_hash p.sha256 a
    y ← block_hash p.sha256 b
    (let below = walk_back current candidate h in if str_eq x y then ok (suc h) else below)

  -- `find_common_ancestor`
  unfoldable pub find_common_ancestor : List BlockV2 → List BlockV2 → Result ℕ
  find_common_ancestor [] candidate = raise reorg_error
  find_common_ancestor (a ∷ current) [] = raise reorg_error
  find_common_ancestor (a ∷ current) (b ∷ candidate) = do
    x ← block_hash p.sha256 a
    y ← block_hash p.sha256 b
    raise_if (not (str_eq x y)) reorg_error
    walk_back (a ∷ current) (b ∷ candidate)
        (min (length (a ∷ current)) (length (b ∷ candidate)) - 1)

  -- the hexadecimal Merkle root of a block's transactions
  unfoldable pub transactions_root : List Value → Str
  transactions_root txs = hex (or_zeros (root p.sha256 (map (hash_object p) txs)))

  -- the linkage check: the first block of the suffix has no predecessor to be compared with
  unfoldable pub require_link : Option Str → BlockV2 → Result (Unit {0})
  require_link none block = ok tt
  require_link (some prev) block = raise_if (not (str_eq block.header.prev_hash prev)) reorg_error

  -- The checks of one block in `validate_candidate_suffix`: its hash and the state behind it.
  unfoldable pub check_block :
      GovernanceContext
      → List ℕ
      → ℕ
      → ℕ
      → RegistryState
      → Option Str
      → BlockV2
      → Result (Str × RegistryState)
  check_block context targets start idx state prev block = do
    require_link prev block
    hash ← block_hash p.sha256 block
    raise_if (not (block.header.version == 2)) reorg_error
    raise_if (not (satisfies_pow hash block.header.target)) reorg_error
    expected ← target_at targets idx
    raise_if (not (block.header.target == expected)) reorg_error
    raise_if (not (str_eq block.header.merkle_root (transactions_root block.transactions)))
        reorg_error
    committed ← registry_root p state
    raise_if (not (str_eq block.header.registry_root committed)) reorg_error
    next ←
        governance_to_reorg
          (apply_transactions p parse_in_reorg context (start + 1 + idx) state block.transactions)
    ok (hash, next)

  -- The loop of `validate_candidate_suffix`.
  unfoldable pub validate_from :
      GovernanceContext
      → List ℕ
      → ℕ
      → ℕ
      → RegistryState
      → Option Str
      → List BlockV2
      → Result (List RegistryState)
  validate_from context targets start idx state prev [] = ok []
  validate_from context targets start idx state prev (block ∷ blocks) = do
    (hash, next) ← check_block context targets start idx state prev block
    rest ← validate_from context targets start (idx + 1) next (some hash) blocks
    ok (next ∷ rest)

  -- `validate_candidate_suffix`, with the expected targets given
  unfoldable pub validate_candidate_suffix :
      RegistryState → List BlockV2 → List Str → ℕ → ℕ → List ℕ → Result (List RegistryState)
  validate_candidate_suffix state blocks keys threshold start targets = do
    context ← make_context keys threshold network_id
    validate_from context targets start 0 state none blocks

  -- `ReorgEngine._state_at`
  unfoldable pub engine_state_at : ReorgEngine → ℕ → Result RegistryState
  engine_state_at e height = do
    raise_if (leb (length e.current_chain) height) reorg_error
    state ← genesis e.governance_keys e.governance_threshold
    context ← make_context e.governance_keys e.governance_threshold network_id
    replay_from p parse_in_reorg context 1 state (take height (drop 1 e.current_chain))

  -- `ReorgEngine._expected_target_at`: within the chain by a ledger of the blocks below the height,
  -- whose constructor replays them; beyond its tip the target of the tip
  unfoldable pub engine_target_at : ReorgEngine → ℕ → Result ℕ
  engine_target_at e height =
      if leb height 0
      then ok genesis_target
      else if ltb height (length e.current_chain)
      then (do
        replayed ←
            state_at p (take height e.current_chain) e.governance_keys e.governance_threshold
              e.network (height - 1)
        expected_target_at (take height e.current_chain) height)
      else (do tip ← block_at e.current_chain (length e.current_chain - 1); ok tip.header.target)

  -- the list of the expected targets of `count` heights
  unfoldable pub engine_targets : ReorgEngine → ℕ → ℕ → Result (List ℕ)
  engine_targets e height zero = ok []
  engine_targets e height (suc count) = do
    t ← engine_target_at e height
    ts ← engine_targets e (height + 1) count
    ok (t ∷ ts)

  -- the result of an evaluation that keeps the current chain
  unfoldable pub kept : ReorgEngine → ℕ → Reason → Result ReorgResult
  kept e common reason = do
    tip ← block_at e.current_chain (length e.current_chain - 1)
    hash ← block_hash p.sha256 tip
    ok (record {
      switched = false;
      old_tip_height = length e.current_chain - 1;
      old_tip_hash = hash;
      new_tip_height = length e.current_chain - 1;
      new_tip_hash = hash;
      common_ancestor_height = common;
      disconnect_heights = [];
      connect_heights = [];
      reason = reason;
    })

  -- the result of an evaluation that switches to the candidate
  unfoldable pub switched_to : ReorgEngine → List BlockV2 → ℕ → Result ReorgResult
  switched_to e candidate common = do
    tip ← block_at e.current_chain (length e.current_chain - 1)
    old_hash ← block_hash p.sha256 tip
    new_tip ← block_at candidate (length candidate - 1)
    new_hash ← block_hash p.sha256 new_tip
    ok (record {
      switched = true;
      old_tip_height = length e.current_chain - 1;
      old_tip_hash = old_hash;
      new_tip_height = length candidate - 1;
      new_tip_hash = new_hash;
      common_ancestor_height = common;
      disconnect_heights = heights_from (common + 1) (length e.current_chain - (common + 1));
      connect_heights = heights_from (common + 1) (length candidate - (common + 1));
      reason = accepted;
    })

  -- the work comparison at the end of `evaluate_candidate`
  unfoldable pub decide : ReorgEngine → List BlockV2 → ℕ → Result ReorgResult
  decide e candidate common = do
    candidate_work ← branch_work (drop (common + 1) candidate)
    current_work ← branch_work (drop (common + 1) e.current_chain)
    elim (compare_work current_work candidate_work) [
      | candidate_wins ↦ switched_to e candidate common
      | current_wins ↦ kept e common not_more_work
      | tie ↦ kept e common not_more_work
    ]

  -- what follows the validation: `except ReorgError` catches that exception alone
  unfoldable pub after_validation :
      ReorgEngine → List BlockV2 → ℕ → Result (List RegistryState) → Result ReorgResult
  after_validation e candidate common (ok states) = decide e candidate common
  after_validation e candidate common (raise x) =
      if is_reorg_error x then kept e common validation_failed else raise x

  -- `depth > self.max_reorg_depth`
  unfoldable pub exceeds_depth : ReorgEngine → ℕ → Bool
  exceeds_depth e common = elim e.max_reorg_depth [
    | none ↦ false
    | some most ↦ ltb most (length e.current_chain - 1 - common)
  ]

  -- the validation of a candidate in scratch space
  unfoldable pub validate_in_scratch :
      ReorgEngine → List BlockV2 → ℕ → Result (Result (List RegistryState))
  validate_in_scratch e candidate common = do
    let suffix = drop (common + 1) candidate
    state ← engine_state_at e common
    targets ← engine_targets e (common + 1) (length suffix)
    ok (
        validate_candidate_suffix state suffix e.governance_keys e.governance_threshold common
          targets)

  -- `ReorgEngine.evaluate_candidate`
  unfoldable pub evaluate_candidate : ReorgEngine → List BlockV2 → Result ReorgResult
  evaluate_candidate e [] = kept e 0 empty_candidate
  evaluate_candidate e (first ∷ rest) = do
    x ← block_hash p.sha256 first
    own ← block_at e.current_chain 0
    y ← block_hash p.sha256 own
    (if not (str_eq x y) then kept e 0 genesis_mismatch else (do
      common ← find_common_ancestor e.current_chain (first ∷ rest)
      (if exceeds_depth e common then kept e common too_deep else (do
        outcome ← validate_in_scratch e (first ∷ rest) common
        after_validation e (first ∷ rest) common outcome))))
