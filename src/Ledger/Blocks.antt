-- ===== src/Ledger/Blocks.antt =====
-- chainbreaker/chain.py: `Ledger.add_block_v2` with the median of past timestamps, and
-- chainbreaker/block.py: `BlockV2.verify`. The clock is an argument.
use chain_breaker.Base.{
  ℕ, ◌+◌, ◌-◌, ◌*◌, ◌/◌, Bool, true, false, not, ◌&&◌, Option, none, some, List, [], ◌∷◌, ◌++◌, map,
  Str, str_eq, length, take, drop, get_elem?, min, Result, ok, raise, ◌>>=◌, Exn, governance_error,
  registry_error, ltb, leb, ◌==◌, if◌then◌else◌,
}
use chain_breaker.Stdlib.{hex, zero_hash}
use chain_breaker.Json.{Value}
use chain_breaker.Block.{
  BlockV2, block_hash, satisfies_pow, max_target, min_target, protocol_version,
}
use chain_breaker.Platform.{Platform, hash_object}
use chain_breaker.Merkle.{root}
use chain_breaker.Schema.{validate_v2_transaction}
use chain_breaker.Retarget.{block_at, expected_target_at}
use chain_breaker.Registry.{RegistryState, registry_root}
use chain_breaker.Ledger.{make_context, parse_in_ledger, apply_transactions, state_at}

-- The fields of a `Ledger` of v2 blocks that `add_block_v2` reads or changes; the dictionary of
-- registry states has its latest entry first.
pub record Ledger : Type 0 where
  pub chain : List BlockV2
  pub registry_states : List (ℕ × RegistryState)
  pub transaction_validator : Option (Value → Bool)
  pub governance_keys : List Str
  pub governance_threshold : ℕ
  pub network_id : Str

-- `sorted` of numbers
unfoldable pub insert_number : ℕ → List ℕ → List ℕ
insert_number x [] = x ∷ []
insert_number x (y ∷ ys) =
    let behind = insert_number x ys in if ltb y x then y ∷ behind else x ∷ y ∷ ys

unfoldable pub sorted_numbers : List ℕ → List ℕ
sorted_numbers [] = []
sorted_numbers (x ∷ xs) = insert_number x (sorted_numbers xs)

-- `timestamps[(len(timestamps) - 1) // 2]`, and 0 of none
unfoldable pub middle : List ℕ → ℕ
middle times = elim (get_elem? times ((length times - 1) / 2)) [ none ↦ 0 | some t ↦ t ]

-- `Ledger.median_past_time`
unfoldable pub median_past_time : List BlockV2 → ℕ → ℕ → ℕ
median_past_time chain end count =
    let stop = min end (length chain) in
    let start = stop - count in
    middle (sorted_numbers (map (λ b. b.header.timestamp) (drop start (take stop chain))))

unfoldable pub is_ok {ℓ} : {A : Type ℓ} → Result A → Bool
is_ok (ok a) = true
is_ok (raise e) = false

-- the loop over `validate_v2_transaction`, where any exception refuses
unfoldable pub all_valid : List Value → Bool
all_valid [] = true
all_valid (tx ∷ txs) = is_ok (validate_v2_transaction tx) && all_valid txs

unfoldable pub all_pass : Option (Value → Bool) → List Value → Bool
all_pass none txs = true
all_pass (some validator) [] = true
all_pass (some validator) (tx ∷ txs) = validator tx && all_pass (some validator) txs

-- `HashEngine.hex(root) if root else "0" * 64`
unfoldable pub root_text : Option (List ℕ) → Str
root_text none = zero_hash
root_text (some []) = zero_hash
root_text (some (b ∷ bs)) = hex (b ∷ bs)

-- `except (RegistryError, GovernanceError)`
unfoldable pub is_refusal : Exn → Bool
is_refusal registry_error = true
is_refusal governance_error = true
is_refusal e = false

-- the ledger with the block appended and its state cached
unfoldable pub extended : Ledger → BlockV2 → RegistryState → Ledger
extended l block state = record l {
  chain = l.chain ++ (block ∷ []);
  registry_states = (length l.chain, state) ∷ l.registry_states;
}

module _ (p : Platform) where
  -- `BlockV2.merkle_root`
  unfoldable pub merkle_root : List Value → Str
  merkle_root [] = zero_hash
  merkle_root (tx ∷ txs) = root_text (root p.sha256 (map (hash_object p) (tx ∷ txs)))

  -- the checks of `BlockV2.verify` before the hash
  unfoldable pub is_well_formed : BlockV2 → Bool
  is_well_formed block =
      block.header.version == protocol_version
      && (leb min_target block.header.target && leb block.header.target max_target)
      && str_eq (merkle_root block.transactions) block.header.merkle_root

  -- the checks of `BlockV2.verify` behind the hash
  unfoldable pub is_timely : Str → BlockV2 → ℕ → ℕ → ℕ → Bool
  is_timely hash block now median expected =
      satisfies_pow hash block.header.target
      && block.header.target == expected
      && ltb 0 block.header.timestamp
      && leb block.header.timestamp (now + 2 * 60 * 60)
      && ltb median block.header.timestamp

  -- `BlockV2.verify`, as the ledger calls it
  unfoldable pub verify_block : Option (Value → Bool) → BlockV2 → ℕ → ℕ → ℕ → Result Bool
  verify_block validator block now median expected =
      if is_well_formed block
      then (do
        hash ← block_hash p.sha256 block
        ok (
            is_timely hash block now median expected
            && all_valid block.transactions
            && all_pass validator block.transactions))
      else ok false

  -- the structural checks of `add_block_v2`
  unfoldable pub extends : BlockV2 → Str → ℕ → Bool
  extends block prev expected =
      str_eq block.header.prev_hash prev
      && block.header.target == expected
      && block.header.version == protocol_version

  -- the end of `add_block_v2`: the block is appended with its state, or its transactions refuse it
  unfoldable pub append_block : Ledger → BlockV2 → Result RegistryState → Result (Bool × Ledger)
  append_block l block (ok state) = ok (true, extended l block state)
  append_block l block (raise x) = if is_refusal x then ok (false, l) else raise x

  -- `add_block_v2` from the registry root on
  unfoldable pub add_linked : Ledger → ℕ → BlockV2 → ℕ → Result (Bool × Ledger)
  add_linked l now block expected = do
    previous ←
        state_at p l.chain l.governance_keys l.governance_threshold l.network_id
          (length l.chain - 1)
    committed ← registry_root p previous
    (if not (str_eq block.header.registry_root committed) then ok (false, l) else (do
      verified ←
          verify_block l.transaction_validator block now
            (median_past_time l.chain (length l.chain) 11) expected
      (if not verified then ok (false, l) else (do
        context ← make_context l.governance_keys l.governance_threshold l.network_id
        append_block l block (
            apply_transactions p (parse_in_ledger l.network_id) context (length l.chain) previous
              block.transactions)))))

  -- `Ledger.add_block_v2`, with the time of the clock
  unfoldable pub add_block_v2 : Ledger → ℕ → BlockV2 → Result (Bool × Ledger)
  add_block_v2 l now block = do
    expected ← expected_target_at l.chain (length l.chain)
    last ← block_at l.chain (length l.chain - 1)
    prev ← block_hash p.sha256 last
    (if extends block prev expected then add_linked l now block expected else ok (false, l))
