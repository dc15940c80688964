-- ===== src/Work.antt =====
-- The two measures of work: `work_for_target_v2` of chainbreaker/crypto.py, which
-- `Ledger.chain_work` sums, and `compute_work` of chainbreaker/reorg.py, which `branch_work` sums.
pub mod Measures
mod Examples
use chain_breaker.Base.{
  ℕ, suc, ◌+◌, ◌/◌, ◌^◌, List, [], ◌∷◌, Result, ok, raise, ◌>>=◌, value_error, reorg_error, Exn,
  ltb, leb, if◌then◌else◌,
}
use chain_breaker.Block.{BlockV2, max_target}

-- `work_for_target_v2`
unfoldable pub work_for_target_v2 : ℕ → Result ℕ
work_for_target_v2 target = if leb target 0 then raise value_error else ok (max_target / target)

-- the loop of `Ledger.chain_work`, over v2 blocks
unfoldable pub chain_work_from : ℕ → List BlockV2 → Result ℕ
chain_work_from total [] = ok total
chain_work_from total (block ∷ rest) = do
  work ← work_for_target_v2 block.header.target
  chain_work_from (total + work) rest

-- `Ledger.chain_work`
unfoldable pub chain_work : List BlockV2 → Result ℕ
chain_work chain = chain_work_from 0 chain

-- `compute_work`
unfoldable pub compute_work : ℕ → Result ℕ
compute_work target = if leb target 0 then raise reorg_error else ok (2 ^ 256 / (target + 1))

-- the loop of `branch_work`
unfoldable pub branch_work_from : ℕ → List BlockV2 → Result ℕ
branch_work_from total [] = ok total
branch_work_from total (block ∷ rest) = do
  work ← compute_work block.header.target
  branch_work_from (total + work) rest

-- `branch_work`
unfoldable pub branch_work : List BlockV2 → Result ℕ
branch_work blocks = branch_work_from 0 blocks

-- the answers of `compare_work`
pub data Decision : Type 0 where
  candidate_wins current_wins tie : Decision

-- `compare_work`
unfoldable pub compare_work : ℕ → ℕ → Decision
compare_work current_work candidate_work =
    if ltb current_work candidate_work
    then candidate_wins
    else if ltb candidate_work current_work
    then current_wins
    else tie
