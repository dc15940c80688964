-- ===== src/Retarget.antt =====
-- The proof-of-work target of each height: `Ledger.expected_target_at` and `Ledger.retarget` of
-- chainbreaker/chain.py. Timestamps are natural numbers, so a time that runs backwards is the
-- difference 0, which the code treats as it treats a negative one.
pub mod Bounds
pub mod Window
mod Examples
use chain_breaker.Base.{
  ℕ, zero, suc, ◌+◌, ◌-◌, ◌*◌, ◌/◌, ◌%◌, min, max, Option, none, some, List, Result, ok, raise,
  ◌>>=◌, index_error, Exn, get_elem?, ltb, leb, ◌==◌, not, if◌then◌else◌,
}
use chain_breaker.Block.{BlockV2, max_target, min_target, genesis_target}

abbrev pub target_block_time : ℕ
target_block_time = 600

abbrev pub retarget_interval : ℕ
retarget_interval = 10

abbrev pub max_retarget_factor : ℕ
max_retarget_factor = 4

-- `self.chain[index]` for an index that is not negative
unfoldable pub block_at : List BlockV2 → ℕ → Result BlockV2
block_at chain index = elim (get_elem? chain index) [ none ↦ raise index_error | some b ↦ ok b ]

-- The two clamps: to the absolute bounds, then to a factor of four of the previous target.
unfoldable pub clamp_target : ℕ → ℕ → ℕ
clamp_target prev_target new_target =
    let bounded = max min_target (min max_target new_target) in
    let max_allowed = prev_target * max_retarget_factor in
    let min_allowed = prev_target / max_retarget_factor in max min_allowed (min max_allowed bounded)

-- The new target from the old one and the time that the window took.
unfoldable pub scaled_target : ℕ → ℕ → ℕ
scaled_target prev_target elapsed =
    let actual_time = if leb elapsed 0 then 1 else elapsed in
    let expected_time = target_block_time * retarget_interval in
    clamp_target prev_target ((prev_target * actual_time) / expected_time)

-- `Ledger.retarget`
unfoldable pub retarget : List BlockV2 → ℕ → Result ℕ
retarget chain height = if ltb height retarget_interval then ok genesis_target else (do
  first_block ← block_at chain (height - retarget_interval)
  last_block ← block_at chain (height - 1)
  ok (
      scaled_target last_block.header.target
        (last_block.header.timestamp - first_block.header.timestamp)))

-- `Ledger.expected_target_at`
unfoldable pub expected_target_at : List BlockV2 → ℕ → Result ℕ
expected_target_at chain height =
    if leb height 0
    then ok genesis_target
    else if ltb height retarget_interval
    then (do b ← block_at chain 0; ok b.header.target)
    else if not (height % retarget_interval == 0)
    then (do b ← block_at chain (height - 1); ok b.header.target)
    else retarget chain height
