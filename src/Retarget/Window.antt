-- ===== src/Retarget/Window.antt =====
-- The time that the retarget window of chainbreaker/chain.py spans.
use chain_breaker.Base.{ℕ, ◌+◌, ◌-◌, ◌*◌, ◌≤◌, ◌<◌, ◌≡◌, List, ok, arith}
use chain_breaker.Block.{BlockV2, max_target}
use chain_breaker.Retarget.{
  block_at, clamp_target, scaled_target, retarget, target_block_time, retarget_interval,
}

scaled_target_drift : (prev : ℕ) → 2 ≤ prev → prev ≤ max_target → scaled_target prev 5400 < prev
unfolding scaled_target clamp_target
scaled_target_drift prev low high = omega arith

-- When the ten blocks before a boundary stand exactly `TARGET_BLOCK_TIME` apart, so that the last
-- is nine intervals after the first, the new target is strictly below the old one (which is at
-- least 2 and in bounds): at the intended rate of blocks each retarget makes mining harder.
pub retarget_drift :
    (chain : List BlockV2) (height : ℕ) (a b : BlockV2)
    → 10 ≤ height
    → block_at chain (height - retarget_interval) ≡ ok a
    → block_at chain (height - 1) ≡ ok b
    → b.header.timestamp ≡ a.header.timestamp + 9 * target_block_time
    → 2 ≤ b.header.target
    → b.header.target ≤ max_target
    → (t : ℕ) × (retarget chain height ≡ ok t) × (t < b.header.target)
unfolding retarget
retarget_drift chain height a b h ea eb spacing low high =
    let elapsed : b.header.timestamp - a.header.timestamp ≡ 5400 = omega arith in
    let small = scaled_target_drift b.header.target low high in
    (scaled_target b.header.target 5400, rw (ea, eb, elapsed) (ground arith), small)
