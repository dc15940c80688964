-- ===== src/Retarget/Examples.antt =====
-- The targets of chains of ten and of nine blocks.
use chain_breaker.Base.{
  ℕ, ◌*◌, ◌/◌, ◌≤◌, ◌<◌, ◌≡◌, refl, min, max, leb, if◌then◌else◌, List, ok, raise, index_error,
  arith,
}
use chain_breaker.Block.{BlockV2, max_target, min_target}
use chain_breaker.Toys.{toy_block, spaced, spaced-AreInBounds}
use chain_breaker.Retarget.{block_at, clamp_target, scaled_target, retarget, expected_target_at}
use chain_breaker.Retarget.Bounds.{
  expected_target_at_bounds, retarget_bounds, expected_target_at_beyond, scaled_target_lem,
}
use chain_breaker.Retarget.Window.{retarget_drift}

abbrev ten : List BlockV2
ten = spaced 1000 50 10

expected_target_at_bounds_example :
    (t : ℕ) × (expected_target_at ten 10 ≡ ok t) × (min_target ≤ t) × (t ≤ max_target)
expected_target_at_bounds_example =
    expected_target_at_bounds ten 10 (spaced-AreInBounds 50 10) (omega arith) (omega arith)

retarget_bounds_example :
    (t : ℕ) × (b : BlockV2) × (retarget ten 10 ≡ ok t)
    × (block_at ten 9 ≡ ok b)
    × (min_target ≤ t)
    × (t ≤ max_target)
    × (b.header.target / 4 ≤ t)
    × (t ≤ 4 * b.header.target)
retarget_bounds_example =
    retarget_bounds ten 10 (spaced-AreInBounds 50 10) (omega arith) (omega arith)

expected_target_at_beyond_example : expected_target_at ten 11 ≡ raise index_error
expected_target_at_beyond_example = expected_target_at_beyond ten 11 (omega arith) (omega arith)

scaled_target_lem_example : scaled_target 1000 9000 ≡ (
    if leb 9000 1500
    then max min_target (1000 / 4)
    else if leb 24000 9000
    then min max_target (4 * 1000)
    else max min_target (min max_target (1000 * 9000 / 6000)))
scaled_target_lem_example = scaled_target_lem 1000 9000 (omega arith) (omega arith)

retarget_drift_example : (t : ℕ) × (retarget ten 10 ≡ ok t) × (t < 1000)
unfolding block_at
retarget_drift_example =
    retarget_drift ten 10 (toy_block 50 1000) (toy_block 5450 1000) (omega arith) refl refl refl
      (omega arith) (omega arith)

retarget_of_ten : retarget ten 10 ≡ ok 900
unfolding retarget block_at scaled_target clamp_target
retarget_of_ten = refl
