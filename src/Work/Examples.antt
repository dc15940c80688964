-- ===== src/Work/Examples.antt =====
-- The two measures of work on concrete blocks.
use chain_breaker.Base.{ℕ, ◌-◌, ◌≤◌, ◌≡◌, List, [], ◌∷◌, ok, arith}
use chain_breaker.Block.{BlockV2, max_target}
use chain_breaker.Toys.{toy_block, spaced, spaced-AreInBounds}
use chain_breaker.Work.{chain_work, branch_work}
use chain_breaker.Work.Measures.{chain_work_easy, branch_work_total}

abbrev easy : List BlockV2
easy = toy_block 0 max_target ∷ toy_block 600 (max_target - 5) ∷ []

chain_work_easy_example : chain_work easy ≡ ok 2
chain_work_easy_example =
    chain_work_easy easy (omega arith, omega arith, (omega arith, omega arith, tt))

branch_work_total_example : (w : ℕ) × (branch_work (spaced 1000 0 3) ≡ ok w) × (3 ≤ w)
branch_work_total_example = branch_work_total (spaced 1000 0 3) (spaced-AreInBounds 0 3)
