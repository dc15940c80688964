-- ===== src/Work/Measures.antt =====
-- The two measures of work of chainbreaker/chain.py and chainbreaker/reorg.py, on blocks in
-- bounds.
use chain_breaker.Base.{
  ℕ, ◌+◌, ◌*◌, ◌/◌, ◌^◌, ◌≤◌, ◌<◌, ◌≡◌, refl, List, [], ◌∷◌, ok, length, arith, ◌∙◌, ap,
}
use chain_breaker.Block.{BlockV2, max_target, min_target}
use chain_breaker.Retarget.Bounds.{AreInBounds}
use chain_breaker.Work.{
  work_for_target_v2, chain_work_from, chain_work, compute_work, branch_work_from, branch_work,
}

-- Every target lies above half of the greatest one.
abbrev pub AreEasy : List BlockV2 → Type 0
AreEasy [] = Unit
AreEasy (b ∷ chain) =
    (max_target < 2 * b.header.target) × (b.header.target ≤ max_target) × AreEasy chain

easy_work : (t : ℕ) → max_target < 2 * t → t ≤ max_target → work_for_target_v2 t ≡ ok 1
unfolding work_for_target_v2
easy_work t low high = let one : max_target / t ≡ 1 = grind arith in ground (arith, one)

chain_work_from_easy :
    (chain : List BlockV2) (total : ℕ)
    → AreEasy chain
    → chain_work_from total chain ≡ ok (total + length chain)
unfolding chain_work_from
chain_work_from_easy [] total h = ground arith
chain_work_from_easy (b ∷ chain) total h =
    rw (easy_work b.header.target h.0 h.1)
      (chain_work_from_easy chain (total + 1) h.2 ∙ ap ok (omega arith))

-- On a chain of which every target lies above half of `MAX_TARGET` and not beyond it,
-- `chain_work` counts the blocks, whatever their targets are.
pub chain_work_easy : (chain : List BlockV2) → AreEasy chain → chain_work chain ≡ ok (length chain)
unfolding chain_work
chain_work_easy chain h = chain_work_from_easy chain 0 h ∙ ap ok (omega arith)

compute_work_pos :
    (t : ℕ)
    → min_target ≤ t
    → t ≤ max_target
    → (compute_work t ≡ ok (2 ^ 256 / (t + 1))) × (1 ≤ 2 ^ 256 / (t + 1))
unfolding compute_work
compute_work_pos t low high = (ground arith, grind arith)

branch_work_from_total :
    (blocks : List BlockV2) (total : ℕ)
    → AreInBounds blocks
    → (w : ℕ) × (branch_work_from total blocks ≡ ok w) × (total + length blocks ≤ w)
unfolding branch_work_from
branch_work_from_total [] total h = (total, refl, omega arith)
branch_work_from_total (b ∷ blocks) total h =
    let work = 2 ^ 256 / (b.header.target + 1) in
    let (defined, least) = compute_work_pos b.header.target h.0 h.1 in
    let (w, e, low) = branch_work_from_total blocks (total + work) h.2 in
    (w, rw defined e, omega (arith, least, low))

-- Blocks with targets in bounds have a branch work, of at least one for each block.
pub branch_work_total :
    (blocks : List BlockV2)
    → AreInBounds blocks
    → (w : ℕ) × (branch_work blocks ≡ ok w) × (length blocks ≤ w)
unfolding branch_work
branch_work_total blocks h =
    let (w, e, low) = branch_work_from_total blocks 0 h in (w, e, omega (arith, low))
