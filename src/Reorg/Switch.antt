-- ===== src/Reorg/Switch.antt =====
-- The evaluations of chainbreaker/reorg.py that switch to the candidate.
use chain_breaker.Base.{
  ok-inj, raise≢ok, ℕ, ◌+◌, ◌-◌, ◌<◌, ◌≡◌, refl, true, false, List, [], ◌∷◌, str_eq, Result, ok,
  raise, sym, >>=-eq-ok, Bool-cases, inl, inr, length, drop, arith, ◌⊎◌, ap, ◌∙◌,
}
use chain_breaker.Block.{BlockV2, block_hash}
use chain_breaker.Platform.{Platform}
use chain_breaker.Retarget.{block_at}
use chain_breaker.Registry.{RegistryState}
use chain_breaker.Work.{Decision, branch_work, compare_work, candidate_wins, current_wins, tie}
use chain_breaker.Reorg.{
  ReorgEngine, ReorgResult, Reason, is_reorg_error, not_more_work, empty_candidate,
  genesis_mismatch, too_deep, validation_failed, kept, switched_to, decide, after_validation,
  exceeds_depth, validate_in_scratch, find_common_ancestor, evaluate_candidate,
}

module _ (p : Platform) where
  -- The candidate's suffix above the common height carries more work than the chain's own.
  abbrev pub HasMoreWork : ReorgEngine → List BlockV2 → ℕ → Type 0
  HasMoreWork e candidate common =
      (v : ℕ) × (w : ℕ) × (branch_work (drop (common + 1) e.current_chain) ≡ ok v)
      × (branch_work (drop (common + 1) candidate) ≡ ok w)
      × (v < w)

  kept_stays :
      (e : ReorgEngine) (common : ℕ) (reason : Reason) (r : ReorgResult)
      → kept p e common reason ≡ ok r
      → r.switched ≡ false
  unfolding kept
  kept_stays e common reason r h =
      let (tip, et, h1) = >>=-eq-ok (block_at e.current_chain (length e.current_chain - 1)) _ h in
      let (x, ex, h2) = >>=-eq-ok (block_hash p.sha256 tip) _ h1 in
      sym (ap (λ r. r.switched) (ok-inj h2))

  kept_not_switched :
      (e : ReorgEngine) (common : ℕ) (reason : Reason) (r : ReorgResult)
      → kept p e common reason ≡ ok r
      → r.switched ≡ true
      → ⊥
  kept_not_switched e common reason r h s = let stays = kept_stays e common reason r h in cc

  Decision-cases : (d : Decision) → (d ≡ candidate_wins) ⊎ ((d ≡ current_wins) ⊎ (d ≡ tie))
  Decision-cases candidate_wins = inl refl
  Decision-cases current_wins = inr (inl refl)
  Decision-cases tie = inr (inr refl)

  compare_work_wins : (v w : ℕ) → compare_work v w ≡ candidate_wins → v < w
  unfolding compare_work
  compare_work_wins v w h = ground (arith, h)

  decide_switches :
      (e : ReorgEngine) (candidate : List BlockV2) (common : ℕ) (r : ReorgResult)
      → decide p e candidate common ≡ ok r
      → r.switched ≡ true
      → HasMoreWork e candidate common
        × (r.common_ancestor_height ≡ common)
        × (r.new_tip_height ≡ length candidate - 1)
  unfolding decide switched_to
  decide_switches e candidate common r h s =
      let (w, ew, h1) = >>=-eq-ok (branch_work (drop (common + 1) candidate)) _ h in
      let (v, ev, h2) = >>=-eq-ok (branch_work (drop (common + 1) e.current_chain)) _ h1 in
      elim (Decision-cases (compare_work v w)) [
        | inl wins ↦
            let h3 = rw wins at h2 in
            let (tip, et, h4) =
              >>=-eq-ok (block_at e.current_chain (length e.current_chain - 1)) _ h3 in
            let (x, ex, h5) = >>=-eq-ok (block_hash p.sha256 tip) _ h4 in
            let (top, en, h6) = >>=-eq-ok (block_at candidate (length candidate - 1)) _ h5 in
            let (y, ey, h7) = >>=-eq-ok (block_hash p.sha256 top) _ h6 in
            let result = sym (ok-inj h7) in
            (
              (v, w, ev, ew, compare_work_wins v w wins),
              ap (λ r. r.common_ancestor_height) result,
              ap (λ r. r.new_tip_height) result,
            )
        | inr (inl loses) ↦ absurd (kept_not_switched e common not_more_work r (rw loses at h2) s)
        | inr (inr even) ↦ absurd (kept_not_switched e common not_more_work r (rw even at h2) s)
      ]

  after_validation_switches :
      (e : ReorgEngine) (candidate : List BlockV2) (common : ℕ)
      (outcome : Result (List RegistryState)) (r : ReorgResult)
      → after_validation p e candidate common outcome ≡ ok r
      → r.switched ≡ true
      → (states : List RegistryState) × (outcome ≡ ok states) × (decide p e candidate common ≡ ok r)
  unfolding after_validation
  after_validation_switches e candidate common (ok states) r h s = (states, refl, h)
  after_validation_switches e candidate common (raise x) r h s =
      elim (Bool-cases (is_reorg_error x)) [
        | inl caught ↦ absurd (kept_not_switched e common validation_failed r (rw caught at h) s)
        | inr escapes ↦ absurd (raise≢ok (rw escapes at h))
      ]

  -- If an evaluation returns a result that switches, then the common ancestor is the one that the
  -- search finds, the reorganisation is not too deep, the suffix above it passed the validation, its
  -- work is strictly greater than that of the blocks it replaces, and the result names the ancestor
  -- and the height of the candidate's tip.
  pub evaluate_candidate_switches :
      (e : ReorgEngine) (candidate : List BlockV2) (r : ReorgResult)
      → evaluate_candidate p e candidate ≡ ok r
      → r.switched ≡ true
      → (common : ℕ) × (states : List RegistryState) × (find_common_ancestor p e.current_chain
            candidate
          ≡ ok common)
        × (exceeds_depth p e common ≡ false)
        × (validate_in_scratch p e candidate common ≡ ok (ok states))
        × HasMoreWork e candidate common
        × (r.common_ancestor_height ≡ common)
        × (r.new_tip_height ≡ length candidate - 1)
  unfolding evaluate_candidate
  evaluate_candidate_switches e [] r h s = absurd (kept_not_switched e 0 empty_candidate r h s)
  evaluate_candidate_switches e (first ∷ rest) r h s =
      let (x, ex, h1) = >>=-eq-ok (block_hash p.sha256 first) _ h in
      let (own, eo, h2) = >>=-eq-ok (block_at e.current_chain 0) _ h1 in
      let (y, ey, h3) = >>=-eq-ok (block_hash p.sha256 own) _ h2 in
      elim (Bool-cases (str_eq x y)) [
        | inr other ↦ absurd (kept_not_switched e 0 genesis_mismatch r (rw other at h3) s)
        | inl same ↦
            let (common, found, h4) =
              >>=-eq-ok (find_common_ancestor p e.current_chain (first ∷ rest)) _ (rw same at h3) in
            elim (Bool-cases (exceeds_depth p e common)) [
              | inl deep ↦ absurd (kept_not_switched e common too_deep r (rw deep at h4) s)
              | inr fits ↦
                  let (outcome, checked, h5) =
                    >>=-eq-ok (validate_in_scratch p e (first ∷ rest) common) _ (rw fits at h4) in
                  let (states, passed, h6) =
                    after_validation_switches e (first ∷ rest) common outcome r h5 s in
                  let (work, ancestor, tip) = decide_switches e (first ∷ rest) common r h6 s in
                  (common, states, found, fits, checked ∙ ap ok passed, work, ancestor, tip)
            ]
      ]
