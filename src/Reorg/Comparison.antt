-- ===== src/Reorg/Comparison.antt =====
-- The comparison of works that decides an evaluation of chainbreaker/reorg.py.
use chain_breaker.Base.{
  Str, not, raise_if, reorg_error, ltb, if◌then◌else◌, eq_of_bytes_eq, bytes_eq_self, ok-inj,
  raise≢ok, ℕ, ◌+◌, ◌-◌, ◌≡◌, true, false, List, [], ◌∷◌, str_eq, ok, sym, >>=-eq-ok, Bool-cases,
  inl, inr, length, drop, arith, ◌⊎◌, ap, ◌∙◌,
}
use chain_breaker.Block.{BlockV2, block_hash}
use chain_breaker.Platform.{Platform}
use chain_breaker.Retarget.{block_at}
use chain_breaker.Registry.{RegistryState}
use chain_breaker.Work.{branch_work, compare_work, candidate_wins, current_wins, tie}
use chain_breaker.Reorg.{
  ReorgEngine, ReorgResult, not_more_work, kept, accepted, switched_to, decide, after_validation,
  exceeds_depth, validate_in_scratch, find_common_ancestor, evaluate_candidate,
}

module _ (p : Platform) where
  no_ancestor :
      (current : List BlockV2) (common : ℕ) → find_common_ancestor p current [] ≡ ok common → ⊥
  unfolding find_common_ancestor
  no_ancestor [] common found = raise≢ok found
  no_ancestor (a ∷ current) common found = raise≢ok found

  -- The search for a common ancestor starts from genesis blocks of one hash.
  find_common_ancestor-genesis :
      (current : List BlockV2) (first : BlockV2) (rest : List BlockV2) (common : ℕ) (x y : Str)
      (own : BlockV2)
      → find_common_ancestor p current (first ∷ rest) ≡ ok common
      → block_hash p.sha256 first ≡ ok x
      → block_at current 0 ≡ ok own
      → block_hash p.sha256 own ≡ ok y
      → str_eq x y ≡ true
  unfolding find_common_ancestor block_at
  find_common_ancestor-genesis [] first rest common x y own found ex eo ey = cc
  find_common_ancestor-genesis (a ∷ current) first rest common x y own found ex eo ey =
      let same : a ≡ own = ok-inj eo in
      let (z, ez, h1) = >>=-eq-ok (block_hash p.sha256 a) _ found in
      let (t, et, h2) = >>=-eq-ok (block_hash p.sha256 first) _ h1 in
      let (_, equal, _) = >>=-eq-ok (raise_if (not (str_eq z t)) reorg_error) _ h2 in
      let first_hash : x ≡ t = ok-inj (sym ex ∙ et) in
      let own_hash : z ≡ y = ok-inj (sym ez ∙ ap (block_hash p.sha256) same ∙ ey) in
      let one : z ≡ t = eq_of_bytes_eq z t (ground (arith, equal)) in
      rw (first_hash, sym own_hash, one) (bytes_eq_self t)

  -- What the comparison of works makes of a result.
  abbrev pub Compares : ReorgEngine → List BlockV2 → ℕ → ℕ → ℕ → ReorgResult → Type 0
  Compares e candidate common v w r =
      (r.switched ≡ ltb v w)
      × (r.reason ≡ (if ltb v w then accepted else not_more_work))
      × (r.common_ancestor_height ≡ common)
      × (r.new_tip_height ≡ (if ltb v w then length candidate - 1 else length e.current_chain - 1))

  kept-Compares :
      (e : ReorgEngine) (candidate : List BlockV2) (common v w : ℕ) (r : ReorgResult)
      → kept p e common not_more_work ≡ ok r
      → ltb v w ≡ false
      → Compares e candidate common v w r
  unfolding kept
  kept-Compares e candidate common v w r h less =
      let (tip, et, h1) = >>=-eq-ok (block_at e.current_chain (length e.current_chain - 1)) _ h in
      let (x, ex, h2) = >>=-eq-ok (block_hash p.sha256 tip) _ h1 in
      let result = sym (ok-inj h2) in
      rw less (
        ap (λ r. r.switched) result,
        ap (λ r. r.reason) result,
        ap (λ r. r.common_ancestor_height) result,
        ap (λ r. r.new_tip_height) result,
      )

  switched_to-Compares :
      (e : ReorgEngine) (candidate : List BlockV2) (common v w : ℕ) (r : ReorgResult)
      → switched_to p e candidate common ≡ ok r
      → ltb v w ≡ true
      → Compares e candidate common v w r
  unfolding switched_to
  switched_to-Compares e candidate common v w r h more =
      let (tip, et, h4) = >>=-eq-ok (block_at e.current_chain (length e.current_chain - 1)) _ h in
      let (x, ex, h5) = >>=-eq-ok (block_hash p.sha256 tip) _ h4 in
      let (top, en, h6) = >>=-eq-ok (block_at candidate (length candidate - 1)) _ h5 in
      let (y, ey, h7) = >>=-eq-ok (block_hash p.sha256 top) _ h6 in
      let result = sym (ok-inj h7) in
      rw more (
        ap (λ r. r.switched) result,
        ap (λ r. r.reason) result,
        ap (λ r. r.common_ancestor_height) result,
        ap (λ r. r.new_tip_height) result,
      )

  compare_work_lem :
      (v w : ℕ)
      → ((compare_work v w ≡ candidate_wins) × (ltb v w ≡ true))
        ⊎ (((compare_work v w ≡ current_wins) × (ltb v w ≡ false))
            ⊎ ((compare_work v w ≡ tie) × (ltb v w ≡ false)))
  unfolding compare_work
  compare_work_lem v w = elim (Bool-cases (ltb v w)) [
    | inl more ↦ inl (ground (arith, more), more)
    | inr same ↦ elim (Bool-cases (ltb w v)) [
      | inl less ↦ inr (inl (ground (arith, same, less), same))
      | inr even ↦ inr (inr (ground (arith, same, even), same))
    ]
  ]

  decide-Compares :
      (e : ReorgEngine) (candidate : List BlockV2) (common v w : ℕ) (r : ReorgResult)
      → decide p e candidate common ≡ ok r
      → branch_work (drop (common + 1) e.current_chain) ≡ ok v
      → branch_work (drop (common + 1) candidate) ≡ ok w
      → Compares e candidate common v w r
  unfolding decide
  decide-Compares e candidate common v w r h ev ew =
      let h2 : (elim (compare_work v w) [
        | candidate_wins ↦ switched_to p e candidate common
        | current_wins ↦ kept p e common not_more_work
        | tie ↦ kept p e common not_more_work
      ])
          ≡ ok r =
        rw (ew, ev) at h in
      elim (compare_work_lem v w) [
        | inl (wins, more) ↦ switched_to-Compares e candidate common v w r (rw wins at h2) more
        | inr (inl (loses, less)) ↦ kept-Compares e candidate common v w r (rw loses at h2) less
        | inr (inr (even, less)) ↦ kept-Compares e candidate common v w r (rw even at h2) less
      ]

  -- If an evaluation returns a result, the search finds a common ancestor, the reorganisation is not
  -- too deep and the suffix above the ancestor passes the validation, then the result switches exactly
  -- if the candidate's work above the ancestor is strictly greater than that of the blocks it would
  -- replace, so at equal work the current chain is kept, whatever the hashes of the tips are. The
  -- reason and the height of the new tip say so too, and the result names the ancestor.
  pub evaluate_candidate-Compares :
      (e : ReorgEngine) (candidate : List BlockV2) (common v w : ℕ) (states : List RegistryState)
      (r : ReorgResult)
      → evaluate_candidate p e candidate ≡ ok r
      → find_common_ancestor p e.current_chain candidate ≡ ok common
      → exceeds_depth p e common ≡ false
      → validate_in_scratch p e candidate common ≡ ok (ok states)
      → branch_work (drop (common + 1) e.current_chain) ≡ ok v
      → branch_work (drop (common + 1) candidate) ≡ ok w
      → Compares e candidate common v w r
  unfolding evaluate_candidate after_validation
  evaluate_candidate-Compares e [] common v w states r h found fits passed ev ew =
      absurd (no_ancestor e.current_chain common found)
  evaluate_candidate-Compares e (first ∷ rest) common v w states r h found fits passed ev ew =
      let (x, ex, h1) = >>=-eq-ok (block_hash p.sha256 first) _ h in
      let (own, eo, h2) = >>=-eq-ok (block_at e.current_chain 0) _ h1 in
      let (y, ey, h3) = >>=-eq-ok (block_hash p.sha256 own) _ h2 in
      let same =
        find_common_ancestor-genesis e.current_chain first rest common x y own found ex eo ey in
      decide-Compares e (first ∷ rest) common v w r (rw (same, found, fits, passed) at h3) ev ew
