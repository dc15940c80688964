-- ===== src/Ledger/Invariant.antt =====
-- The invariant of the ledger of chainbreaker/chain.py: targets in bounds, cached states by
-- replay.
use chain_breaker.Base.{
  ℕ, ◌-◌, ◌≤◌, ◌<◌, ◌≡◌, sym, ◌∙◌, Bool, inl, inr, List, [], ◌∷◌, ◌++◌, length, length-append, ok,
  arith,
}
use std.Path.{subst}
use chain_breaker.Block.{BlockV2, min_target, max_target}
use chain_breaker.Platform.{Platform}
use chain_breaker.Retarget.{block_at}
use chain_breaker.Retarget.Bounds.{AreInBounds}
use chain_breaker.Registry.{RegistryState}
use chain_breaker.Ledger.Blocks.{Ledger, extended, add_block_v2}
use chain_breaker.Ledger.Replay.{state_at-append, state_at-extended}
use chain_breaker.Ledger.Extension.{replayed, IsAppended, IsValidNext, add_block_v2-cases}

AreInBounds-snoc :
    (chain : List BlockV2) (block : BlockV2)
    → AreInBounds chain
    → min_target ≤ block.header.target
    → block.header.target ≤ max_target
    → AreInBounds (chain ++ (block ∷ []))
AreInBounds-snoc [] block h low high = (low, high, tt)
AreInBounds-snoc (b ∷ chain) block h low high =
    (h.0, h.1, AreInBounds-snoc chain block h.2 low high)

block_at-nonempty :
    (chain : List BlockV2) (i : ℕ) {b : BlockV2} → block_at chain i ≡ ok b → 0 < length chain
unfolding block_at
block_at-nonempty [] i e = cc
block_at-nonempty (c ∷ chain) i e = omega arith

module _ (p : Platform) where
  abbrev pub AreReplayed : Ledger → List (ℕ × RegistryState) → Type 0
  AreReplayed l [] = Unit
  AreReplayed l ((h, state) ∷ states) =
      (h < length l.chain) × (replayed p l h ≡ ok state) × AreReplayed l states

  abbrev pub IsConsistent : Ledger → Type 0
  IsConsistent l = AreInBounds l.chain × AreReplayed l l.registry_states

  AreReplayed-extended :
      (l : Ledger) (block : BlockV2) (after : RegistryState) (states : List (ℕ × RegistryState))
      → AreReplayed l states
      → AreReplayed (extended l block after) states
  unfolding extended
  AreReplayed-extended l block after [] k = tt
  AreReplayed-extended l block after ((h, state) ∷ states) (low, same, k) =
      let size = length-append l.chain (block ∷ []) in
      (
        omega (arith, low, size),
        state_at-append p l.governance_keys l.governance_threshold l.network_id l.chain block h low
            ∙ same,
        AreReplayed-extended l block after states k,
      )

  appended-IsConsistent :
      (l : Ledger) (now : ℕ) (block : BlockV2) (l' : Ledger)
      → IsConsistent l
      → IsAppended p l block l'
      → IsValidNext p l now block
      → IsConsistent l'
  unfolding extended
  appended-IsConsistent l now block l' (inside, k) w v =
      let size = length-append l.chain (block ∷ []) in
      let latest =
        state_at-extended p l.governance_keys l.governance_threshold l.network_id l.chain block
          w.context w.before w.after (block_at-nonempty l.chain (length l.chain - 1) v.tip)
          w.governed w.replay w.applied in
      subst (λ m. IsConsistent m) (sym w.result)
        (
          AreInBounds-snoc l.chain block inside v.least v.most,
          (omega (arith, size), latest, AreReplayed-extended l block w.after l.registry_states k),
        )

  -- `add_block_v2` keeps the invariant, whether it accepts the block or not: every target of the
  -- chain is in bounds, and each cached registry state is that of a replay at its height.
  pub add_block_v2-IsConsistent :
      (l : Ledger) (now : ℕ) (block : BlockV2) (b : Bool) (l' : Ledger)
      → IsConsistent l
      → add_block_v2 p l now block ≡ ok (b, l')
      → IsConsistent l'
  add_block_v2-IsConsistent l now block b l' k e = elim (add_block_v2-cases p l now block b l' e) [
    | inl kept ↦ subst (λ m. IsConsistent m) (sym kept.1) k
    | inr added ↦ appended-IsConsistent l now block l' k added.1 added.2
  ]
