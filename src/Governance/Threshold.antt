-- ===== src/Governance/Threshold.antt =====
-- The threshold check of chainbreaker/governance.py, and an independent count of valid signatures.
use chain_breaker.Base.{
  ℕ, ◌+◌, ◌≤◌, ◌<◌, ◌≡◌, ◌↔◌, false, List, [], ◌∷◌, Bytes, Str, length, ok, arith, >>=-eq-ok,
  if◌then◌else◌,
}
use chain_breaker.Json.{Fields}
use chain_breaker.Platform.{Platform}
use chain_breaker.Governance.{
  GovernanceSignature, GovernanceContext, is_used, counts, count_valid, governance_message,
  verify_governance_signatures,
}

-- The indices are in range, and none occurs twice or among those used before.
abbrev pub AreDistinct : ℕ → List ℕ → List GovernanceSignature → Type 0
AreDistinct n used [] = Unit
AreDistinct n used (s ∷ sigs) =
    (s.key_index < n) × (is_used s.key_index used ≡ false) × AreDistinct n (s.key_index ∷ used) sigs

module _ (p : Platform) where
  -- How many of the signatures their keys have made.
  unfoldable pub valid_count : List Str → Bytes → List GovernanceSignature → ℕ
  valid_count keys message [] = 0
  valid_count keys message (s ∷ sigs) =
      (if counts p keys message s then 1 else 0) + valid_count keys message sigs

  count_valid_sound :
      (keys : List Str) (message : Bytes) (used : List ℕ) (v : ℕ) (sigs : List GovernanceSignature)
      (n : ℕ)
      → count_valid p keys message used v sigs ≡ ok n
      → AreDistinct (length keys) used sigs × (n ≡ v + valid_count keys message sigs)
  unfolding count_valid valid_count
  count_valid_sound keys message used v [] n e = (tt, ground arith)
  count_valid_sound keys message used v (s ∷ sigs) n e =
      let next = if counts p keys message s then v + 1 else v in
      ground (arith, count_valid_sound keys message (s.key_index ∷ used) next sigs n)

  count_valid_complete :
      (keys : List Str) (message : Bytes) (used : List ℕ) (v : ℕ) (sigs : List GovernanceSignature)
      → AreDistinct (length keys) used sigs
      → count_valid p keys message used v sigs ≡ ok (v + valid_count keys message sigs)
  unfolding count_valid valid_count
  count_valid_complete keys message used v [] d = ground arith
  count_valid_complete keys message used v (s ∷ sigs) d =
      let next = if counts p keys message s then v + 1 else v in
      ground (arith, count_valid_complete keys message (s.key_index ∷ used) next sigs d.2)

  -- The check passes exactly if every key index is in range and occurs once, and at least
  -- `threshold` of the signatures verify under the keys that they name.
  pub verify_governance_signatures_iff :
      (context : GovernanceContext) (body : Fields) (sigs : List GovernanceSignature)
      → (verify_governance_signatures p context body sigs ≡ ok tt) ↔ (
          AreDistinct (length context.public_keys_hex) [] sigs
          × (context.threshold
              ≤ valid_count context.public_keys_hex
                  (governance_message p context.network_id body)
                  sigs))
  unfolding verify_governance_signatures
  verify_governance_signatures_iff context body sigs =
      let keys = context.public_keys_hex in
      let message = governance_message p context.network_id body in
      (
        λ e.
            let (n, counted, enough) = >>=-eq-ok (count_valid p keys message [] 0 sigs) _ e in
            let (distinct, total) = count_valid_sound keys message [] 0 sigs n counted in
            (distinct, ground (arith, enough, total)),
        λ h. rw (count_valid_complete keys message [] 0 sigs h.0) (ground (arith, h.1)),
      )
