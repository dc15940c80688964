-- ===== src/Registry/Reducer/Ownership.antt =====
-- The owners of public keys in the records of chainbreaker/registry_state.py, under the reducer.
use mathlib.Core.Path.{subst}
use chain_breaker.Base.{append_assoc, ℕ, ◌≡◌, [], ◌∷◌, ◌++◌, Str, eq_of_bytes_eq, ok}
use chain_breaker.Platform.{Platform}
use chain_breaker.Governance.{GovernanceContext, GovernanceTx, register, rotate, revoke}
use chain_breaker.Registry.{CuratorRecord, RegistryState, with_defaults, others}
use chain_breaker.Registry.Reducer.{
  require_active_record, keep, registered, retired, rotated, apply_registry_transaction,
}
use chain_breaker.Registry.Reducer.Accepted.{
  apply_register-Registers, apply_rotate-Rotates, apply_revoke-Revokes,
}
use chain_breaker.Registry.Reducer.Effects.{require_active_record-id}
use chain_breaker.Registry.Reducer.Keys.{
  AllAgree, KeysOwned, AllAgree-append, AllAgree-others, KeysOwned-sorted_by_id, KeysOwned-others,
  KeysOwned-snoc, EachAgrees-self, latest_of-agrees, unregistered-agree, unused-agree,
}

-- The key of the curator's active record is in no record of another curator.
pub require_active_record-agrees :
    (state : RegistryState) (id key : Str) (old : CuratorRecord)
    → KeysOwned state.records
    → require_active_record state id key ≡ ok old
    → AllAgree id key state.records
require_active_record-agrees state id key old k current =
    let (own, has, found) = require_active_record-id state id key old current in
    let own_id : old.curator_id ≡ id = eq_of_bytes_eq old.curator_id id own in
    let own_key : old.public_key_hex ≡ key = eq_of_bytes_eq old.public_key_hex key has in
    let all =
      latest_of-agrees id state.records state.records old found (EachAgrees-self state.records k) in
    rw (own_id, own_key) at all

module _ (p : Platform) (state : RegistryState) (block_height : ℕ) (txid : Str)
    (context : GovernanceContext) where
  -- the records with the curator's own replaced by the closed one
  closed-KeysOwned :
      (id key : Str) (old : CuratorRecord) (height : ℕ)
      → KeysOwned state.records
      → require_active_record state id key ≡ ok old
      → KeysOwned (others id state.records ++ (retired txid old height ∷ []))
  unfolding retired
  closed-KeysOwned id key old height k current =
      let (_, _, found) = require_active_record-id state id key old current in
      let all =
        latest_of-agrees id state.records state.records old found
          (EachAgrees-self state.records k) in
      KeysOwned-snoc (others id state.records) (retired txid old height)
        (KeysOwned-others id state.records k)
        (AllAgree-others old.curator_id old.public_key_hex id state.records all)

  -- If no `public_key_hex` stands in the records of two curators, then none does after any accepted
  -- transaction. Nothing is said of `previous_key_hex`, which the reducer does not compare.
  pub apply_registry_transaction-KeysOwned :
      (tx : GovernanceTx) (state' : RegistryState)
      → KeysOwned state.records
      → apply_registry_transaction p state block_height txid context tx ≡ ok state'
      → KeysOwned state'.records
  unfolding apply_registry_transaction keep with_defaults registered rotated retired
  apply_registry_transaction-KeysOwned (register tx) state' k e =
      let w = apply_register-Registers p state block_height txid context tx e in
      rw (← w.result) (
        KeysOwned-sorted_by_id (state.records ++ (registered txid tx ∷ [])) (
          KeysOwned-snoc state.records (registered txid tx) k
            (unregistered-agree state.records tx.curator_id tx.public_key_hex w.fresh)))
  apply_registry_transaction-KeysOwned (rotate tx) state' k e =
      let (old, w) = apply_rotate-Rotates p state block_height txid context tx e in
      let id = tx.curator_id in
      let before = others id state.records ++ (retired txid old tx.activation_height ∷ []) in
      let (own, _, _) = require_active_record-id state id tx.public_key_hex old w.current in
      let all = unused-agree state.records tx.new_public_key_hex id w.unused in
      let last : KeysOwned (before ++ (rotated txid old tx ∷ [])) =
        KeysOwned-snoc before (rotated txid old tx)
          (closed-KeysOwned id tx.public_key_hex old tx.activation_height k w.current)
          (AllAgree-append id tx.new_public_key_hex (others id state.records)
            (retired txid old tx.activation_height ∷ [])
            (AllAgree-others id tx.new_public_key_hex id state.records all)
            (λ _. eq_of_bytes_eq old.curator_id id own, tt)) in
      rw (← w.result) (
        KeysOwned-sorted_by_id _ (
          subst KeysOwned
            (append_assoc (others id state.records) (retired txid old tx.activation_height ∷ [])
              (rotated txid old tx ∷ []))
            last))
  apply_registry_transaction-KeysOwned (revoke tx) state' k e =
      let (old, w) = apply_revoke-Revokes p state block_height txid context tx e in
      rw (← w.result) (
        KeysOwned-sorted_by_id _
          (closed-KeysOwned tx.curator_id tx.public_key_hex old tx.revocation_height k w.current))
