-- ===== src/Registry/Reducer/Accepted.antt =====
-- The checks that an accepted governance transaction has passed, and the state that it returns.
use chain_breaker.Base.{
  ℕ, ◌≤◌, ◌<◌, ◌≡◌, false, none, [], ◌∷◌, ◌++◌, Str, str_eq, ok, >>=-eq-ok, registry_error,
  raise_if, text, ltb, leb, arith,
}
use chain_breaker.Platform.{Platform}
use chain_breaker.Governance.{
  GovernanceContext, CuratorRegisterTx, CuratorRotateTx, CuratorRevokeTx,
  verify_governance_signatures, without, register_dict, rotate_dict, revoke_dict,
}
use chain_breaker.Registry.{CuratorRecord, RegistryState, with_defaults, others, sorted_by_id}
use chain_breaker.Registry.Reducer.{
  require_not_registered, require_public_key_unused, require_active_record, keep, registered,
  retired, rotated, apply_register, apply_rotate, apply_revoke, verify_curator_signature,
  require_root, witnesses, is_some,
}

-- What an accepted registration has passed, and what it returns.
pub record Registers (state : RegistryState) (block_height : ℕ) (txid : Str)
    (tx : CuratorRegisterTx) (state' : RegistryState) : Type 0 where
  pub later : block_height < tx.activation_height
  pub fresh : require_not_registered state.records tx.curator_id tx.public_key_hex ≡ ok tt
  pub result : keep state (sorted_by_id (state.records ++ (registered txid tx ∷ []))) ≡ state'

pub record Rotates (state : RegistryState) (block_height : ℕ) (txid : Str) (tx : CuratorRotateTx)
    (old : CuratorRecord) (state' : RegistryState) : Type 0 where
  pub later : block_height < tx.activation_height
  pub current : require_active_record state tx.curator_id tx.public_key_hex ≡ ok old
  pub differs : str_eq tx.new_public_key_hex old.public_key_hex ≡ false
  pub unused : require_public_key_unused state.records tx.new_public_key_hex tx.curator_id ≡ ok tt
  pub result :
      keep state (
        sorted_by_id (
          others tx.curator_id state.records
          ++ (retired txid old tx.activation_height ∷ rotated txid old tx ∷ [])))
      ≡ state'

pub record Revokes (state : RegistryState) (block_height : ℕ) (txid : Str) (tx : CuratorRevokeTx)
    (old : CuratorRecord) (state' : RegistryState) : Type 0 where
  pub later : block_height < tx.revocation_height
  pub current : require_active_record state tx.curator_id tx.public_key_hex ≡ ok old
  pub open_end : old.revocation_height ≡ none
  pub not_before : old.activation_height ≤ tx.revocation_height
  pub result :
      with_defaults (
        sorted_by_id
          (others tx.curator_id state.records ++ (retired txid old tx.revocation_height ∷ [])))
      ≡ state'

module _ (p : Platform) (state : RegistryState) (block_height : ℕ) (txid : Str)
    (context : GovernanceContext) where
  pub apply_register-Registers :
      (tx : CuratorRegisterTx) {state' : RegistryState}
      → apply_register p state block_height txid context tx ≡ ok state'
      → Registers state block_height txid tx state'
  unfolding apply_register
  apply_register-Registers tx e =
      let (_, _, e1) =
        >>=-eq-ok
          (verify_governance_signatures p context
            (without (text "governance_signatures" ∷ []) (register_dict tx))
            tx.governance_signatures)
          _ e in
      let (_, later, e2) =
        >>=-eq-ok (raise_if (leb tx.activation_height block_height) registry_error) _ e1 in
      let (_, _, e3) = >>=-eq-ok (require_root p state tx.previous_registry_root) _ e2 in
      let (_, fresh, e4) =
        >>=-eq-ok (require_not_registered state.records tx.curator_id tx.public_key_hex) _ e3 in
      record { later = ground (arith, later); fresh = fresh; result = ground (arith, e4) }

  pub apply_rotate-Rotates :
      (tx : CuratorRotateTx) {state' : RegistryState}
      → apply_rotate p state block_height txid context tx ≡ ok state'
      → (old : CuratorRecord) × Rotates state block_height txid tx old state'
  unfolding apply_rotate
  apply_rotate-Rotates tx e =
      let (_, _, e1) =
        >>=-eq-ok
          (verify_governance_signatures p context (without witnesses (rotate_dict tx))
            tx.governance_signatures)
          _ e in
      let (_, later, e2) =
        >>=-eq-ok (raise_if (leb tx.activation_height block_height) registry_error) _ e1 in
      let (_, _, e3) = >>=-eq-ok (require_root p state tx.previous_registry_root) _ e2 in
      let (old, current, e4) =
        >>=-eq-ok (require_active_record state tx.curator_id tx.public_key_hex) _ e3 in
      let (_, _, e5) =
        >>=-eq-ok
          (verify_curator_signature p old (without witnesses (rotate_dict tx))
            tx.curator_signature_hex)
          _ e4 in
      let (_, differs, e6) =
        >>=-eq-ok (raise_if (str_eq tx.new_public_key_hex old.public_key_hex) registry_error) _
          e5 in
      let (_, unused, e7) =
        >>=-eq-ok (require_public_key_unused state.records tx.new_public_key_hex tx.curator_id) _
          e6 in
      (
        old,
        record {
          later = ground (arith, later);
          current = current;
          differs = ground (arith, differs);
          unused = unused;
          result = ground (arith, e7);
        },
      )

  pub apply_revoke-Revokes :
      (tx : CuratorRevokeTx) {state' : RegistryState}
      → apply_revoke p state block_height txid context tx ≡ ok state'
      → (old : CuratorRecord) × Revokes state block_height txid tx old state'
  unfolding apply_revoke
  apply_revoke-Revokes tx e =
      let (_, _, e1) =
        >>=-eq-ok
          (verify_governance_signatures p context (without witnesses (revoke_dict tx))
            tx.governance_signatures)
          _ e in
      let (_, later, e2) =
        >>=-eq-ok (raise_if (leb tx.revocation_height block_height) registry_error) _ e1 in
      let (_, _, e3) = >>=-eq-ok (require_root p state tx.previous_registry_root) _ e2 in
      let (old, current, e4) =
        >>=-eq-ok (require_active_record state tx.curator_id tx.public_key_hex) _ e3 in
      let (_, _, e5) =
        >>=-eq-ok
          (verify_curator_signature p old (without witnesses (revoke_dict tx))
            tx.curator_signature_hex)
          _ e4 in
      let (_, open_end, e6) =
        >>=-eq-ok (raise_if (is_some old.revocation_height) registry_error) _ e5 in
      let (_, not_before, e7) =
        >>=-eq-ok (raise_if (ltb tx.revocation_height old.activation_height) registry_error) _ e6 in
      (
        old,
        record {
          later = ground (arith, later);
          current = current;
          open_end = ground (arith, open_end);
          not_before = ground (arith, not_before);
          result = ground (arith, e7);
        },
      )
