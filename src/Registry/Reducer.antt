-- ===== src/Registry/Reducer.antt =====
-- The reducer of chainbreaker/registry_state.py, `apply_registry_transaction`: registration,
-- rotation and revocation, with every check in the order of the code.
pub mod Accepted
pub mod Lookups
pub mod History
pub mod Keys
pub mod Ownership
pub mod Reuse
pub mod Effects
mod Examples
use chain_breaker.Base.{
  ℕ, suc, Bool, true, false, not, ◌&&◌, Option, none, some, List, [], ◌∷◌, ◌++◌, Str, str_eq, text,
  Result, ok, raise, ◌>>=◌, ◌>>◌, raise_if, registry_error, Exn, ltb, leb, if◌then◌else◌,
}
use chain_breaker.Json.{Fields}
use chain_breaker.Platform.{Platform, decode_public_key, verify}
use chain_breaker.Governance.{
  network_id, GovernanceContext, GovernanceTx, register, rotate, revoke, CuratorRegisterTx,
  CuratorRotateTx, CuratorRevokeTx, register_dict, rotate_dict, revoke_dict, without,
  governance_message, verify_governance_signatures,
}
use chain_breaker.Registry.{
  CuratorRecord, RegistryState, with_defaults, matches, others, latest_of, sorted_by_id,
  registry_root,
}

-- `_require_not_registered`
unfoldable pub require_not_registered : List CuratorRecord → Str → Str → Result (Unit {0})
require_not_registered [] curator_id key = ok tt
require_not_registered (r ∷ rs) curator_id key =
    let rest = require_not_registered rs curator_id key in
    if str_eq r.curator_id curator_id
    then raise registry_error
    else if str_eq r.public_key_hex key
    then raise registry_error
    else rest

-- `_require_public_key_unused`
unfoldable pub require_public_key_unused : List CuratorRecord → Str → Str → Result (Unit {0})
require_public_key_unused [] key excluded = ok tt
require_public_key_unused (r ∷ rs) key excluded =
    let rest = require_public_key_unused rs key excluded in
    if str_eq r.public_key_hex key && not (str_eq r.curator_id excluded)
    then raise registry_error
    else rest

-- `_require_active_record`
unfoldable pub require_active_record : RegistryState → Str → Str → Result CuratorRecord
require_active_record state curator_id key = elim (latest_of (matches curator_id state.records)) [
  | none ↦ raise registry_error
  | some r ↦ if str_eq r.public_key_hex key then ok r else raise registry_error
]

-- `value is not None`
abbrev pub is_some : Option ℕ → Bool
is_some none = false
is_some (some _) = true

-- The names that are not signed.
abbrev pub witnesses : List Str
witnesses = text "governance_signatures" ∷ text "curator_signature" ∷ []

-- the state with new records
unfoldable pub keep : RegistryState → List CuratorRecord → RegistryState
keep state records = record state { records = records }

unfoldable pub registered : Str → CuratorRegisterTx → CuratorRecord
registered txid tx = record {
  curator_id = tx.curator_id;
  public_key_hex = tx.public_key_hex;
  activation_height = tx.activation_height;
  revocation_height = none;
  previous_key_hex = none;
  registration_txid = txid;
  latest_rotation_txid = none;
}

-- the record that a rotation or a revocation closes
unfoldable pub retired : Str → CuratorRecord → ℕ → CuratorRecord
retired txid old height = record old {
  revocation_height = some height;
  latest_rotation_txid = some txid;
}

-- the record that a rotation opens
unfoldable pub rotated : Str → CuratorRecord → CuratorRotateTx → CuratorRecord
rotated txid old tx = record {
  curator_id = tx.curator_id;
  public_key_hex = tx.new_public_key_hex;
  activation_height = tx.activation_height;
  revocation_height = none;
  previous_key_hex = some old.public_key_hex;
  registration_txid = old.registration_txid;
  latest_rotation_txid = some txid;
}

module _ (p : Platform) where
  -- `_verify_curator_signature`
  unfoldable pub verify_curator_signature : CuratorRecord → Fields → Str → Result (Unit {0})
  verify_curator_signature r body signature_hex = do
    pk ← decode_public_key p r.public_key_hex
    raise_if (not (verify p pk (governance_message p network_id body) signature_hex)) registry_error

  -- `tx.previous_registry_root != registry_root(state)`
  unfoldable pub require_root : RegistryState → Str → Result (Unit {0})
  require_root state expected = do
    root ← registry_root p state
    raise_if (not (str_eq expected root)) registry_error

  module _ (state : RegistryState) (block_height : ℕ) (txid : Str)
      (context : GovernanceContext) where
    -- `_apply_register`
    unfoldable pub apply_register : CuratorRegisterTx → Result RegistryState
    apply_register tx = do
      verify_governance_signatures p context
          (without (text "governance_signatures" ∷ []) (register_dict tx)) tx.governance_signatures
      raise_if (leb tx.activation_height block_height) registry_error
      require_root state tx.previous_registry_root
      require_not_registered state.records tx.curator_id tx.public_key_hex
      ok (keep state (sorted_by_id (state.records ++ (registered txid tx ∷ []))))

    -- `_apply_rotate`
    unfoldable pub apply_rotate : CuratorRotateTx → Result RegistryState
    apply_rotate tx = do
      let body = without witnesses (rotate_dict tx)
      verify_governance_signatures p context body tx.governance_signatures
      raise_if (leb tx.activation_height block_height) registry_error
      require_root state tx.previous_registry_root
      old ← require_active_record state tx.curator_id tx.public_key_hex
      verify_curator_signature old body tx.curator_signature_hex
      raise_if (str_eq tx.new_public_key_hex old.public_key_hex) registry_error
      require_public_key_unused state.records tx.new_public_key_hex tx.curator_id
      ok (
          keep state (
            sorted_by_id (
              others tx.curator_id state.records
              ++ (retired txid old tx.activation_height ∷ rotated txid old tx ∷ []))))

    -- `_apply_revoke`
    unfoldable pub apply_revoke : CuratorRevokeTx → Result RegistryState
    apply_revoke tx = do
      let body = without witnesses (revoke_dict tx)
      verify_governance_signatures p context body tx.governance_signatures
      raise_if (leb tx.revocation_height block_height) registry_error
      require_root state tx.previous_registry_root
      old ← require_active_record state tx.curator_id tx.public_key_hex
      verify_curator_signature old body tx.curator_signature_hex
      raise_if (is_some old.revocation_height) registry_error
      raise_if (ltb tx.revocation_height old.activation_height) registry_error
      ok (
          with_defaults (
            sorted_by_id
              (others tx.curator_id state.records ++ (retired txid old tx.revocation_height ∷ []))))

    -- `apply_registry_transaction`
    unfoldable pub apply_registry_transaction : GovernanceTx → Result RegistryState
    apply_registry_transaction (register tx) = apply_register tx
    apply_registry_transaction (rotate tx) = apply_rotate tx
    apply_registry_transaction (revoke tx) = apply_revoke tx
