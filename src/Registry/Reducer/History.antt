-- ===== src/Registry/Reducer/History.antt =====
-- The activity of a curator's key over the heights, after each kind of governance transaction.
use chain_breaker.Base.{
  ℕ, ◌≤◌, ◌<◌, ◌≡◌, ap, true, ◌&&◌, none, some, [], ◌∷◌, Str, bytes_eq_self, ok, ltb, leb,
  if◌then◌else◌, arith,
}
use chain_breaker.Platform.{Platform}
use chain_breaker.Governance.{
  GovernanceContext, CuratorRegisterTx, CuratorRotateTx, CuratorRevokeTx,
}
use chain_breaker.Registry.{
  CuratorRecord, RegistryState, matches, latest, latest_of, by_id, is_active, active_key_at,
  key_was_valid_at, any_attests, attests, is_active_at, is_previous,
}
use chain_breaker.Registry.Reducer.{
  registered, retired, rotated, apply_register, apply_rotate, apply_revoke,
}
use chain_breaker.Registry.Reducer.Accepted.{
  apply_register-Registers, apply_rotate-Rotates, apply_revoke-Revokes,
}
use chain_breaker.Registry.Reducer.Effects.{
  register_self, rotate_self, revoke_self, require_active_record-id,
}

by_id-one :
    (state : RegistryState) (id : Str) (r : CuratorRecord)
    → matches id state.records ≡ r ∷ []
    → by_id state id ≡ some r
unfolding by_id latest_of latest
by_id-one state id r self = ap latest_of self

by_id-two :
    (state : RegistryState) (id : Str) (r s : CuratorRecord)
    → matches id state.records ≡ r ∷ s ∷ []
    → by_id state id ≡ some (if ltb r.activation_height s.activation_height then s else r)
unfolding by_id latest_of latest
by_id-two state id r s self = ap latest_of self

module _ (p : Platform) (state : RegistryState) (block_height : ℕ) (txid : Str)
    (context : GovernanceContext) where
  -- After an accepted registration the key is the curator's active key exactly from the activation
  -- height on, which lies above the block; it counts as valid at the same heights.
  pub apply_register_activates :
      (tx : CuratorRegisterTx) (state' : RegistryState) (height : ℕ)
      → apply_register p state block_height txid context tx ≡ ok state'
      → (block_height < tx.activation_height)
        × (active_key_at state' tx.curator_id height
            ≡ (if leb tx.activation_height height then some tx.public_key_hex else none))
        × (key_was_valid_at state' tx.curator_id tx.public_key_hex height
            ≡ leb tx.activation_height height)
  unfolding active_key_at key_was_valid_at any_attests attests is_active_at registered is_previous
  apply_register_activates tx state' height e =
      let w = apply_register-Registers p state block_height txid context tx e in
      let self = register_self p state block_height txid context tx w in
      let found = by_id-one state' tx.curator_id (registered txid tx) self in
      (
        w.later,
        rw (found, active_key_at) (ground arith),
        rw (self, key_was_valid_at, bytes_eq_self tx.public_key_hex) (ground arith),
      )

  -- After an accepted rotation of the curator's latest record the new key is active exactly from its
  -- activation height on, if that is above the old record's, and never if it is not; at all other
  -- heights the curator has no active key, those at which the old key was active included.
  pub apply_rotate_gap :
      (tx : CuratorRotateTx) (state' : RegistryState) (height : ℕ)
      → apply_rotate p state block_height txid context tx ≡ ok state'
      → (old : CuratorRecord) × (by_id state tx.curator_id ≡ some old)
        × (active_key_at state' tx.curator_id height ≡ (
            if ltb old.activation_height tx.activation_height && leb tx.activation_height height
            then some tx.new_public_key_hex
            else none))
  unfolding active_key_at is_active_at rotated retired by_id
  apply_rotate_gap tx state' height e =
      let (old, w) = apply_rotate-Rotates p state block_height txid context tx e in
      let self = rotate_self p state block_height txid context tx old w in
      let (_, _, found) =
        require_active_record-id state tx.curator_id tx.public_key_hex old w.current in
      let now =
        by_id-two state' tx.curator_id (retired txid old tx.activation_height) (rotated txid old tx)
          self in
      (old, found, gap old now)
    where
      gap :
          (old : CuratorRecord)
          → by_id state' tx.curator_id
            ≡ some (
                if ltb old.activation_height tx.activation_height
                then rotated txid old tx
                else retired txid old tx.activation_height)
          → active_key_at state' tx.curator_id height ≡ (
              if ltb old.activation_height tx.activation_height && leb tx.activation_height height
              then some tx.new_public_key_hex
              else none)
      gap old now = rw (now, active_key_at) (ground arith)

  -- After an accepted rotation the old key counts as valid at every height below the new key's
  -- activation height, also below the height at which the old key itself was activated.
  pub key_was_valid_at-apply_rotate :
      (tx : CuratorRotateTx) (state' : RegistryState) (height : ℕ)
      → apply_rotate p state block_height txid context tx ≡ ok state'
      → height < tx.activation_height
      → key_was_valid_at state' tx.curator_id tx.public_key_hex height ≡ true
  unfolding key_was_valid_at any_attests attests rotated is_previous
  key_was_valid_at-apply_rotate tx state' height e below =
      let (old, w) = apply_rotate-Rotates p state block_height txid context tx e in
      let self = rotate_self p state block_height txid context tx old w in
      let (_, key, _) =
        require_active_record-id state tx.curator_id tx.public_key_hex old w.current in
      rw (self, key_was_valid_at, key) (ground (arith, key))

  -- After an accepted revocation the curator is active exactly from the old record's activation
  -- height up to, and without, the revocation height, which lies above the block.
  pub is_active-apply_revoke :
      (tx : CuratorRevokeTx) (state' : RegistryState) (height : ℕ)
      → apply_revoke p state block_height txid context tx ≡ ok state'
      → (old : CuratorRecord) × (by_id state tx.curator_id ≡ some old)
        × (block_height < tx.revocation_height)
        × (old.activation_height ≤ tx.revocation_height)
        × (is_active state' tx.curator_id height
            ≡ leb old.activation_height height && ltb height tx.revocation_height)
  unfolding is_active is_active_at retired by_id
  is_active-apply_revoke tx state' height e =
      let (old, w) = apply_revoke-Revokes p state block_height txid context tx e in
      let self = revoke_self p state block_height txid context tx old w in
      let (_, _, found) =
        require_active_record-id state tx.curator_id tx.public_key_hex old w.current in
      let now = by_id-one state' tx.curator_id (retired txid old tx.revocation_height) self in
      (old, found, w.later, w.not_before, active old now)
    where
      active :
          (old : CuratorRecord)
          → by_id state' tx.curator_id ≡ some (retired txid old tx.revocation_height)
          → is_active state' tx.curator_id height
            ≡ leb old.activation_height height && ltb height tx.revocation_height
      active old now = rw (now, is_active) (ground arith)
