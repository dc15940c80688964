-- ===== src/Governance.antt =====
-- chainbreaker/governance.py: the governance transactions, their dictionaries, and the threshold
-- check of `GovernanceContext.verify_governance_signatures`.
pub mod Parse
pub mod Threshold
mod Examples
use chain_breaker.Base.{
  ℕ, zero, suc, ◌+◌, Bool, true, false, not, ◌||◌, Option, none, some, List, [], ◌∷◌, Bytes, Str,
  str_eq, text, length, get_elem?, Result, ok, raise, ◌>>=◌, ◌>>◌, raise_if, governance_error, Exn,
  ltb, ◌==◌, if◌then◌else◌,
}
use chain_breaker.Json.{Value, Items, Fields, nil, cons, end, field, int, str, arr, obj, member}
use chain_breaker.Platform.{Platform, hash_object, hash_object_hex, decode_public_key, verify}

abbrev pub network_id : Str
network_id = text "chainbreaker-scripture-v2"

abbrev pub protocol_version : ℕ
protocol_version = 2

abbrev pub governance_schema_version : ℕ
governance_schema_version = 1

-- `GovernanceSignature`
pub record GovernanceSignature : Type 0 where
  pub key_index : ℕ
  pub signature_hex : Str

-- `CuratorRegisterTx`
pub record CuratorRegisterTx : Type 0 where
  pub curator_id : Str
  pub public_key_hex : Str
  pub activation_height : ℕ
  pub display_metadata_hash : Option Str
  pub previous_registry_root : Str
  pub governance_signatures : List GovernanceSignature
  pub network_id : Str
  pub schema_version : ℕ

-- `CuratorRotateTx`
pub record CuratorRotateTx : Type 0 where
  pub curator_id : Str
  pub public_key_hex : Str
  pub new_public_key_hex : Str
  pub activation_height : ℕ
  pub display_metadata_hash : Option Str
  pub previous_registry_root : Str
  pub governance_signatures : List GovernanceSignature
  pub curator_signature_hex : Str
  pub network_id : Str
  pub schema_version : ℕ

-- `CuratorRevokeTx`
pub record CuratorRevokeTx : Type 0 where
  pub curator_id : Str
  pub public_key_hex : Str
  pub revocation_height : ℕ
  pub reason_code : Str
  pub previous_registry_root : Str
  pub governance_signatures : List GovernanceSignature
  pub curator_signature_hex : Str
  pub network_id : Str
  pub schema_version : ℕ

-- `GovernanceTx`
pub data GovernanceTx : Type 0 where
  register : CuratorRegisterTx → GovernanceTx
  rotate : CuratorRotateTx → GovernanceTx
  revoke : CuratorRevokeTx → GovernanceTx

-- the list of `s.to_dict()`
unfoldable pub signature_dicts : List GovernanceSignature → Items
signature_dicts [] = nil
signature_dicts (s ∷ rest) =
    cons
      (obj (
        field (text "key_index") (int s.key_index)
          (field (text "signature") (str s.signature_hex) end)))
      (signature_dicts rest)

-- `if self.display_metadata_hash is not None: result[...] = ...`, which adds the last entry
unfoldable pub metadata_field : Option Str → Fields
metadata_field none = end
metadata_field (some h) = field (text "display_metadata_hash") (str h) end

-- `CuratorRegisterTx.to_dict`
unfoldable pub register_dict : CuratorRegisterTx → Fields
register_dict tx = field (text "action") (str (text "curator_register")) (
    field (text "curator_id") (str tx.curator_id) (
      field (text "public_key_hex") (str tx.public_key_hex) (
        field (text "activation_height") (int tx.activation_height) (
          field (text "previous_registry_root") (str tx.previous_registry_root) (
            field (text "governance_signatures") (arr (signature_dicts tx.governance_signatures)) (
              field (text "network_id") (str tx.network_id) (
                field (text "schema_version") (int tx.schema_version)
                  (metadata_field tx.display_metadata_hash))))))))

-- `CuratorRotateTx.to_dict`
unfoldable pub rotate_dict : CuratorRotateTx → Fields
rotate_dict tx = field (text "action") (str (text "curator_rotate")) (
    field (text "curator_id") (str tx.curator_id) (
      field (text "public_key_hex") (str tx.public_key_hex) (
        field (text "new_public_key_hex") (str tx.new_public_key_hex) (
          field (text "activation_height") (int tx.activation_height) (
            field (text "previous_registry_root") (str tx.previous_registry_root) (
              field (text "governance_signatures") (arr (signature_dicts tx.governance_signatures))
                (field (text "curator_signature") (str tx.curator_signature_hex) (
                  field (text "network_id") (str tx.network_id) (
                    field (text "schema_version") (int tx.schema_version)
                      (metadata_field tx.display_metadata_hash))))))))))

-- `CuratorRevokeTx.to_dict`
unfoldable pub revoke_dict : CuratorRevokeTx → Fields
revoke_dict tx = field (text "action") (str (text "curator_revoke")) (
    field (text "curator_id") (str tx.curator_id) (
      field (text "public_key_hex") (str tx.public_key_hex) (
        field (text "revocation_height") (int tx.revocation_height) (
          field (text "reason_code") (str tx.reason_code) (
            field (text "previous_registry_root") (str tx.previous_registry_root) (
              field (text "governance_signatures") (arr (signature_dicts tx.governance_signatures))
                (field (text "curator_signature") (str tx.curator_signature_hex) (
                  field (text "network_id") (str tx.network_id)
                    (field (text "schema_version") (int tx.schema_version) end)))))))))

-- `{k: v for k, v in body.items() if k not in names}`
unfoldable pub without : List Str → Fields → Fields
without names end = end
without names (field k v rest) =
    let kept = without names rest in if member k names then kept else field k v kept

-- The fields of a `GovernanceContext`.
pub record GovernanceContext : Type 0 where
  pub public_keys_hex : List Str
  pub threshold : ℕ
  pub network_id : Str

-- `index in used_indices`
unfoldable pub is_used : ℕ → List ℕ → Bool
is_used i [] = false
is_used i (j ∷ used) = i == j || is_used i used

module _ (p : Platform) where
  -- `governance_message`: what the governance keys and the curators sign
  unfoldable pub governance_message : Str → Fields → Bytes
  governance_message network body = hash_object p (
      obj (
        field (text "network_id") (str network) (
          field (text "version") (int protocol_version) (
            field (text "type") (str (text "registry"))
              (field (text "body_hash") (str (hash_object_hex p (obj body))) end)))))

  -- The `try` of the loop: whether the key at the signature's index has signed. A key that is not
  -- 32 bytes of hexadecimal raises `ValueError`, and the signature does not count.
  unfoldable pub counts : List Str → Bytes → GovernanceSignature → Bool
  counts keys message sig = elim (get_elem? keys sig.key_index) [
    | none ↦ false
    | some key ↦ elim (decode_public_key p key) [
      | raise e ↦ false
      | ok pk ↦ verify p pk message sig.signature_hex
    ]
  ]

  -- The loop of `verify_governance_signatures`: the number of valid signatures.
  unfoldable pub count_valid : List Str → Bytes → List ℕ → ℕ → List GovernanceSignature → Result ℕ
  count_valid keys message used valid [] = ok valid
  count_valid keys message used valid (sig ∷ sigs) =
      let rest =
        count_valid keys message (sig.key_index ∷ used)
          (if counts keys message sig then valid + 1 else valid) sigs in
      if not (ltb sig.key_index (length keys))
      then raise governance_error
      else if is_used sig.key_index used
      then raise governance_error
      else rest

  -- `GovernanceContext.verify_governance_signatures`
  unfoldable pub verify_governance_signatures :
      GovernanceContext → Fields → List GovernanceSignature → Result (Unit {0})
  verify_governance_signatures context body sigs = do
    valid ←
        count_valid context.public_keys_hex (governance_message context.network_id body) [] 0 sigs
    raise_if (ltb valid context.threshold) governance_error
