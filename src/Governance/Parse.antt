-- ===== src/Governance/Parse.antt =====
-- The parsers of chainbreaker/governance.py, `from_dict` of each transaction, which raise
-- `GovernanceError` on a malformed body and `KeyError` where they read a key that is missing.
use chain_breaker.Base.{
  ℕ, ◌+◌, ◌*◌, Bool, false, not, ◌&&◌, ◌||◌, Option, none, some, List, [], ◌∷◌, map, Str, str_eq,
  text, length, Result, ok, raise, ◌>>=◌, ◌>>◌, raise_if, governance_error, key_error,
  attribute_error, ltb, leb, ◌==◌, if◌then◌else◌,
}
use chain_breaker.Stdlib.{unhex, utf8}
use chain_breaker.Json.{
  Value, Items, Fields, null, bool, int, str, arr, obj, nil, cons, get, has_all, keys_within,
}
use chain_breaker.Governance.{
  network_id, governance_schema_version, GovernanceSignature, GovernanceTx, register, rotate,
  revoke, CuratorRegisterTx, CuratorRotateTx, CuratorRevokeTx,
}

-- `data[key]`
unfoldable pub item : Str → Fields → Result Value
item key d = elim (get key d) [ none ↦ raise key_error | some v ↦ ok v ]

-- `data.get(key, default)`
unfoldable pub get_default : Str → Value → Fields → Value
get_default key default d = elim (get key d) [ none ↦ default | some v ↦ v ]

-- `value == text`
unfoldable pub is_text : Value → Str → Bool
is_text (str s) t = str_eq s t
is_text _ t = false

-- `value == 1`, which `True` satisfies too
unfoldable pub is_one : Value → Bool
is_one (int n) = n == 1
is_one (bool b) = b
is_one _ = false

lower_char : ℕ → ℕ
lower_char c = if leb 65 c && leb c 90 then c + 32 else c

-- `_require_hex_hash`; `value.lower()` of hexadecimal text
unfoldable pub require_hex_hash : ℕ → Value → Result Str
unfolding lower_char
require_hex_hash size (str s) = elim (unhex s) [
  | none ↦ raise governance_error
  | some raw ↦ if length raw * 2 == size then ok (map lower_char s) else raise governance_error
]
require_hex_hash size _ = raise governance_error

-- `_require_curator_id`
unfoldable pub require_curator_id : Value → Result Str
require_curator_id (str s) =
    if ltb (length (utf8 s)) 1 || ltb 128 (length (utf8 s)) then raise governance_error else ok s
require_curator_id _ = raise governance_error

-- `_require_reason_code`
unfoldable pub require_reason_code : Value → Result Str
require_reason_code (str []) = raise governance_error
require_reason_code (str (c ∷ s)) =
    if ltb 64 (length (utf8 (c ∷ s))) then raise governance_error else ok (c ∷ s)
require_reason_code _ = raise governance_error

-- `_require_height` with the least value 0
unfoldable pub require_height : Value → Result ℕ
require_height (int n) = ok n
require_height _ = raise governance_error

-- `_require_optional_hex_hash`, of what `data.get` returns
unfoldable pub require_optional_hex_hash : Option Value → Result (Option Str)
require_optional_hex_hash none = ok none
require_optional_hex_hash (some null) = ok none
require_optional_hex_hash (some v) = do h ← require_hex_hash 64 v; ok (some h)

-- the checks of `GovernanceSignature.from_dict` on the text of the signature
unfoldable pub require_signature : Value → Result Str
require_signature (str s) = elim (unhex s) [
  | none ↦ raise governance_error
  | some raw ↦ if length raw == 64 then ok s else raise governance_error
]
require_signature _ = raise governance_error

-- `GovernanceSignature.from_dict`
unfoldable pub parse_signature : Value → Result GovernanceSignature
parse_signature (obj d) = do
  let names = text "key_index" ∷ text "signature" ∷ []
  raise_if (not (keys_within names d && has_all names d)) governance_error
  key_index ← require_height (← item (text "key_index") d)
  signature ← require_signature (← item (text "signature") d)
  ok (record { key_index = key_index; signature_hex = signature })
parse_signature _ = raise governance_error

unfoldable pub parse_signatures : Items → Result (List GovernanceSignature)
parse_signatures nil = ok []
parse_signatures (cons v rest) = do s ← parse_signature v; ss ← parse_signatures rest; ok (s ∷ ss)

-- `_require_signatures`
unfoldable pub require_signatures : Value → Result (List GovernanceSignature)
require_signatures (arr items) = parse_signatures items
require_signatures _ = raise governance_error

-- The checks that the three `from_dict` begin with: keys, action, network and schema version.
unfoldable pub require_envelope : List Str → Str → Str → Fields → Result (Unit {0})
require_envelope names action network d = do
  raise_if (not (keys_within names d)) governance_error
  raise_if (not (is_text (get_default (text "action") null d) action)) governance_error
  raise_if (not (is_text (get_default (text "network_id") (str network_id) d) network))
      governance_error
  raise_if (not (is_one (get_default (text "schema_version") (int 1) d))) governance_error

abbrev shared_keys : List Str
shared_keys =
    text "action"
    ∷ text "curator_id"
    ∷ text "public_key_hex"
    ∷ text "previous_registry_root"
    ∷ text "governance_signatures"
    ∷ text "network_id"
    ∷ text "schema_version"
    ∷ []

-- `CuratorRegisterTx.from_dict`
unfoldable pub parse_register : Str → Fields → Result CuratorRegisterTx
parse_register network d = do
  require_envelope (text "activation_height" ∷ text "display_metadata_hash" ∷ shared_keys)
      (text "curator_register") network d
  curator_id ← require_curator_id (← item (text "curator_id") d)
  public_key ← require_hex_hash 64 (← item (text "public_key_hex") d)
  activation ← require_height (← item (text "activation_height") d)
  metadata ← require_optional_hex_hash (get (text "display_metadata_hash") d)
  root ← require_hex_hash 64 (← item (text "previous_registry_root") d)
  signatures ← require_signatures (← item (text "governance_signatures") d)
  ok (record {
    curator_id = curator_id;
    public_key_hex = public_key;
    activation_height = activation;
    display_metadata_hash = metadata;
    previous_registry_root = root;
    governance_signatures = signatures;
    network_id = network;
    schema_version = governance_schema_version;
  })

-- `CuratorRotateTx.from_dict`
unfoldable pub parse_rotate : Str → Fields → Result CuratorRotateTx
parse_rotate network d = do
  require_envelope
      (text "new_public_key_hex"
        ∷ text "activation_height"
        ∷ text "curator_signature"
        ∷ text "display_metadata_hash"
        ∷ shared_keys)
      (text "curator_rotate") network d
  curator_id ← require_curator_id (← item (text "curator_id") d)
  public_key ← require_hex_hash 64 (← item (text "public_key_hex") d)
  new_key ← require_hex_hash 64 (← item (text "new_public_key_hex") d)
  activation ← require_height (← item (text "activation_height") d)
  metadata ← require_optional_hex_hash (get (text "display_metadata_hash") d)
  root ← require_hex_hash 64 (← item (text "previous_registry_root") d)
  signatures ← require_signatures (← item (text "governance_signatures") d)
  signature ← require_hex_hash 128 (← item (text "curator_signature") d)
  ok (record {
    curator_id = curator_id;
    public_key_hex = public_key;
    new_public_key_hex = new_key;
    activation_height = activation;
    display_metadata_hash = metadata;
    previous_registry_root = root;
    governance_signatures = signatures;
    curator_signature_hex = signature;
    network_id = network;
    schema_version = governance_schema_version;
  })

-- `CuratorRevokeTx.from_dict`
unfoldable pub parse_revoke : Str → Fields → Result CuratorRevokeTx
parse_revoke network d = do
  require_envelope
      (text "revocation_height" ∷ text "reason_code" ∷ text "curator_signature" ∷ shared_keys)
      (text "curator_revoke") network d
  curator_id ← require_curator_id (← item (text "curator_id") d)
  public_key ← require_hex_hash 64 (← item (text "public_key_hex") d)
  revocation ← require_height (← item (text "revocation_height") d)
  reason ← require_reason_code (← item (text "reason_code") d)
  root ← require_hex_hash 64 (← item (text "previous_registry_root") d)
  signatures ← require_signatures (← item (text "governance_signatures") d)
  signature ← require_hex_hash 128 (← item (text "curator_signature") d)
  ok (record {
    curator_id = curator_id;
    public_key_hex = public_key;
    revocation_height = revocation;
    reason_code = reason;
    previous_registry_root = root;
    governance_signatures = signatures;
    curator_signature_hex = signature;
    network_id = network;
    schema_version = governance_schema_version;
  })

-- the choice by `action` in `_parse_governance_transaction`
unfoldable pub parse_body : Str → Fields → Result (Option GovernanceTx)
parse_body network d =
    let action = get_default (text "action") null d in
    if is_text action (text "curator_register")
    then (do tx ← parse_register network d; ok (some (register tx)))
    else if is_text action (text "curator_rotate")
    then (do tx ← parse_rotate network d; ok (some (rotate tx)))
    else if is_text action (text "curator_revoke")
    then (do tx ← parse_revoke network d; ok (some (revoke tx)))
    else ok none

-- `reorg._parse_governance_transaction`, where a missing body is the transaction itself. A body
-- that is no dictionary has no `get`.
unfoldable pub parse_in_reorg : Value → Result (Option GovernanceTx)
parse_in_reorg (obj d) =
    if is_text (get_default (text "type") null d) (text "governance")
    then elim (get_default (text "body") (obj d) d) [
      | obj body ↦ parse_body network_id body
      | _ ↦ raise attribute_error
    ]
    else ok none
parse_in_reorg _ = ok none
