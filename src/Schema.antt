-- ===== src/Schema.antt =====
-- chainbreaker/codec.py: `validate_v2_transaction` and the bodies that it accepts. What does not fit
-- raises `SchemaError`; a type that cannot be hashed raises `TypeError`.
use chain_breaker.Base.{
  Bool, true, false, not, ◌&&◌, ◌||◌, List, [], ◌∷◌, Str, str_eq, text, length, Result, ok, raise,
  ◌>>◌, raise_if, schema_error, type_error, leb, ◌==◌, if◌then◌else◌, drop, take,
}
use chain_breaker.Stdlib.{utf8}
use chain_breaker.Json.{
  Value, Items, Fields, null, int, negative, str, arr, obj, nil, cons, has_all, keys_within, member,
}
use chain_breaker.Governance.Parse.{get_default, is_text, is_one}

-- `if not test: raise SchemaError`
abbrev pub require : Bool → Result (Unit {0})
require test = raise_if (not test) schema_error

-- `[0-9a-f]`
unfoldable pub all_lower_hex : Str → Bool
all_lower_hex [] = true
all_lower_hex (c ∷ s) = (leb 48 c && leb c 57 || leb 97 c && leb c 102) && all_lower_hex s

-- `_is_hash`: the `$` of the pattern lets a final line feed pass.
unfoldable pub is_hash : Value → Bool
unfolding all_lower_hex
is_hash (str s) =
    length (take 64 s) == 64
    && all_lower_hex (take 64 s)
    && (str_eq (drop 64 s) [] || str_eq (drop 64 s) (10 ∷ []))
is_hash _ = false

unfoldable pub is_hash_or_null : Value → Bool
is_hash_or_null null = true
is_hash_or_null v = is_hash v

-- `_require_string(value, nullable=True)`
unfoldable pub is_text_or_null : Value → Bool
is_text_or_null null = true
is_text_or_null (str s) = leb (length (utf8 s)) 65535
is_text_or_null _ = false

-- `_require_int(value)`
unfoldable pub is_int : Value → Bool
is_int (int n) = true
is_int (negative n) = true
is_int _ = false

-- `_require_int(value, min_value=0)`
unfoldable pub is_height : Value → Bool
is_height (int n) = true
is_height _ = false

unfoldable pub is_str : Value → Bool
is_str (str s) = true
is_str _ = false

-- `isinstance(value, str) and value`
unfoldable pub is_nonempty : Value → Bool
is_nonempty (str (c ∷ s)) = true
is_nonempty _ = false

-- `body[key]` of a key that is there, or `body.get(key)`
abbrev pub value_of : Str → Fields → Value
value_of key body = get_default key null body

abbrev pub scripture_keys : List Str
scripture_keys =
    text "schema"
    ∷ text "content_hash"
    ∷ text "byte_length"
    ∷ text "media_type"
    ∷ text "title"
    ∷ text "language"
    ∷ text "source"
    ∷ text "source_uri"
    ∷ text "acquisition_date"
    ∷ text "license"
    ∷ text "parent_hash"
    ∷ text "metadata_hash"
    ∷ text "notes_hash"
    ∷ []

unfoldable pub texts_or_null : List Str → Fields → Bool
texts_or_null [] body = true
texts_or_null (key ∷ keys) body = is_text_or_null (value_of key body) && texts_or_null keys body

unfoldable pub is_int_or_null : Value → Bool
is_int_or_null null = true
is_int_or_null v = is_int v

-- `validate_scripture_body`
unfoldable pub validate_scripture_body : Fields → Result (Unit {0})
validate_scripture_body body = do
  require (keys_within (text "network_id" ∷ text "schema_version" ∷ scripture_keys) body)
  require (has_all scripture_keys body)
  require (is_text (value_of (text "schema") body) (text "chainbreaker-manifest-v1"))
  require (is_hash (value_of (text "content_hash") body))
  require (is_hash (value_of (text "metadata_hash") body))
  require (is_hash_or_null (value_of (text "parent_hash") body))
  require (is_hash_or_null (value_of (text "notes_hash") body))
  require (is_height (value_of (text "byte_length") body))
  require (
      texts_or_null
        (text "media_type"
          ∷ text "title"
          ∷ text "language"
          ∷ text "source"
          ∷ text "source_uri"
          ∷ text "license"
          ∷ [])
        body)
  require (is_int_or_null (value_of (text "acquisition_date") body))

abbrev pub genesis_keys : List Str
genesis_keys = text "network_id" ∷ text "message" ∷ text "timestamp" ∷ []

-- `validate_genesis_body`
unfoldable pub validate_genesis_body : Fields → Result (Unit {0})
validate_genesis_body body = do
  require (keys_within genesis_keys body && has_all genesis_keys body)
  require (is_str (value_of (text "network_id") body))
  require (is_str (value_of (text "message") body))
  require (is_int (value_of (text "timestamp") body))

-- The loop over the governance signatures.
unfoldable pub validate_signatures : Items → Result (Unit {0})
validate_signatures nil = ok tt
validate_signatures (cons (obj sig) rest) = do
  require (is_height (value_of (text "key_index") sig))
  require (is_str (value_of (text "signature") sig))
  validate_signatures rest
validate_signatures (cons _ rest) = raise schema_error

-- `not isinstance(sigs, list) or not sigs`, then the loop
unfoldable pub validate_signature_list : Value → Result (Unit {0})
validate_signature_list (arr (cons sig rest)) = validate_signatures (cons sig rest)
validate_signature_list _ = raise schema_error

-- What each action asks for; another action is refused before.
unfoldable pub validate_action : Value → Fields → Result (Unit {0})
validate_action action body =
    if is_text action (text "curator_register")
    then require (is_height (value_of (text "activation_height") body))
    else if is_text action (text "curator_rotate")
    then (do
      require (is_height (value_of (text "activation_height") body))
      require (is_hash (value_of (text "new_public_key_hex") body)))
    else (do
      require (is_height (value_of (text "revocation_height") body))
      require (is_nonempty (value_of (text "reason_code") body)))

-- `value not in {…}`, of texts: a list or a dictionary cannot be hashed
unfoldable pub require_among : List Str → Value → Result (Unit {0})
require_among names (arr items) = raise type_error
require_among names (obj fields) = raise type_error
require_among names (str s) = require (member s names)
require_among names _ = raise schema_error

-- the governance branch of `validate_v2_transaction`
unfoldable pub validate_governance_body : Fields → Result (Unit {0})
validate_governance_body body = do
  let action = value_of (text "action") body
  require_among (text "curator_register" ∷ text "curator_rotate" ∷ text "curator_revoke" ∷ [])
      action
  require (
      has_all
        (text "action"
          ∷ text "curator_id"
          ∷ text "public_key_hex"
          ∷ text "previous_registry_root"
          ∷ text "network_id"
          ∷ text "schema_version"
          ∷ [])
        body)
  require (is_nonempty (value_of (text "curator_id") body))
  require (is_hash (value_of (text "public_key_hex") body))
  require (is_hash (value_of (text "previous_registry_root") body))
  require (is_nonempty (value_of (text "network_id") body))
  require (is_one (value_of (text "schema_version") body))
  validate_action action body
  validate_signature_list (value_of (text "governance_signatures") body)

-- the body of a transaction of one of the three types
unfoldable pub validate_body : Value → Value → Result (Unit {0})
validate_body type (obj body) =
    if is_text type (text "genesis")
    then validate_genesis_body body
    else if is_text type (text "scripture")
    then validate_scripture_body body
    else validate_governance_body body
validate_body type _ = raise schema_error

-- `validate_v2_transaction`
unfoldable pub validate_v2_transaction : Value → Result (Unit {0})
validate_v2_transaction (obj tx) = do
  let type = value_of (text "type") tx
  require_among (text "genesis" ∷ text "governance" ∷ text "scripture" ∷ []) type
  validate_body type (value_of (text "body") tx)
validate_v2_transaction _ = raise schema_error
