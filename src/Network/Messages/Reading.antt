-- ===== src/Network/Messages/Reading.antt =====
-- chainbreaker/network/messages.py: the `from_payload` of every message, on the decoded payload.
use chain_breaker.Base.{
  ℕ, zero, suc, Bool, true, false, not, Option, none, some, List, [], ◌∷◌, Bytes, Str, text, Result,
  ok, raise, ◌>>=◌, ◌>>◌, raise_if, network_validation_error, key_error, ltb, ◌==◌, if◌then◌else◌,
}
use chain_breaker.Json.{
  Value, null, bool, int, negative, str, arr, obj, nil, cons, end, field, member,
}
use chain_breaker.Network.Payload.{
  ℤ, pos, negsuc, Conversions, require_fields, subscript, optional, get_or_default, hex_hash,
  nonnegative, list_within, each, int_of, str_of, read_limits, read_texts,
}
use chain_breaker.Network.Messages.{
  max_headers_response, max_blocks_response, max_inventory_entries, max_locator_size, HelloMessage,
  HeaderEntry, BlockEntry, Message, hello, hello_ack, ping, pong, get_headers, headers, get_block,
  block, get_archive, archive, inventory, get_data, reject,
}

-- the five fields that a greeting must have
abbrev pub hello_fields : List Str
hello_fields =
    text "protocol_version"
    ∷ text "network_id"
    ∷ text "genesis_hash"
    ∷ text "best_height"
    ∷ text "best_chain_work"
    ∷ []

-- the kinds of inventory
abbrev pub kinds : List Str
kinds = text "headers" ∷ text "blocks" ∷ text "archive" ∷ text "transactions" ∷ []

-- the numbers from 1 to a limit
unfoldable pub positive_within : ℕ → ℤ → Result ℕ
positive_within limit (pos zero) = raise network_validation_error
positive_within limit (pos (suc n)) =
    if ltb limit (suc n) then raise network_validation_error else ok (suc n)
positive_within limit (negsuc n) = raise network_validation_error

unfoldable pub positive : ℤ → Result ℕ
positive (pos zero) = raise network_validation_error
positive (pos (suc n)) = ok (suc n)
positive (negsuc n) = raise network_validation_error

-- `bool(value)`
unfoldable pub truth : Value → Bool
truth null = false
truth (bool b) = b
truth (int n) = not (n == 0)
truth (negative n) = true
truth (str []) = false
truth (str (c ∷ s)) = true
truth (arr nil) = false
truth (arr (cons v vs)) = true
truth (obj end) = false
truth (obj (field k v rest)) = true

module _ (python : Conversions) where
  -- `HelloMessage.from_payload` on the decoded payload
  unfoldable pub read_hello : Value → Result HelloMessage
  read_hello v = do
    require_fields hello_fields v
    genesis_hash ← hex_hash (← subscript (text "genesis_hash") v)
    best_chain_work ← hex_hash (← subscript (text "best_chain_work") v)
    best_height ← nonnegative (← subscript (text "best_height") v)
    protocol_version ← int_of python (← subscript (text "protocol_version") v)
    network_id ← subscript (text "network_id") v
    feature_bits ← read_texts python (← get_or_default (text "feature_bits") (arr nil) v)
    node_limits ← read_limits python (← get_or_default (text "node_limits") (obj end) v)
    ok (record {
      protocol_version = protocol_version;
      network_id = str_of python network_id;
      genesis_hash = genesis_hash;
      best_height = best_height;
      best_chain_work = best_chain_work;
      feature_bits = feature_bits;
      node_limits = node_limits;
    })

  -- `HelloAckMessage.from_payload`
  unfoldable pub read_hello_ack : Value → Result Message
  read_hello_ack v = do
    m ← read_hello v
    complete ← get_or_default (text "handshake_complete") (bool false) v
    ok (hello_ack m (truth complete))

  -- `PingMessage.from_payload` and `PongMessage.from_payload`
  unfoldable pub read_nonce : Value → Result ℕ
  read_nonce v = do require_fields (text "nonce" ∷ []) v; nonnegative (← subscript (text "nonce") v)

  abbrev pub read_stop : Option Value → Result (Option Str)
  read_stop none = ok none
  read_stop (some null) = ok none
  read_stop (some v) = do h ← hex_hash v; ok (some h)

  -- `GetHeadersMessage.from_payload`
  unfoldable pub read_get_headers : Value → Result Message
  read_get_headers v = do
    found ← get_or_default (text "start_hashes") (arr nil) v
    start_hashes ← each hex_hash (← list_within max_locator_size found)
    stop_hash ← read_stop (← optional (text "stop_hash") v)
    count ← int_of python (← get_or_default (text "max_count") (int 0) v)
    max_count ← positive_within max_headers_response count
    ok (get_headers start_hashes stop_hash max_count)

  abbrev pub hex_text : Value → Result Str
  hex_text (str s) = ok s
  hex_text v = raise network_validation_error

  abbrev pub or_null : Option Value → Value
  or_null none = null
  or_null (some v) = v

  unfoldable pub read_header : Value → Result HeaderEntry
  read_header v = do
    hash ← hex_hash (← subscript (text "hash") v)
    height ← nonnegative (← subscript (text "height") v)
    header_bytes ← optional (text "header_bytes") v
    raw ← hex_text (or_null header_bytes)
    ok (record { height = height; hash = hash; header_bytes = raw })

  -- `HeadersMessage.from_payload`
  unfoldable pub read_headers : Value → Result Message
  read_headers v = do
    found ← get_or_default (text "headers") (arr nil) v
    es ← each read_header (← list_within max_headers_response found)
    ok (headers es)

  -- `GetBlockMessage.from_payload`
  unfoldable pub read_get_block : Value → Result Message
  read_get_block v = do
    found ← get_or_default (text "hashes") (arr nil) v
    hashes ← each hex_hash (← list_within max_blocks_response found)
    total ← int_of python (← get_or_default (text "max_total_bytes") (int 0) v)
    max_total_bytes ← positive total
    ok (get_block hashes max_total_bytes)

  unfoldable pub read_block_entry : Value → Result BlockEntry
  read_block_entry v = do
    require_fields (text "hash" ∷ text "block_bytes" ∷ []) v
    hash ← hex_hash (← subscript (text "hash") v)
    block_bytes ← subscript (text "block_bytes") v
    ok (record { hash = hash; block_bytes = str_of python block_bytes })

  -- `BlockMessage.from_payload`
  unfoldable pub read_block : Value → Result Message
  read_block v = do
    found ← get_or_default (text "blocks") (arr nil) v
    bs ← each read_block_entry (← list_within max_blocks_response found)
    ok (block bs)

  -- `GetArchiveMessage.from_payload` and `ArchiveMessage.from_payload`
  unfoldable pub read_content_hash : Value → Result Str
  read_content_hash v = do
    require_fields (text "content_hash" ∷ []) v
    hex_hash (← subscript (text "content_hash") v)

  -- `InventoryMessage.from_payload` and `GetDataMessage.from_payload`
  unfoldable pub read_kind : Value → Result (Str × List Str)
  read_kind v = do
    named ← get_or_default (text "type") (str []) v
    raise_if (not (member (str_of python named) kinds)) network_validation_error
    found ← get_or_default (text "hashes") (arr nil) v
    hashes ← each hex_hash (← list_within max_inventory_entries found)
    ok (str_of python named, hashes)

  abbrev pub read_offending : Option Value → Result (Option ℤ)
  read_offending none = ok none
  read_offending (some null) = ok none
  read_offending (some v) = do n ← int_of python v; ok (some n)

  -- `RejectMessage.from_payload`
  unfoldable pub read_reject : Value → Result Message
  read_reject v = do
    require_fields (text "code" ∷ text "reason" ∷ []) v
    offending ← read_offending (← optional (text "offending_message_type") v)
    code ← subscript (text "code") v
    reason ← subscript (text "reason") v
    ok (reject (str_of python code) (str_of python reason) offending)

  -- `MESSAGE_PAYLOAD_CLASSES[message_type].from_payload` on the decoded payload
  unfoldable pub read_message : ℕ → Value → Result Message
  read_message kind v =
      if kind == 1
      then (do m ← read_hello v; ok (hello m))
      else if kind == 2
      then read_hello_ack v
      else if kind == 3
      then (do n ← read_nonce v; ok (ping n))
      else if kind == 4
      then (do n ← read_nonce v; ok (pong n))
      else if kind == 5
      then read_get_headers v
      else if kind == 6
      then read_headers v
      else if kind == 7
      then read_get_block v
      else if kind == 8
      then read_block v
      else if kind == 9
      then (do h ← read_content_hash v; ok (get_archive h))
      else if kind == 10
      then (do h ← read_content_hash v; ok (archive h))
      else if kind == 11
      then (do p ← read_kind v; ok (inventory p.0 p.1))
      else if kind == 12
      then (do p ← read_kind v; ok (get_data p.0 p.1))
      else if kind == 13
      then read_reject v
      else raise key_error

  -- `from_payload`
  unfoldable pub from_payload : ℕ → Bytes → Result Message
  from_payload kind payload = do v ← python.loads payload; read_message kind v
