-- ===== src/Network/Messages.antt =====
-- chainbreaker/network/messages.py: the payloads of the messages. A hash that is validated is a text.
pub mod Reading
pub mod RoundTrip
pub mod Examples
use chain_breaker.Base.{
  ℕ, zero, suc, ◌+◌, Bool, true, false, not, ◌||◌, ◌&&◌, Option, none, some, List, [], ◌∷◌, ◌++◌,
  Bytes, Str, str_eq, text, length, Result, ok, raise, ◌>>=◌, ◌>>◌, raise_if, Exn,
  network_validation_error, key_error, ltb, leb, ◌==◌, if◌then◌else◌,
}
use chain_breaker.Json.{
  Value, Items, Fields, null, bool, int, negative, str, arr, obj, nil, cons, end, field, get, has,
  member,
}
use chain_breaker.Registry.{bytes_lt, sorted_texts}
use chain_breaker.Network.Payload.{
  ℤ, pos, negsuc, Conversions, holds, require_fields, subscript, optional, get_or_default, hex_hash,
  nonnegative, list_within, each, int_of, str_of, read_limits, read_texts,
}

abbrev pub max_headers_response : ℕ
max_headers_response = 2000

abbrev pub max_blocks_response : ℕ
max_blocks_response = 32

abbrev pub max_inventory_entries : ℕ
max_inventory_entries = 5000

abbrev pub max_locator_size : ℕ
max_locator_size = 32

-- The fields of `HelloMessage`, and of `HelloAckMessage` less its last one.
pub record HelloMessage : Type 0 where
  pub protocol_version : ℤ
  pub network_id : Str
  pub genesis_hash : Str
  pub best_height : ℕ
  pub best_chain_work : Str
  pub feature_bits : List Str
  pub node_limits : List (Str × ℤ)

-- `HeaderEntry`
pub record HeaderEntry : Type 0 where
  pub height : ℕ
  pub hash : Str
  pub header_bytes : Str

-- an entry of `BlockMessage.blocks`
pub record BlockEntry : Type 0 where
  pub hash : Str
  pub block_bytes : Str

-- The classes of `MESSAGE_PAYLOAD_CLASSES`.
pub data Message : Type 0 where
  hello : HelloMessage → Message
  hello_ack : HelloMessage → Bool → Message
  ping : ℕ → Message
  pong : ℕ → Message
  get_headers : List Str → Option Str → ℕ → Message
  headers : List HeaderEntry → Message
  get_block : List Str → ℕ → Message
  block : List BlockEntry → Message
  get_archive : Str → Message
  archive : Str → Message
  inventory : Str → List Str → Message
  get_data : Str → List Str → Message
  reject : Str → Str → Option ℤ → Message

-- the types 0x01 to 0x0D
unfoldable pub message_type : Message → ℕ
message_type (hello m) = 1
message_type (hello_ack m b) = 2
message_type (ping n) = 3
message_type (pong n) = 4
message_type (get_headers hs stop n) = 5
message_type (headers es) = 6
message_type (get_block hs n) = 7
message_type (block bs) = 8
message_type (get_archive h) = 9
message_type (archive h) = 10
message_type (inventory t hs) = 11
message_type (get_data t hs) = 12
message_type (reject c r t) = 13

-- `sorted(d.items())`, of distinct keys
unfoldable pub insert_limit : Str × ℤ → List (Str × ℤ) → List (Str × ℤ)
insert_limit l [] = l ∷ []
insert_limit l (m ∷ ms) =
    let behind = insert_limit l ms in if bytes_lt m.0 l.0 then m ∷ behind else l ∷ m ∷ ms

unfoldable pub sorted_limits : List (Str × ℤ) → List (Str × ℤ)
sorted_limits [] = []
sorted_limits (l ∷ ls) = insert_limit l (sorted_limits ls)

unfoldable pub of_int : ℤ → Value
of_int (pos n) = int n
of_int (negsuc n) = negative n

unfoldable pub of_texts : List Str → Items
of_texts [] = nil
of_texts (s ∷ ss) = cons (str s) (of_texts ss)

unfoldable pub of_limits : List (Str × ℤ) → Fields
of_limits [] = end
of_limits (l ∷ ls) = field l.0 (of_int l.1) (of_limits ls)

unfoldable pub of_headers : List HeaderEntry → Items
of_headers [] = nil
of_headers (e ∷ es) =
    cons
      (obj (
        field (text "height") (int e.height) (
          field (text "hash") (str e.hash) (field (text "header_bytes") (str e.header_bytes) end))))
      (of_headers es)

unfoldable pub of_blocks : List BlockEntry → Items
of_blocks [] = nil
of_blocks (b ∷ bs) =
    cons
      (obj (field (text "hash") (str b.hash) (field (text "block_bytes") (str b.block_bytes) end)))
      (of_blocks bs)

abbrev pub of_optional : Option Str → Value
of_optional none = null
of_optional (some s) = str s

-- the entries that both greetings have, with what follows them
unfoldable pub of_hello : HelloMessage → Fields → Fields
of_hello m rest = field (text "protocol_version") (of_int m.protocol_version) (
    field (text "network_id") (str m.network_id) (
      field (text "genesis_hash") (str m.genesis_hash) (
        field (text "best_height") (int m.best_height) (
          field (text "best_chain_work") (str m.best_chain_work) (
            field (text "feature_bits") (arr (of_texts (sorted_texts m.feature_bits)))
              (field (text "node_limits") (obj (of_limits (sorted_limits m.node_limits))) rest))))))

abbrev pub of_kind : Str → List Str → Fields
of_kind kind hashes =
    field (text "type") (str kind) (field (text "hashes") (arr (of_texts hashes)) end)

-- the dictionary that `to_payload` encodes
unfoldable pub entries : Message → Fields
entries (hello m) = of_hello m end
entries (hello_ack m complete) = of_hello m (field (text "handshake_complete") (bool complete) end)
entries (ping nonce) = field (text "nonce") (int nonce) end
entries (pong nonce) = field (text "nonce") (int nonce) end
entries (get_headers start_hashes stop_hash max_count) =
    field (text "start_hashes") (arr (of_texts start_hashes)) (
      field (text "stop_hash") (of_optional stop_hash)
        (field (text "max_count") (int max_count) end))
entries (headers es) = field (text "headers") (arr (of_headers es)) end
entries (get_block hashes max_total_bytes) =
    field (text "hashes") (arr (of_texts hashes))
      (field (text "max_total_bytes") (int max_total_bytes) end)
entries (block bs) = field (text "blocks") (arr (of_blocks bs)) end
entries (get_archive h) = field (text "content_hash") (str h) end
entries (archive h) = field (text "content_hash") (str h) end
entries (inventory kind hashes) = of_kind kind hashes
entries (get_data kind hashes) = of_kind kind hashes
entries (reject code reason none) =
    field (text "code") (str code) (field (text "reason") (str reason) end)
entries (reject code reason (some t)) =
    field (text "code") (str code)
      (field (text "reason") (str reason) (field (text "offending_message_type") (of_int t) end))
