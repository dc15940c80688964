-- ===== src/Network/Messages/RoundTrip.antt =====
-- What is encoded is read again: the messages of chainbreaker/network/messages.py.
use chain_breaker.Base.{
  ℕ, zero, suc, ◌≤◌, ◌<◌, ◌≡◌, refl, ap, Bool, true, false, Option, none, some, List, [], ◌∷◌, Str,
  text, bytes_eq, length, ok, ◌>>=◌, arith, ltb,
}
use chain_breaker.Json.{Fields, bool, int, str, arr, obj, end, field, get, has, member}
use chain_breaker.Network.Payload.{
  ℤ, pos, negsuc, Conversions, is_hex_hash, holds, require_fields, subscript, optional,
  get_or_default, hex_hash, nonnegative, items_list, iterate, list_within, each, int_of, str_of,
  limits_of, read_limits, read_texts,
}
use chain_breaker.Network.Messages.{
  max_headers_response, max_blocks_response, max_inventory_entries, max_locator_size, HelloMessage,
  HeaderEntry, BlockEntry, Message, hello, hello_ack, ping, pong, get_headers, headers, get_block,
  block, get_archive, archive, inventory, get_data, reject, message_type, sorted_limits, of_int,
  of_texts, of_limits, of_headers, of_blocks, of_hello, of_kind, entries,
}
use chain_breaker.Registry.{sorted_texts}
use chain_breaker.Network.Messages.Reading.{
  kinds, positive_within, positive, truth, read_hello, read_hello_ack, read_nonce, read_get_headers,
  read_header, read_headers, read_get_block, read_block_entry, read_block, read_content_hash,
  read_kind, read_reject, read_message,
}

abbrev AreHashes : List Str → Type 0
AreHashes [] = Unit
AreHashes (h ∷ hs) = (is_hex_hash h ≡ true) × AreHashes hs

abbrev AreHeaders : List HeaderEntry → Type 0
AreHeaders [] = Unit
AreHeaders (e ∷ es) = (is_hex_hash e.hash ≡ true) × AreHeaders es

abbrev AreBlocks : List BlockEntry → Type 0
AreBlocks [] = Unit
AreBlocks (b ∷ bs) = (is_hex_hash b.hash ≡ true) × AreBlocks bs

abbrev IsHashOrNone : Option Str → Type 0
IsHashOrNone none = Unit
IsHashOrNone (some h) = is_hex_hash h ≡ true

abbrev IsGreeting : HelloMessage → Type 0
IsGreeting m = (is_hex_hash m.genesis_hash ≡ true) × (is_hex_hash m.best_chain_work ≡ true)

-- Every hash is 64 lower-case digits, every list and count is within its limit, and every kind is known.
abbrev pub IsWellFormed : Message → Type 0
IsWellFormed (hello m) = IsGreeting m
IsWellFormed (hello_ack m complete) = IsGreeting m
IsWellFormed (ping n) = Unit
IsWellFormed (pong n) = Unit
IsWellFormed (get_headers hs stop n) =
    AreHashes hs
    × (length hs ≤ max_locator_size)
    × IsHashOrNone stop
    × (0 < n)
    × (n ≤ max_headers_response)
IsWellFormed (headers es) = AreHeaders es × (length es ≤ max_headers_response)
IsWellFormed (get_block hs n) = AreHashes hs × (length hs ≤ max_blocks_response) × (0 < n)
IsWellFormed (block bs) = AreBlocks bs × (length bs ≤ max_blocks_response)
IsWellFormed (get_archive h) = is_hex_hash h ≡ true
IsWellFormed (archive h) = is_hex_hash h ≡ true
IsWellFormed (inventory kind hs) =
    (member kind kinds ≡ true) × AreHashes hs × (length hs ≤ max_inventory_entries)
IsWellFormed (get_data kind hs) =
    (member kind kinds ≡ true) × AreHashes hs × (length hs ≤ max_inventory_entries)
IsWellFormed (reject code reason t) = Unit

-- The greeting as it is sent: the features and the limits are sorted.
abbrev sorted_hello : HelloMessage → HelloMessage
sorted_hello m = record m {
  feature_bits = sorted_texts m.feature_bits;
  node_limits = sorted_limits m.node_limits;
}

abbrev pub sorted_message : Message → Message
sorted_message (hello m) = hello (sorted_hello m)
sorted_message (hello_ack m complete) = hello_ack (sorted_hello m) complete
sorted_message m = m

length-of_texts : (ss : List Str) → length (items_list (of_texts ss)) ≡ length ss
unfolding items_list of_texts
length-of_texts [] = refl
length-of_texts (s ∷ ss) = ap suc (length-of_texts ss)

each-of_texts : (hs : List Str) → AreHashes hs → each hex_hash (items_list (of_texts hs)) ≡ ok hs
unfolding items_list of_texts each hex_hash
each-of_texts [] w = refl
each-of_texts (h ∷ hs) w = rw (w.0, each-of_texts hs w.1) refl

list_within-of_texts :
    (limit : ℕ) (hs : List Str)
    → length hs ≤ limit
    → list_within limit (arr (of_texts hs)) ≡ ok (items_list (of_texts hs))
unfolding list_within
list_within-of_texts limit hs h =
    let fits : ltb limit (length (items_list (of_texts hs))) ≡ false =
      ground (arith, length-of_texts hs, h) in
    rw fits refl

module _ (python : Conversions) where
  int_of-of_int : (z : ℤ) → int_of python (of_int z) ≡ ok z
  unfolding int_of of_int
  int_of-of_int (pos n) = refl
  int_of-of_int (negsuc n) = refl

  read_texts-of_texts : (ss : List Str) → read_texts python (arr (of_texts ss)) ≡ ok ss
  unfolding read_texts iterate items_list of_texts str_of
  read_texts-of_texts [] = refl
  read_texts-of_texts (s ∷ ss) = ground (arith, read_texts-of_texts ss)

  read_limits-of_limits : (ls : List (Str × ℤ)) → read_limits python (obj (of_limits ls)) ≡ ok ls
  unfolding read_limits limits_of of_limits
  read_limits-of_limits [] = refl
  read_limits-of_limits (l ∷ ls) = rw (int_of-of_int l.1, read_limits-of_limits ls) refl

  -- The entries of a greeting, whatever follows them.
  read_hello-of_hello :
      (m : HelloMessage) (rest : Fields)
      → IsGreeting m
      → read_hello python (obj (of_hello m rest)) ≡ ok (sorted_hello m)
  unfolding read_hello of_hello require_fields holds has subscript get get_or_default optional
      hex_hash nonnegative str_of bytes_eq
  read_hello-of_hello m rest w =
      rw
        (
          w.0,
          w.1,
          int_of-of_int m.protocol_version,
          read_texts-of_texts (sorted_texts m.feature_bits),
          read_limits-of_limits (sorted_limits m.node_limits),
        )
        refl

  each-of_headers :
      (es : List HeaderEntry)
      → AreHeaders es
      → (each (read_header python) (items_list (of_headers es)) ≡ ok es)
        × (length (items_list (of_headers es)) ≡ length es)
  unfolding each items_list of_headers read_header subscript optional get hex_hash nonnegative
      bytes_eq
  each-of_headers [] w = (refl, refl)
  each-of_headers (e ∷ es) w =
      let (same, size) = each-of_headers es w.1 in (rw (w.0, same) refl, ap suc size)

  each-of_blocks :
      (bs : List BlockEntry)
      → AreBlocks bs
      → (each (read_block_entry python) (items_list (of_blocks bs)) ≡ ok bs)
        × (length (items_list (of_blocks bs)) ≡ length bs)
  unfolding each items_list of_blocks read_block_entry require_fields holds has subscript get
      hex_hash str_of bytes_eq
  each-of_blocks [] w = (refl, refl)
  each-of_blocks (b ∷ bs) w =
      let (same, size) = each-of_blocks bs w.1 in (rw (w.0, same) refl, ap suc size)

  read_headers-of_headers :
      (es : List HeaderEntry)
      → AreHeaders es
      → length es ≤ max_headers_response
      → read_headers python (obj (entries (headers es))) ≡ ok (headers es)
  unfolding read_headers entries get_or_default optional get list_within bytes_eq
  read_headers-of_headers es w h =
      let (same, size) = each-of_headers es w in
      let fits : ltb max_headers_response (length (items_list (of_headers es))) ≡ false =
        ground (arith, size, h) in
      rw (fits, same) refl

  read_block-of_blocks :
      (bs : List BlockEntry)
      → AreBlocks bs
      → length bs ≤ max_blocks_response
      → read_block python (obj (entries (block bs))) ≡ ok (block bs)
  unfolding read_block entries get_or_default optional get list_within bytes_eq
  read_block-of_blocks bs w h =
      let (same, size) = each-of_blocks bs w in
      let fits : ltb max_blocks_response (length (items_list (of_blocks bs))) ≡ false =
        ground (arith, size, h) in
      rw (fits, same) refl

  -- The two messages that name a kind.
  read_kind-of_kind :
      (kind : Str) (hs : List Str)
      → member kind kinds ≡ true
      → AreHashes hs
      → length hs ≤ max_inventory_entries
      → read_kind python (obj (of_kind kind hs)) ≡ ok (kind, hs)
  unfolding read_kind get_or_default optional get str_of bytes_eq
  read_kind-of_kind kind hs known w h =
      rw (known, list_within-of_texts max_inventory_entries hs h, each-of_texts hs w) refl

  read_nonce-entries : (n : ℕ) → read_nonce python (obj (field (text "nonce") (int n) end)) ≡ ok n
  unfolding read_nonce require_fields holds has subscript get nonnegative bytes_eq
  read_nonce-entries n = refl

  read_content_hash-entries :
      (h : Str)
      → is_hex_hash h ≡ true
      → read_content_hash python (obj (field (text "content_hash") (str h) end)) ≡ ok h
  unfolding read_content_hash require_fields holds has subscript get hex_hash bytes_eq
  read_content_hash-entries h w = rw w refl

  read_get_headers-entries :
      (hs : List Str) (stop : Option Str) (n : ℕ)
      → IsWellFormed (get_headers hs stop n)
      → read_get_headers python (obj (entries (get_headers hs stop n))) ≡ ok (get_headers hs stop n)
  unfolding read_get_headers entries get_or_default optional get int_of positive_within hex_hash
      bytes_eq
  read_get_headers-entries hs stop zero w = absurd (omega arith)
  read_get_headers-entries hs none (suc n) w =
      let fits : ltb max_headers_response (suc n) ≡ false = ground (arith, w.4) in
      rw (list_within-of_texts max_locator_size hs w.1, each-of_texts hs w.0, fits) refl
  read_get_headers-entries hs (some h) (suc n) w =
      let fits : ltb max_headers_response (suc n) ≡ false = ground (arith, w.4) in
      let good : is_hex_hash h ≡ true = w.2 in
      rw (list_within-of_texts max_locator_size hs w.1, each-of_texts hs w.0, good, fits) refl

  read_get_block-entries :
      (hs : List Str) (n : ℕ)
      → IsWellFormed (get_block hs n)
      → read_get_block python (obj (entries (get_block hs n))) ≡ ok (get_block hs n)
  unfolding read_get_block entries get_or_default optional get int_of positive bytes_eq
  read_get_block-entries hs zero w = absurd (omega arith)
  read_get_block-entries hs (suc n) w =
      rw (list_within-of_texts max_blocks_response hs w.1, each-of_texts hs w.0) refl

  read_reject-entries :
      (code reason : Str) (t : Option ℤ)
      → read_reject python (obj (entries (reject code reason t))) ≡ ok (reject code reason t)
  unfolding read_reject entries require_fields holds has optional subscript get str_of int_of of_int
      bytes_eq
  read_reject-entries code reason none = refl
  read_reject-entries code reason (some (pos n)) = refl
  read_reject-entries code reason (some (negsuc n)) = refl

  -- The last entry of `HelloAckMessage`, behind those of the greeting.
  read_complete :
      (m : HelloMessage) (complete : Bool)
      → get_or_default
            (text "handshake_complete")
            (bool false)
            (obj (of_hello m (field (text "handshake_complete") (bool complete) end)))
          >>= (λ v. ok (hello_ack (sorted_hello m) (truth v)))
        ≡ ok (hello_ack (sorted_hello m) complete)
  unfolding get_or_default optional get of_hello truth bytes_eq
  read_complete m complete = refl

  read_hello_ack-entries :
      (m : HelloMessage) (complete : Bool)
      → IsGreeting m
      → read_hello_ack python (obj (entries (hello_ack m complete)))
        ≡ ok (hello_ack (sorted_hello m) complete)
  unfolding read_hello_ack entries
  read_hello_ack-entries m complete w =
      rw (read_hello-of_hello m (field (text "handshake_complete") (bool complete) end) w)
        (read_complete m complete)

  -- The dictionary that `to_payload` encodes is read by the `from_payload` of the message's type, and
  -- gives the message again, the features and limits of a greeting sorted: for every message whose
  -- hashes are 64 lower-case digits, whose lists and counts are within their limits, and whose kind of
  -- inventory is known.
  pub read_message-entries :
      (m : Message)
      → IsWellFormed m
      → read_message python (message_type m) (obj (entries m)) ≡ ok (sorted_message m)
  unfolding read_message message_type entries
  read_message-entries (hello m) w = rw (read_hello-of_hello m end w) refl
  read_message-entries (hello_ack m complete) w = read_hello_ack-entries m complete w
  read_message-entries (ping n) w = rw (read_nonce-entries n) refl
  read_message-entries (pong n) w = rw (read_nonce-entries n) refl
  read_message-entries (get_headers hs stop n) w = read_get_headers-entries hs stop n w
  read_message-entries (headers es) w = read_headers-of_headers es w.0 w.1
  read_message-entries (get_block hs n) w = read_get_block-entries hs n w
  read_message-entries (block bs) w = read_block-of_blocks bs w.0 w.1
  read_message-entries (get_archive h) w = rw (read_content_hash-entries h w) refl
  read_message-entries (archive h) w = rw (read_content_hash-entries h w) refl
  read_message-entries (inventory kind hs) w = rw (read_kind-of_kind kind hs w.0 w.1 w.2) refl
  read_message-entries (get_data kind hs) w = rw (read_kind-of_kind kind hs w.0 w.1 w.2) refl
  read_message-entries (reject code reason t) w = read_reject-entries code reason t
