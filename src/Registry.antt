-- ===== src/Registry.antt =====
-- chainbreaker/registry_state.py: the records of curators, the lookups on them, and the canonical
-- serialization that the registry root hashes.
pub mod Reducer
pub mod Deserialize
use chain_breaker.Base.{
  ℕ, zero, suc, ◌+◌, ◌^◌, Bool, true, false, not, ◌&&◌, ◌||◌, Option, none, some, List, [], ◌∷◌,
  ◌++◌, Bytes, Str, str_eq, length, replicate, Result, ok, raise, ◌>>=◌, registry_error,
  overflow_error, Exn, ltb, leb, ◌==◌, if◌then◌else◌,
}
use chain_breaker.Stdlib.{to_le, hex, utf8}
use chain_breaker.Platform.{Platform, from_hex, hash_single_hex}
use chain_breaker.Governance.{network_id, governance_schema_version}

-- `CuratorRecord`
pub record CuratorRecord : Type 0 where
  pub curator_id : Str
  pub public_key_hex : Str
  pub activation_height : ℕ
  pub revocation_height : Option ℕ
  pub previous_key_hex : Option Str
  pub registration_txid : Str
  pub latest_rotation_txid : Option Str

-- `RegistryState`
pub record RegistryState : Type 0 where
  pub records : List CuratorRecord
  pub governance_version : ℕ
  pub network_id : Str
  pub governance_keys : List Str
  pub threshold : ℕ

-- `RegistryState(records=records)`: every other field has its default
unfoldable pub with_defaults : List CuratorRecord → RegistryState
with_defaults records = record {
  records = records;
  governance_version = governance_schema_version;
  network_id = network_id;
  governance_keys = [];
  threshold = 0;
}

-- `CuratorRecord.is_active_at`
unfoldable pub is_active_at : CuratorRecord → ℕ → Bool
is_active_at r height =
    leb r.activation_height height
    && elim r.revocation_height [ none ↦ true | some stop ↦ ltb height stop ]

-- `[r for r in records if r.curator_id == curator_id]`
unfoldable pub matches : Str → List CuratorRecord → List CuratorRecord
matches curator_id [] = []
matches curator_id (r ∷ rs) =
    let found = matches curator_id rs in if str_eq r.curator_id curator_id then r ∷ found else found

-- `[r for r in records if r.curator_id != curator_id]`
unfoldable pub others : Str → List CuratorRecord → List CuratorRecord
others curator_id [] = []
others curator_id (r ∷ rs) =
    let found = others curator_id rs in if str_eq r.curator_id curator_id then found else r ∷ found

-- `max(…, key=lambda r: r.activation_height)`: the first of the greatest
unfoldable pub latest : CuratorRecord → List CuratorRecord → CuratorRecord
latest best [] = best
latest best (r ∷ rs) =
    latest (if ltb best.activation_height r.activation_height then r else best) rs

unfoldable pub latest_of : List CuratorRecord → Option CuratorRecord
unfolding latest
latest_of [] = none
latest_of (r ∷ rs) = some (latest r rs)

-- `RegistryState.by_id`
unfoldable pub by_id : RegistryState → Str → Option CuratorRecord
by_id state curator_id = latest_of (matches curator_id state.records)

-- `RegistryState.is_active`
unfoldable pub is_active : RegistryState → Str → ℕ → Bool
is_active state curator_id height = elim (by_id state curator_id) [
  | none ↦ false
  | some r ↦ is_active_at r height
]

-- `RegistryState.active_key_at`
unfoldable pub active_key_at : RegistryState → Str → ℕ → Option Str
active_key_at state curator_id height = elim (by_id state curator_id) [
  | none ↦ none
  | some r ↦ if is_active_at r height then some r.public_key_hex else none
]

-- `record.previous_key_hex == public_key_hex`
unfoldable pub is_previous : Option Str → Str → Bool
is_previous none key = false
is_previous (some k) key = str_eq k key

-- One round of the loop of `key_was_valid_at`.
unfoldable pub attests : CuratorRecord → Str → ℕ → Bool
unfolding is_previous
attests r key height =
    (str_eq r.public_key_hex key && is_active_at r height)
    || (is_previous r.previous_key_hex key && ltb height r.activation_height)

unfoldable pub any_attests : List CuratorRecord → Str → ℕ → Bool
any_attests [] key height = false
any_attests (r ∷ rs) key height = attests r key height || any_attests rs key height

-- `RegistryState.key_was_valid_at`
unfoldable pub key_was_valid_at : RegistryState → Str → Str → ℕ → Bool
key_was_valid_at state curator_id key height =
    any_attests (matches curator_id state.records) key height

-- The order of `bytes` in Python.
unfoldable pub bytes_lt : Bytes → Bytes → Bool
bytes_lt xs [] = false
bytes_lt [] (y ∷ ys) = true
bytes_lt (x ∷ xs) (y ∷ ys) = ltb x y || (x == y && bytes_lt xs ys)

-- `sorted` on texts
unfoldable pub insert_text : Str → List Str → List Str
insert_text s [] = s ∷ []
insert_text s (t ∷ ts) =
    let behind = insert_text s ts in if bytes_lt t s then t ∷ behind else s ∷ t ∷ ts

unfoldable pub sorted_texts : List Str → List Str
sorted_texts [] = []
sorted_texts (s ∷ ss) = insert_text s (sorted_texts ss)

-- `sorted(records, key=lambda r: r.curator_id.encode("utf-8"))`, which is stable
unfoldable pub insert_by_id : CuratorRecord → List CuratorRecord → List CuratorRecord
insert_by_id r [] = r ∷ []
insert_by_id r (s ∷ rest) =
    let behind = insert_by_id r rest in
    if bytes_lt (utf8 s.curator_id) (utf8 r.curator_id) then s ∷ behind else r ∷ s ∷ rest

unfoldable pub sorted_by_id : List CuratorRecord → List CuratorRecord
sorted_by_id [] = []
sorted_by_id (r ∷ rs) = insert_by_id r (sorted_by_id rs)

-- `n.to_bytes(width, "little")`
unfoldable pub to_bytes : ℕ → ℕ → Result Bytes
to_bytes width n = if ltb n (256 ^ width) then ok (to_le width n) else raise overflow_error

-- `_encode_varint`
unfoldable pub encode_varint : ℕ → Result Bytes
encode_varint n =
    if ltb n 0xFD
    then ok (n ∷ [])
    else if leb n 0xFFFF
    then (do bs ← to_bytes 2 n; ok (0xFD ∷ bs))
    else if leb n 0xFFFFFFFF
    then (do bs ← to_bytes 4 n; ok (0xFE ∷ bs))
    else if leb n 0xFFFFFFFFFFFFFFFF
    then (do bs ← to_bytes 8 n; ok (0xFF ∷ bs))
    else raise registry_error

-- `_encode_str`
unfoldable pub encode_str : Str → Result Bytes
encode_str s = do size ← encode_varint (length (utf8 s)); ok (size ++ utf8 s)

-- `bytes.fromhex(h) if h else bytes(32)`
unfoldable pub optional_hash : Option Str → Result Bytes
optional_hash none = ok (replicate 32 0)
optional_hash (some []) = ok (replicate 32 0)
optional_hash (some (c ∷ cs)) = from_hex (c ∷ cs)

abbrev pub never : ℕ
never = 0xFFFFFFFFFFFFFFFF

abbrev pub revocation_value : Option ℕ → ℕ
revocation_value none = never
revocation_value (some h) = h

-- `_serialize_record`
unfoldable pub serialize_record : CuratorRecord → Result Bytes
serialize_record r = do
  version ← to_bytes 4 governance_schema_version
  curator_id ← encode_str r.curator_id
  public_key ← from_hex r.public_key_hex
  activation ← to_bytes 8 r.activation_height
  revocation ← to_bytes 8 (revocation_value r.revocation_height)
  previous ← optional_hash r.previous_key_hex
  registration ← from_hex r.registration_txid
  rotation ← optional_hash r.latest_rotation_txid
  ok (
      version
      ++ (curator_id
          ++ (public_key
              ++ (activation ++ (revocation ++ (previous ++ (registration ++ rotation)))))))

unfoldable pub serialize_records : List CuratorRecord → Result Bytes
serialize_records [] = ok []
serialize_records (r ∷ rs) = do
  first ← serialize_record r
  rest ← serialize_records rs
  ok (first ++ rest)

unfoldable pub serialize_keys : List Str → Result Bytes
serialize_keys [] = ok []
serialize_keys (k ∷ ks) = do first ← from_hex k; rest ← serialize_keys ks; ok (first ++ rest)

-- `serialize_registry_state`
unfoldable pub serialize_registry_state : RegistryState → Result Bytes
serialize_registry_state state = do
  let records = sorted_by_id state.records
  version ← to_bytes 4 state.governance_version
  network ← encode_str state.network_id
  key_count ← encode_varint (length state.governance_keys)
  keys ← serialize_keys state.governance_keys
  threshold ← to_bytes 1 state.threshold
  record_count ← encode_varint (length records)
  body ← serialize_records records
  ok (version ++ (network ++ (key_count ++ (keys ++ (threshold ++ (record_count ++ body))))))

-- `registry_root`
unfoldable pub registry_root : Platform → RegistryState → Result Str
registry_root p state = do raw ← serialize_registry_state state; ok (hash_single_hex p raw)
