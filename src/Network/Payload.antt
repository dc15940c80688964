-- ===== src/Network/Payload.antt =====
-- How the payloads of messages are read: what chainbreaker/network/messages.py does with a decoded
-- value, the helpers of chainbreaker/network/validation.py, and the library calls under
-- chainbreaker/network/codec.py.
use chain_breaker.Base.{
  ℕ, Bool, true, false, not, ◌||◌, ◌&&◌, Option, none, some, List, [], ◌∷◌, Bytes, Str, str_eq,
  length, Result, ok, raise, ◌>>=◌, ◌>>◌, raise_if, network_validation_error, type_error, key_error,
  attribute_error, ltb, ◌==◌, if◌then◌else◌,
}
use chain_breaker.Json.{
  Value, Items, Fields, bool, int, negative, str, arr, obj, nil, cons, end, field, get, has,
}
use chain_breaker.Schema.{all_lower_hex}

-- `negsuc n` is -(n + 1).
pub data ℤ : Type 0 where
  pos : ℕ → ℤ
  negsuc : ℕ → ℤ

-- What the messages take from Python's library.
pub record Conversions : Type 0 where
  -- `json.loads(payload.decode("utf-8"))`
  pub loads : Bytes → Result Value
  -- `int(text)`
  pub int_of_text : Str → Result ℤ
  -- `str(value)` of what is no text
  pub shown : Value → Str

-- `text.startswith(part)`
unfoldable pub starts_with : Str → Str → Bool
starts_with s [] = true
starts_with [] (p ∷ part) = false
starts_with (c ∷ s) (p ∷ part) = c == p && starts_with s part

-- `part in text`
unfoldable pub contains_text : Str → Str → Bool
contains_text part [] = starts_with [] part
contains_text part (c ∷ s) = starts_with (c ∷ s) part || contains_text part s

unfoldable pub has_item : Str → Items → Bool
has_item key nil = false
has_item key (cons (str s) rest) = str_eq s key || has_item key rest
has_item key (cons v rest) = has_item key rest

-- `key in value`
unfoldable pub holds : Str → Value → Result Bool
holds key (obj d) = ok (has key d)
holds key (arr items) = ok (has_item key items)
holds key (str s) = ok (contains_text key s)
holds key v = raise type_error

-- `for key in names: if key not in value: raise NetworkValidationError`
unfoldable pub require_fields : List Str → Value → Result (Unit {0})
require_fields [] v = ok tt
require_fields (name ∷ names) v = do
  found ← holds name v
  raise_if (not found) network_validation_error
  require_fields names v

-- `value[key]`
unfoldable pub subscript : Str → Value → Result Value
subscript key (obj d) = elim (get key d) [ none ↦ raise key_error | some v ↦ ok v ]
subscript key v = raise type_error

-- `value.get(key)`
unfoldable pub optional : Str → Value → Result (Option Value)
optional key (obj d) = ok (get key d)
optional key v = raise attribute_error

abbrev pub or_else : Value → Option Value → Value
or_else v none = v
or_else v (some found) = found

-- `value.get(key, default)`
unfoldable pub get_or_default : Str → Value → Value → Result Value
get_or_default key default v = do found ← optional key v; ok (or_else default found)

-- `_HASH_RE.fullmatch(value)`
unfoldable pub is_hex_hash : Str → Bool
is_hex_hash s = length s == 64 && all_lower_hex s

-- `validate_hex_hash(value)`, and the text
unfoldable pub hex_hash : Value → Result Str
hex_hash (str s) = if is_hex_hash s then ok s else raise network_validation_error
hex_hash v = raise network_validation_error

-- `validate_nonnegative_int(value)`, and the number
unfoldable pub nonnegative : Value → Result ℕ
nonnegative (int n) = ok n
nonnegative v = raise network_validation_error

unfoldable pub items_list : Items → List Value
items_list nil = []
items_list (cons v rest) = v ∷ items_list rest

unfoldable pub letters : Str → List Value
letters [] = []
letters (c ∷ s) = str (c ∷ []) ∷ letters s

unfoldable pub keys : Fields → List Value
keys end = []
keys (field name v rest) = str name ∷ keys rest

-- the values that `for x in value` takes
unfoldable pub iterate : Value → Result (List Value)
iterate (arr items) = ok (items_list items)
iterate (str s) = ok (letters s)
iterate (obj d) = ok (keys d)
iterate v = raise type_error

-- `if not isinstance(value, list) or len(value) > limit: raise …`, whose message takes `len(value)`
unfoldable pub list_within : ℕ → Value → Result (List Value)
list_within limit (arr items) =
    if ltb limit (length (items_list items))
    then raise network_validation_error
    else ok (items_list items)
list_within limit (str s) = raise network_validation_error
list_within limit (obj d) = raise network_validation_error
list_within limit v = raise type_error

unfoldable pub each {ℓ} : {A : Type ℓ} → (Value → Result A) → List Value → Result (List A)
each read [] = ok []
each read (v ∷ vs) = do a ← read v; rest ← each read vs; ok (a ∷ rest)

module _ (python : Conversions) where
  -- `int(value)`
  unfoldable pub int_of : Value → Result ℤ
  int_of (int n) = ok (pos n)
  int_of (negative n) = ok (negsuc n)
  int_of (bool true) = ok (pos 1)
  int_of (bool false) = ok (pos 0)
  int_of (str s) = python.int_of_text s
  int_of v = raise type_error

  -- `str(value)`
  unfoldable pub str_of : Value → Str
  str_of (str s) = s
  str_of v = python.shown v

  unfoldable pub limits_of : Fields → Result (List (Str × ℤ))
  limits_of end = ok []
  limits_of (field name v rest) = do n ← int_of v; more ← limits_of rest; ok ((name, n) ∷ more)

  -- `{str(k): int(v) for k, v in value.items()}`; the keys of a dictionary are distinct texts
  unfoldable pub read_limits : Value → Result (List (Str × ℤ))
  read_limits (obj d) = limits_of d
  read_limits v = raise attribute_error

  abbrev pub texts_of : List Value → List Str
  texts_of [] = []
  texts_of (v ∷ vs) = str_of v ∷ texts_of vs

  -- `[str(b) for b in value]`
  unfoldable pub read_texts : Value → Result (List Str)
  read_texts v = do vs ← iterate v; ok (texts_of vs)
