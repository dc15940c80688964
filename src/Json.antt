-- ===== src/Json.antt =====
-- The values of the dictionaries that the code passes around, as Python's `json` reads them, less
-- floats. A dictionary is its list of entries in insertion order; its keys are distinct.
use chain_breaker.Base.{
  ℕ, Bool, true, false, ◌||◌, ◌&&◌, Option, none, some, List, [], ◌∷◌, Str, str_eq, if◌then◌else◌,
}

-- `negative n` is the integer -(n + 1).
mutual
  pub data Value : Type 0 where
    null : Value
    bool : Bool → Value
    int : ℕ → Value
    negative : ℕ → Value
    str : Str → Value
    arr : Items → Value
    obj : Fields → Value

  pub data Items : Type 0 where
    nil : Items
    cons : Value → Items → Items

  pub data Fields : Type 0 where
    end : Fields
    field : Str → Value → Fields → Fields

-- `d.get(key)`, with `none` for a missing key
unfoldable pub get : Str → Fields → Option Value
get key end = none
get key (field name value rest) = if str_eq name key then some value else get key rest

-- `key in d`
unfoldable pub has : Str → Fields → Bool
has key end = false
has key (field name value rest) = str_eq name key || has key rest

-- `key in names`
unfoldable pub member : Str → List Str → Bool
member key [] = false
member key (name ∷ names) = str_eq key name || member key names

-- `set(d.keys()) <= set(names)`
unfoldable pub keys_within : List Str → Fields → Bool
keys_within names end = true
keys_within names (field name value rest) = member name names && keys_within names rest

-- `set(names) <= set(d.keys())`
unfoldable pub has_all : List Str → Fields → Bool
has_all [] d = true
has_all (name ∷ names) d = has name d && has_all names d
