-- ===== src/Network/Relay/Inventory.antt =====
-- chainbreaker/network/relay/inventory.py: `InventoryTracker`.
use chain_breaker.Base.{
  ℕ, ◌≡◌, refl, List, [], ◌∷◌, ◌++◌, Str, bytes_eq, text, length, Result, ok, raise, value_error,
  network_validation_error, leb, if◌then◌else◌,
}
use chain_breaker.Json.{Fields, str, arr, obj, end, field, get, member}
use chain_breaker.Network.Payload.{Conversions, get_or_default, optional, str_of}
use chain_breaker.Network.Messages.{of_texts}
use chain_breaker.Network.Messages.Reading.{read_kind}

-- `InventoryEntry`
pub record InventoryEntry : Type 0 where
  pub inv_type : Str
  pub hash : Str

-- `InventoryTracker`
pub record InventoryTracker : Type 0 where
  pub max_items : ℕ
  pub pending : List InventoryEntry
  pub known : List Str

-- `InventoryTracker.add_pending`
unfoldable pub add_pending : InventoryEntry → InventoryTracker → Result InventoryTracker
add_pending e t =
    if leb t.max_items (length t.pending)
    then raise value_error
    else if member e.hash t.known
    then ok t
    else ok (record t { pending = t.pending ++ (e ∷ []); known = e.hash ∷ t.known })

-- `InventoryTracker.pop_pending`
unfoldable pub pop_pending : InventoryTracker → InventoryTracker × List InventoryEntry
pop_pending t = (record t { pending = []; known = [] }, t.pending)

-- `InventoryTracker.mark_known`
unfoldable pub mark_known : Str → InventoryTracker → InventoryTracker
mark_known h t = record t { known = h ∷ t.known }

abbrev pub hashes_of : List InventoryEntry → List Str
hashes_of [] = []
hashes_of (e ∷ es) = e.hash ∷ hashes_of es

-- `InventoryTracker.build_inv_message`
unfoldable pub build_inv_message : InventoryTracker → InventoryTracker × Fields
unfolding pop_pending
build_inv_message t = (
  (pop_pending t).0,
  field (text "type") (str (text "block"))
      (field (text "hashes") (arr (of_texts (hashes_of (pop_pending t).1))) end),
)

-- Every message that the tracker builds, whatever is pending, is refused by `InventoryMessage`: its
-- kind is "block", and the kind that is known is "blocks".
read_kind-build_inv_message :
    (python : Conversions) (t : InventoryTracker)
    → read_kind python (obj (build_inv_message t).1) ≡ raise network_validation_error
unfolding read_kind build_inv_message get_or_default optional get str_of member bytes_eq
read_kind-build_inv_message python t = refl
