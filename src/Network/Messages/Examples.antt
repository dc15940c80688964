-- ===== src/Network/Messages/Examples.antt =====
-- A request for headers, written and read again.
use chain_breaker.Base.{
  ◌≡◌, refl, true, some, [], ◌∷◌, Str, replicate, ok, raise, value_error, arith,
}
use chain_breaker.Json.{null, obj}
use chain_breaker.Network.Payload.{Conversions, is_hex_hash}
use chain_breaker.Network.Messages.{get_headers, entries, message_type}
use chain_breaker.Network.Messages.Reading.{read_message}
use chain_breaker.Network.Messages.RoundTrip.{read_message-entries}
use chain_breaker.Schema.{all_lower_hex}

abbrev pub plain : Conversions
plain = record { loads = λ b. ok null; int_of_text = λ s. raise value_error; shown = λ v. [] }

abbrev nines : Str
nines = replicate 64 57

nines-IsHash : is_hex_hash nines ≡ true
unfolding is_hex_hash all_lower_hex
nines-IsHash = refl

read_message-entries_example :
    read_message plain 5 (obj (entries (get_headers (nines ∷ []) (some nines) 100)))
    ≡ ok (get_headers (nines ∷ []) (some nines) 100)
unfolding message_type
read_message-entries_example =
    read_message-entries plain (get_headers (nines ∷ []) (some nines) 100)
      ((nines-IsHash, tt), omega arith, nines-IsHash, omega arith, omega arith)
