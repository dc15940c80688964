-- ===== src/Network/Handshake/Examples.antt =====
-- An inbound session that is greeted and established.
use chain_breaker.Base.{
  ◌≡◌, refl, [], ◌∷◌, Bytes, Str, bytes_eq, text, replicate, ok, raise, value_error,
  transport_validation_error,
}
use chain_breaker.Json.{Value, obj, end, get, has}
use chain_breaker.Schema.{all_lower_hex}
use chain_breaker.Registry.{bytes_lt}
use chain_breaker.Network.Envelope.{NetworkEnvelope}
use chain_breaker.Network.Payload.{
  Conversions, pos, is_hex_hash, holds, require_fields, subscript, optional, get_or_default,
  hex_hash, nonnegative, items_list, iterate, int_of, str_of, limits_of, read_limits, read_texts,
}
use chain_breaker.Network.Messages.{
  HelloMessage, of_hello, of_int, of_texts, of_limits, sorted_limits,
}
use chain_breaker.Registry.{insert_text, sorted_texts}
use chain_breaker.Network.Messages.Reading.{read_hello}
use chain_breaker.Network.Handshake.{
  established, HandshakeContext, Session, new_session, validate_hello, advance, greet,
  transition_to, handle_hello,
}
use chain_breaker.Network.Handshake.Machine.{
  hears, establishes, Reach, begin, next, Knows, established-Knows,
}

abbrev nines : Str
nines = replicate 64 57

abbrev greeting : HelloMessage
greeting = record {
  protocol_version = pos 1;
  network_id = text "n";
  genesis_hash = nines;
  best_height = 7;
  best_chain_work = nines;
  feature_bits = text "blocks" ∷ [];
  node_limits = [];
}

-- Every payload is the greeting.
abbrev plain : Conversions
plain = record {
  loads = λ b. ok (obj (of_hello greeting end));
  int_of_text = λ s. raise value_error;
  shown = λ v. [];
}

abbrev toy : Bytes → Bytes
toy raw = replicate 32 9

abbrev nothing : Value → Bytes
nothing v = []

abbrev context : HandshakeContext
context = record {
  network_id = text "n";
  genesis_hash = nines;
  local_features = text "blocks" ∷ text "pex" ∷ [];
  protocol_version = 1;
}

abbrev first : NetworkEnvelope
first = record { message_type = 1; flags = 0; payload = [] }

abbrev greeted : Session
greeted = (handle_hello plain transport_validation_error context first new_session).0

reached :
    Reach plain transport_validation_error toy nothing context (transition_to established greeted).0
reached = next (next begin (hears new_session first)) (establishes greeted)

reached_state : (transition_to established greeted).0.state ≡ established
unfolding transition_to handle_hello greet advance validate_hello read_hello require_fields holds
    has subscript get get_or_default optional hex_hash is_hex_hash all_lower_hex nonnegative
    items_list iterate int_of str_of limits_of read_limits read_texts of_hello of_int of_texts
    of_limits insert_text sorted_texts sorted_limits bytes_lt bytes_eq
reached_state = refl

established-Knows_example :
    Knows plain transport_validation_error toy nothing context
      (transition_to established greeted).0.peer_info
      (transition_to established greeted).0.capabilities
established-Knows_example =
    established-Knows plain transport_validation_error toy nothing context reached reached_state
