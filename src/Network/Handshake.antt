-- ===== src/Network/Handshake.antt =====
-- chainbreaker/network/transport/handshake.py: `HandshakeSession`, the exchange of HELLO and HELLO_ACK.
-- A method returns the session as it leaves it, also when it raises.
pub mod Greeting
pub mod Machine
pub mod Final
mod Examples
use chain_breaker.Base.{
  ℕ, Bool, true, false, not, ◌&&◌, Option, none, some, List, [], ◌∷◌, Bytes, Str, str_eq, text,
  Result, ok, raise, ◌>>=◌, Exn, transport_state_error, ◌==◌, if◌then◌else◌,
}
use chain_breaker.Json.{Value, Fields, null, bool, str, obj, end, field, get, member}
use chain_breaker.Network.Envelope.{
  NetworkEnvelope, serialize_envelope, parse_envelope, net_protocol_version,
}
use chain_breaker.Network.Payload.{ℤ, pos, negsuc, Conversions}
use chain_breaker.Network.Messages.{HelloMessage, Message, hello, entries}
use chain_breaker.Registry.{sorted_texts}
use chain_breaker.Network.Messages.Reading.{read_hello, truth}

-- `HandshakeState`
pub data HandshakeState : Type 0 where
  new send_hello_state wait_hello_ack validating established rejected closed : HandshakeState

-- `_HANDSHAKE_VALID_TRANSITIONS`
unfoldable pub valid_transition : HandshakeState → HandshakeState → Bool
valid_transition new send_hello_state = true
valid_transition new validating = true
valid_transition new rejected = true
valid_transition send_hello_state wait_hello_ack = true
valid_transition send_hello_state rejected = true
valid_transition send_hello_state closed = true
valid_transition wait_hello_ack established = true
valid_transition wait_hello_ack rejected = true
valid_transition wait_hello_ack closed = true
valid_transition validating established = true
valid_transition validating rejected = true
valid_transition validating closed = true
valid_transition established closed = true
valid_transition established rejected = true
valid_transition rejected closed = true
valid_transition s t = false

-- Why a session was rejected; the text is not modelled.
pub data RejectReason : Type 0 where
  expected_hello unexpected_hello unsupported_version wrong_network_id wrong_genesis_hash :
      RejectReason
  expected_hello_ack unexpected_hello_ack : RejectReason
  invalid_hello invalid_hello_ack : Exn → RejectReason
  by_peer : Value → RejectReason

-- `HandshakeContext`
pub record HandshakeContext : Type 0 where
  pub network_id : Str
  pub genesis_hash : Str
  pub local_features : List Str
  pub protocol_version : ℕ

-- `HandshakeSession` less its context
pub record Session : Type 0 where
  pub state : HandshakeState
  pub peer_info : Option HelloMessage
  pub capabilities : Option (List Str)
  pub reject_reason : Option RejectReason

abbrev pub new_session : Session
new_session = record { state = new; peer_info = none; capabilities = none; reject_reason = none }

-- a method's effect: the session, and whether it raised
abbrev pub Effect : Type 0
Effect = Session × Result (Unit {0})

-- `HandshakeSession.transition_to`
unfoldable pub transition_to : HandshakeState → Session → Effect
unfolding valid_transition
transition_to t s =
    if valid_transition s.state t
    then (record s { state = t }, ok tt)
    else (s, raise transport_state_error)

-- `self.state in {ESTABLISHED, CLOSED}`
abbrev pub is_settled : HandshakeState → Bool
is_settled established = true
is_settled closed = true
is_settled s = false

abbrev pub is_rejected : HandshakeState → Bool
is_rejected rejected = true
is_rejected s = false

-- `HandshakeSession.reject`
unfoldable pub reject : RejectReason → Session → Effect
unfolding transition_to
reject reason s =
    let noted = record s { reject_reason = some reason } in
    if is_settled s.state
    then (s, raise transport_state_error)
    else if is_rejected s.state
    then (noted, ok tt)
    else transition_to rejected noted

-- `msg.protocol_version != self.protocol_version`
abbrev pub same_version : ℤ → ℕ → Bool
same_version (pos n) v = n == v
same_version (negsuc n) v = false

-- `HandshakeContext.validate_hello`, with `none` for a valid greeting
unfoldable pub validate_hello : HandshakeContext → HelloMessage → Option RejectReason
validate_hello context m =
    if not (same_version m.protocol_version context.protocol_version)
    then some unsupported_version
    else if not (str_eq m.network_id context.network_id)
    then some wrong_network_id
    else if not (str_eq m.genesis_hash context.genesis_hash)
    then some wrong_genesis_hash
    else none

-- `self.context.local_features & frozenset(msg.feature_bits)`
unfoldable pub common_features : List Str → List Str → List Str
common_features [] theirs = []
common_features (f ∷ fs) theirs =
    let rest = common_features fs theirs in if member f theirs then f ∷ rest else rest

-- the states in which `handle_hello` takes a greeting
abbrev pub takes_hello : HandshakeState → Bool
takes_hello new = true
takes_hello send_hello_state = true
takes_hello wait_hello_ack = true
takes_hello s = false

-- the transition at the end of `handle_hello`
unfoldable pub advance : Session → Effect
unfolding transition_to
advance s = elim s.state [
  | send_hello_state ↦ transition_to wait_hello_ack s
  | new ↦ transition_to validating s
  | other ↦ (s, ok tt)
]

unfoldable pub greet : HandshakeContext → HelloMessage → Session → Effect
unfolding reject advance
greet context m s = elim (validate_hello context m) [
  | some reason ↦ reject reason s
  | none ↦ advance (record s {
    peer_info = some m;
    capabilities = some (common_features context.local_features m.feature_bits);
  })
]

-- the states from which `build_hello_ack` answers
abbrev pub answers : HandshakeState → Bool
answers validating = true
answers wait_hello_ack = true
answers rejected = true
answers s = false

abbrev pub or_rejected : Option Value → Value
or_rejected none = str (text "rejected")
or_rejected (some v) = v

abbrev pub is_true : Option Value → Bool
is_true none = false
is_true (some v) = truth v

-- `HandshakeSession.handle_hello_ack` on the dictionary of the payload
unfoldable pub take_ack : Fields → Session → Effect
unfolding reject transition_to
take_ack d s =
    if is_true (get (text "ok") d)
    then transition_to established s
    else reject (by_peer (or_rejected (get (text "reason") d))) s

-- `_decode_ack_payload` on the decoded payload, with `none` for what is no dictionary
abbrev pub dictionary : Value → Option Fields
dictionary (obj d) = some d
dictionary v = none

-- `HandshakeSession.close`
unfoldable pub close : Session → Effect
unfolding transition_to
close s = elim s.state [
  | rejected ↦ (s, ok tt)
  | closed ↦ (s, ok tt)
  | other ↦ transition_to closed s
]

module _ (python : Conversions) (invalid : Exn) (context : HandshakeContext) where
  -- `HandshakeSession.handle_hello`
  unfoldable pub handle_hello : NetworkEnvelope → Session → Effect
  unfolding reject greet
  handle_hello e s =
      if not (e.message_type == 1)
      then reject expected_hello s
      else if not (takes_hello s.state)
      then reject unexpected_hello s
      else elim (do v ← python.loads e.payload; read_hello python v) [
        | raise x ↦ reject (invalid_hello x) s
        | ok m ↦ greet context m s
      ]

  abbrev pub waits_for_ack : HandshakeState → Bool
  waits_for_ack wait_hello_ack = true
  waits_for_ack s = false

  -- `HandshakeSession.handle_hello_ack`; `invalid` is the error of a payload that is no dictionary
  unfoldable pub handle_hello_ack : NetworkEnvelope → Session → Effect
  unfolding reject take_ack
  handle_hello_ack e s =
      if not (e.message_type == 2)
      then reject expected_hello_ack s
      else if not (waits_for_ack s.state)
      then reject unexpected_hello_ack s
      else elim (python.loads e.payload) [
        | raise x ↦ reject (invalid_hello_ack x) s
        | ok v ↦ elim (dictionary v) [
          | none ↦ reject (invalid_hello_ack invalid) s
          | some d ↦ take_ack d s
        ]
      ]

module _ (sha256 : Bytes → Bytes) (dumps : Value → Bytes) (context : HandshakeContext) where
  -- `parse_envelope(serialize_envelope(message_type, payload=…))`
  unfoldable pub envelope_of : ℕ → Value → Result NetworkEnvelope
  envelope_of kind v = do
    raw ← serialize_envelope sha256 (record { message_type = kind; flags = 0; payload = dumps v })
    parse_envelope sha256 raw

  abbrev pub local_hello : ℕ → Str → HelloMessage
  local_hello height chain_work = record {
    protocol_version = pos context.protocol_version;
    network_id = context.network_id;
    genesis_hash = context.genesis_hash;
    best_height = height;
    best_chain_work = chain_work;
    feature_bits = sorted_texts context.local_features;
    node_limits = [];
  }

  abbrev pub is_new : HandshakeState → Bool
  is_new new = true
  is_new s = false

  -- `HandshakeSession.send_hello`
  unfoldable pub send_hello : ℕ → Str → Session → Session × Result NetworkEnvelope
  send_hello height chain_work s =
      if not (is_new s.state) then (s, raise transport_state_error) else (
        record s { state = send_hello_state },
        envelope_of 1 (obj (entries (hello (local_hello height chain_work)))),
      )

  -- `_encode_ack_payload`
  abbrev pub ack_value : Bool → Str → Value
  ack_value good reason =
      obj (field (text "ok") (bool good) (field (text "reason") (str reason) end))

  -- `HandshakeSession.build_hello_ack`
  unfoldable pub build_hello_ack : Bool → Str → Session → Result NetworkEnvelope
  build_hello_ack good reason s =
      if not (answers s.state)
      then raise transport_state_error
      else envelope_of 2 (ack_value good reason)
