-- ===== src/Network/Manager.antt =====
-- chainbreaker/network/transport/manager.py: `ConnectionManager`. A call runs to its end before the
-- next one begins; what the transport sends and receives is given to it.
pub mod Slots
pub mod Leak
mod Examples
use chain_breaker.Base.{
  ℕ, zero, suc, ◌+◌, ◌-◌, Bool, true, false, not, Option, none, some, List, [], ◌∷◌, ◌++◌, Bytes,
  Str, str_eq, text, length, replicate, Result, ok, raise, ◌>>=◌, Exn, transport_state_error,
  transport_limit_error, transport_validation_error, ltb, leb, ◌==◌, if◌then◌else◌,
}
use chain_breaker.Json.{Value, member}
use chain_breaker.Network.Envelope.{NetworkEnvelope}
use chain_breaker.Network.Payload.{Conversions}
use chain_breaker.Network.Connection.{ConnectionState, opening, active}
use chain_breaker.Network.Handshake.{
  HandshakeState, established, RejectReason, HandshakeContext, Session, new_session, Effect,
  transition_to, is_rejected, close, handle_hello, handle_hello_ack, send_hello, build_hello_ack,
  envelope_of, ack_value,
}

-- `ManagedConnection`, less its transport and limits
pub record Managed : Type 0 where
  pub connection_id : Str
  pub peer_key : Str
  pub handshake : Session
  pub connection : ConnectionState

-- `ConnectionManager`, less its context and limits
pub record Manager : Type 0 where
  pub max_connections : ℕ
  pub connections : List Managed
  pub reject_counts : List (Str × ℕ)
  pub banned : List Str

abbrev pub empty_manager : ℕ → Manager
empty_manager n = record { max_connections = n; connections = []; reject_counts = []; banned = [] }

-- `connection_id in self._connections`
unfoldable pub has_connection : Str → List Managed → Bool
has_connection id [] = false
has_connection id (c ∷ cs) = if str_eq c.connection_id id then true else has_connection id cs

-- `self._connections.pop(connection_id, None)`
unfoldable pub drop_connection : Str → List Managed → List Managed
drop_connection id [] = []
drop_connection id (c ∷ cs) =
    let rest = drop_connection id cs in if str_eq c.connection_id id then rest else c ∷ rest

-- `ConnectionManager._prepare`: the manager without the new connection, which follows below
unfoldable pub prepare : Str → Str → Manager → Result Managed
prepare id peer_key m =
    if member peer_key m.banned
    then raise transport_limit_error
    else if leb m.max_connections (length m.connections)
    then raise transport_limit_error
    else if has_connection id m.connections
    then raise transport_state_error
    else ok (record {
      connection_id = id;
      peer_key = peer_key;
      handshake = new_session;
      connection = opening;
    })

unfoldable pub count_of : Str → List (Str × ℕ) → ℕ
count_of key [] = 0
count_of key (e ∷ es) = if str_eq e.0 key then e.1 else count_of key es

unfoldable pub set_count : Str → ℕ → List (Str × ℕ) → List (Str × ℕ)
set_count key n [] = (key, n) ∷ []
set_count key n (e ∷ es) = if str_eq e.0 key then (key, n) ∷ es else e ∷ set_count key n es

-- `ConnectionManager._record_reject`
unfoldable pub record_reject : Str → Manager → Manager
record_reject key m =
    let n = suc (count_of key m.reject_counts) in
    let counted = record m { reject_counts = set_count key n m.reject_counts } in
    if leb 3 n then record counted { banned = key ∷ m.banned } else counted

-- The peer's side of a handshake: what the transport receives, and whether it sends.
pub record Link : Type 0 where
  pub first_send : Result (Unit {0})
  pub first_receive : Result NetworkEnvelope
  pub second_send : Result (Unit {0})
  pub second_receive : Result NetworkEnvelope

-- what a handshake ends with: the session, whether it counts as a rejection, and whether it raised
pub record Outcome : Type 0 where
  pub session : Session
  pub counted : Bool
  pub result : Result (Unit {0})

abbrev pub outcome : Session → Bool → Result (Unit {0}) → Outcome
outcome s counted result = record { session = s; counted = counted; result = result }

abbrev pub is_established : HandshakeState → Bool
is_established established = true
is_established s = false

module _ (python : Conversions) (invalid : Exn) (sha256 : Bytes → Bytes) (dumps : Value → Bytes)
    (reason_text : Option RejectReason → Str) (context : HandshakeContext) where
  -- a greeting is heard: `session.handle_hello(peer_hello)`, when `transport.receive()` returns one
  abbrev pub heard : Result NetworkEnvelope → Session → Session × Result (Unit {0})
  heard (raise x) s = (s, raise x)
  heard (ok e) s = handle_hello python invalid context e s

  abbrev pub heard_ack : Result NetworkEnvelope → Session → Session × Result (Unit {0})
  heard_ack (raise x) s = (s, raise x)
  heard_ack (ok e) s = handle_hello_ack python invalid context e s

  -- `transport.send(session.build_hello_ack(ok=True))`
  unfoldable pub send_ack : Session → Result (Unit {0}) → Result (Unit {0})
  send_ack s sent = do e ← build_hello_ack sha256 dumps context true [] s; sent

  -- `accept` behind the HELLO_ACK of this node
  unfoldable pub finish_accept : Session → Link → Outcome
  finish_accept s link =
      let (after, heard_it) = heard_ack link.second_receive s in
      elim heard_it [
        | raise x ↦ outcome after false (raise x)
        | ok u ↦
            if is_rejected after.state
            then outcome after true (raise transport_validation_error)
            else if is_established after.state
            then outcome after false (ok tt)
            else outcome after false (raise transport_validation_error)
      ]

  -- `accept` from the peer's greeting on
  unfoldable pub answer_accept : Session → Link → Outcome
  answer_accept s link =
      let (after, heard_it) = heard link.first_receive s in
      let rest = finish_accept after link in
      elim heard_it [
        | raise x ↦ outcome after false (raise x)
        | ok u ↦
            if is_rejected after.state
            then outcome after true (raise transport_validation_error)
            else elim (send_ack after link.second_send) [
              | raise x ↦ outcome after false (raise x)
              | ok v ↦ rest
            ]
      ]

  -- the handshake of `accept`
  unfoldable pub accept_handshake : Link → Outcome
  accept_handshake link =
      let (sent, hello) = send_hello sha256 dumps context 0 (replicate 64 48) new_session in
      let rest = answer_accept sent link in
      elim (do e ← hello; link.first_send) [ raise x ↦ outcome sent false (raise x) | ok u ↦ rest ]

  -- the negative HELLO_ACK of `register_inbound`, whose sending may fail; building it may raise
  unfoldable pub refuse_inbound : Session → Outcome
  refuse_inbound s =
      elim (envelope_of sha256 dumps context 2
        (ack_value sha256 dumps context false (reason_text s.reject_reason))) [
          | raise x ↦ outcome s false (raise x)
          | ok e ↦ outcome s true (raise transport_validation_error)
        ]

  -- the handshake of `register_inbound`
  unfoldable pub inbound_handshake : Link → Outcome
  inbound_handshake link =
      let (after, heard_it) = heard link.first_receive new_session in
      let (done, moved) = transition_to established after in
      elim heard_it [
        | raise x ↦ outcome after false (raise x)
        | ok u ↦
            if is_rejected after.state
            then refuse_inbound after
            else elim (send_ack after link.first_send) [
              | raise x ↦ outcome after false (raise x)
              | ok v ↦ outcome done false moved
            ]
      ]

-- `finally: if not managed.is_established: await managed.close(); self._connections.pop(…)`
unfoldable pub conclude : Managed → Outcome → Manager → Manager × Result (Unit {0})
conclude c o m =
    let (shut, closing) = close o.session in
    let kept = λ (s : Session) (state : ConnectionState). record m {
      connections = m.connections ++ (record c { handshake = s; connection = state } ∷ []);
    } in
    if is_established o.session.state
    then (kept o.session active, o.result)
    else elim closing [ raise x ↦ (kept shut opening, raise x) | ok u ↦ (m, o.result) ]

-- `accept` and `register_inbound`, with their handshake
unfoldable pub connect : Str → Str → Outcome → Manager → Manager × Result (Unit {0})
connect id peer_key o m = elim (prepare id peer_key m) [
  | raise x ↦ (m, raise x)
  | ok c ↦ conclude c o (if o.counted then record_reject peer_key m else m)
]

-- the manager's calls
module _ (python : Conversions) (invalid : Exn) (sha256 : Bytes → Bytes) (dumps : Value → Bytes)
    (reason_text : Option RejectReason → Str) (context : HandshakeContext) where
  -- `ConnectionManager.accept`
  unfoldable pub accept : Str → Str → Link → Manager → Manager × Result (Unit {0})
  accept id peer_key link m =
      connect id peer_key (accept_handshake python invalid sha256 dumps reason_text context link) m

  -- `ConnectionManager.register_inbound`
  unfoldable pub register_inbound : Str → Str → Link → Manager → Manager × Result (Unit {0})
  register_inbound id peer_key link m =
      connect id peer_key (inbound_handshake python invalid sha256 dumps reason_text context link) m

unfoldable pub find_connection : Str → List Managed → Option Managed
find_connection id [] = none
find_connection id (c ∷ cs) = if str_eq c.connection_id id then some c else find_connection id cs

-- `ConnectionManager.remove`, which pops before it closes
unfoldable pub remove : Str → Manager → Manager × Result (Unit {0})
remove id m = elim (find_connection id m.connections) [
  | none ↦ (m, ok tt)
  | some c ↦ (record m { connections = drop_connection id m.connections }, (close c.handshake).1)
]

-- the loop of `cleanup`, over the connections of which it has taken the names
unfoldable pub remove_each : List Managed → Manager → Manager × Result (Unit {0})
remove_each [] m = (m, ok tt)
remove_each (c ∷ cs) m =
    let (m', removed) = remove c.connection_id m in
    let rest = remove_each cs m' in elim removed [ raise x ↦ (m', raise x) | ok u ↦ rest ]

-- `ConnectionManager.cleanup`
abbrev pub cleanup : Manager → Manager × Result (Unit {0})
cleanup m = remove_each m.connections m
