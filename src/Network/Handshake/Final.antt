-- ===== src/Network/Handshake/Final.antt =====
-- The final states of a session of chainbreaker/network/transport/handshake.py.
use chain_breaker.Base.{ℕ, ◌≡◌, refl, inl, inr, Option, List, Bytes, Str, Exn, Bool-cases, ◌==◌}
use chain_breaker.Json.{Value}
use chain_breaker.Network.Envelope.{NetworkEnvelope}
use chain_breaker.Network.Payload.{Conversions}
use chain_breaker.Network.Messages.{HelloMessage}
use chain_breaker.Network.Handshake.{
  HandshakeState, rejected, closed, established, RejectReason, HandshakeContext, Session,
  transition_to, reject, close, handle_hello, handle_hello_ack, send_hello,
}
use chain_breaker.Network.Handshake.Machine.{
  Step, sends, hears, acknowledged, rejects, establishes, closes,
}

-- `ManagedConnection.is_terminal`
abbrev pub IsTerminal : HandshakeState → Type 0
IsTerminal rejected = Unit
IsTerminal closed = Unit
IsTerminal s = ⊥

module _ (python : Conversions) (invalid : Exn) (sha256 : Bytes → Bytes) (dumps : Value → Bytes)
    (context : HandshakeContext) (i : Option HelloMessage) (c : Option (List Str))
    (r : Option RejectReason) where
  abbrev from : HandshakeState → Session
  from st = record { state = st; peer_info = i; capabilities = c; reject_reason = r }

  hears_final :
      (e : NetworkEnvelope) (st : HandshakeState)
      → IsTerminal st
      → (handle_hello python invalid context e (from st)).0.state ≡ st
  unfolding handle_hello reject
  hears_final e rejected w = elim (Bool-cases (e.message_type == 1)) [
    | inl k ↦ rw k refl
    | inr k ↦ rw k refl
  ]
  hears_final e closed w = elim (Bool-cases (e.message_type == 1)) [
    | inl k ↦ rw k refl
    | inr k ↦ rw k refl
  ]
  hears_final e _ w = absurd w

  acknowledged_final :
      (e : NetworkEnvelope) (st : HandshakeState)
      → IsTerminal st
      → (handle_hello_ack python invalid context e (from st)).0.state ≡ st
  unfolding handle_hello_ack reject
  acknowledged_final e rejected w = elim (Bool-cases (e.message_type == 2)) [
    | inl k ↦ rw k refl
    | inr k ↦ rw k refl
  ]
  acknowledged_final e closed w = elim (Bool-cases (e.message_type == 2)) [
    | inl k ↦ rw k refl
    | inr k ↦ rw k refl
  ]
  acknowledged_final e _ w = absurd w

  sends_final :
      (height : ℕ) (work : Str) (st : HandshakeState)
      → IsTerminal st
      → (send_hello sha256 dumps context height work (from st)).0.state ≡ st
  unfolding send_hello
  sends_final height work rejected w = refl
  sends_final height work closed w = refl
  sends_final height work _ w = absurd w

  own_final :
      (why : RejectReason) (st : HandshakeState)
      → IsTerminal st
      → ((reject why (from st)).0.state ≡ st)
        × ((transition_to established (from st)).0.state ≡ st)
        × ((close (from st)).0.state ≡ st)
  unfolding reject transition_to close
  own_final why rejected w = (refl, refl, refl)
  own_final why closed w = (refl, refl, refl)
  own_final why _ w = absurd w

-- A session that was rejected or closed stays in its state, whatever is called on it.
Step-final :
    (python : Conversions) (invalid : Exn) (sha256 : Bytes → Bytes) (dumps : Value → Bytes)
    (context : HandshakeContext) {s t : Session}
    → Step python invalid sha256 dumps context s t
    → IsTerminal s.state
    → t.state ≡ s.state
Step-final python invalid sha256 dumps context (sends s height work) w =
    sends_final python invalid sha256 dumps context s.peer_info s.capabilities s.reject_reason
      height work s.state w
Step-final python invalid sha256 dumps context (hears s e) w =
    hears_final python invalid sha256 dumps context s.peer_info s.capabilities s.reject_reason e
      s.state w
Step-final python invalid sha256 dumps context (acknowledged s e) w =
    acknowledged_final python invalid sha256 dumps context s.peer_info s.capabilities
      s.reject_reason e s.state w
Step-final python invalid sha256 dumps context (rejects s why) w =
    (own_final python invalid sha256 dumps context s.peer_info s.capabilities s.reject_reason why
      s.state w).0
Step-final python invalid sha256 dumps context (establishes s) w =
    (own_final python invalid sha256 dumps context s.peer_info s.capabilities s.reject_reason
      RejectReason.expected_hello s.state w).1
Step-final python invalid sha256 dumps context (closes s) w =
    (own_final python invalid sha256 dumps context s.peer_info s.capabilities s.reject_reason
      RejectReason.expected_hello s.state w).2
