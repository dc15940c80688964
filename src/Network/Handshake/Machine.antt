-- ===== src/Network/Handshake/Machine.antt =====
-- What every session of chainbreaker/network/transport/handshake.py keeps to.
use mathlib.Core.Path.{subst}
use chain_breaker.Base.{
  ◌&&◌, ℕ, ◌≡◌, refl, inl, inr, Option, some, List, Bytes, Str, text, ◌>>=◌, Exn, Bool-cases,
  Option-cases, Result-cases, ◌==◌,
}
use chain_breaker.Json.{member, Value, Fields, get}
use chain_breaker.Network.Envelope.{NetworkEnvelope}
use chain_breaker.Network.Payload.{Conversions}
use chain_breaker.Network.Messages.{HelloMessage}
use chain_breaker.Network.Messages.Reading.{read_hello}
use chain_breaker.Network.Handshake.Greeting.{
  IsValid, validate_hello-IsValid, member-common_features,
}
use chain_breaker.Network.Handshake.{
  HandshakeState, new, send_hello_state, wait_hello_ack, validating, established, RejectReason,
  HandshakeContext, Session, new_session, transition_to, reject, validate_hello, common_features,
  takes_hello, advance, greet, dictionary, take_ack, close, is_true, or_rejected, by_peer,
  expected_hello, unexpected_hello, expected_hello_ack, unexpected_hello_ack, invalid_hello,
  invalid_hello_ack, waits_for_ack, handle_hello, handle_hello_ack, send_hello,
}

module _ (python : Conversions) (invalid : Exn) (sha256 : Bytes → Bytes) (dumps : Value → Bytes)
    (context : HandshakeContext) where
  -- One call on a session: a method, or the transition by which `register_inbound` establishes it.
  pub data Step : Session → Session → Type 0 where
    sends :
        (s : Session) (height : ℕ) (work : Str)
        → Step s (send_hello sha256 dumps context height work s).0
    hears : (s : Session) (e : NetworkEnvelope) → Step s (handle_hello python invalid context e s).0
    acknowledged :
        (s : Session) (e : NetworkEnvelope) → Step s (handle_hello_ack python invalid context e s).0
    rejects : (s : Session) (why : RejectReason) → Step s (reject why s).0
    establishes : (s : Session) → Step s (transition_to established s).0
    closes : (s : Session) → Step s (close s).0

  pub data Reach : Session → Type 0 where
    begin : Reach new_session
    next : {s t : Session} → Reach s → Step s t → Reach t

  -- The peer's greeting is valid, and the capabilities are the features that both have.
  pub record Knows (info : Option HelloMessage) (capabilities : Option (List Str)) : Type 0 where
    pub peer : HelloMessage
    pub greeted : info ≡ some peer
    pub valid : IsValid context peer
    pub features : List Str
    pub agreed : capabilities ≡ some features
    pub shared :
        (f : Str)
        → member f features ≡ (member f context.local_features && member f peer.feature_bits)

  abbrev Needs : HandshakeState → Option HelloMessage → Option (List Str) → Type 0
  Needs wait_hello_ack info capabilities = Knows info capabilities
  Needs validating info capabilities = Knows info capabilities
  Needs established info capabilities = Knows info capabilities
  Needs state info capabilities = Unit

  -- A session past the greeting knows its peer.
  abbrev IsSafe : Session → Type 0
  IsSafe s = Needs s.state s.peer_info s.capabilities

  abbrev session :
      HandshakeState → Option HelloMessage → Option (List Str) → Option RejectReason → Session
  session state info capabilities why = record {
    state = state;
    peer_info = info;
    capabilities = capabilities;
    reject_reason = why;
  }

  reject_parts :
      (why : RejectReason) (st : HandshakeState) (i : Option HelloMessage) (c : Option (List Str))
      (r : Option RejectReason)
      → Needs st i c
      → IsSafe (reject why (session st i c r)).0
  unfolding reject transition_to
  reject_parts why established i c r w = w
  reject_parts why new i c r w = tt
  reject_parts why _ i c r w = tt

  reject-IsSafe : (why : RejectReason) (s : Session) → IsSafe s → IsSafe (reject why s).0
  reject-IsSafe why s w = reject_parts why s.state s.peer_info s.capabilities s.reject_reason w

  advance_parts :
      (st : HandshakeState) (i : Option HelloMessage) (c : Option (List Str))
      (r : Option RejectReason)
      → Knows i c
      → IsSafe (advance (session st i c r)).0
  unfolding advance transition_to
  advance_parts new i c r k = k
  advance_parts send_hello_state i c r k = k
  advance_parts wait_hello_ack i c r k = k
  advance_parts validating i c r k = k
  advance_parts established i c r k = k
  advance_parts _ i c r k = tt

  greet-IsSafe : (m : HelloMessage) (s : Session) → IsSafe s → IsSafe (greet context m s).0
  unfolding greet
  greet-IsSafe m s w = elim (Option-cases (validate_hello context m)) [
    | inr (why, e) ↦ rw (e, greet) (reject-IsSafe why s w)
    | inl e ↦
        rw (e, greet)
          (advance_parts s.state (some m)
            (some (common_features context.local_features m.feature_bits)) s.reject_reason
            (record {
              peer = m;
              greeted = refl;
              valid = validate_hello-IsValid context m e;
              features = common_features context.local_features m.feature_bits;
              agreed = refl;
              shared = λ f. member-common_features f context.local_features m.feature_bits;
            }))
  ]

  establish_parts :
      (st : HandshakeState) (i : Option HelloMessage) (c : Option (List Str))
      (r : Option RejectReason)
      → Needs st i c
      → IsSafe (transition_to established (session st i c r)).0
  unfolding transition_to
  establish_parts new i c r w = w
  establish_parts _ i c r w = w

  establish-IsSafe : (s : Session) → IsSafe s → IsSafe (transition_to established s).0
  establish-IsSafe s w = establish_parts s.state s.peer_info s.capabilities s.reject_reason w

  take_ack-IsSafe : (d : Fields) (s : Session) → IsSafe s → IsSafe (take_ack d s).0
  unfolding take_ack
  take_ack-IsSafe d s w = elim (Bool-cases (is_true (get (text "ok") d))) [
    | inl good ↦ rw good (establish-IsSafe s w)
    | inr bad ↦ rw bad (reject-IsSafe (by_peer (or_rejected (get (text "reason") d))) s w)
  ]

  close_parts :
      (st : HandshakeState) (i : Option HelloMessage) (c : Option (List Str))
      (r : Option RejectReason)
      → Needs st i c
      → IsSafe (close (session st i c r)).0
  unfolding close transition_to
  close_parts new i c r w = tt
  close_parts _ i c r w = tt

  send_parts :
      (height : ℕ) (work : Str) (st : HandshakeState) (i : Option HelloMessage)
      (c : Option (List Str)) (r : Option RejectReason)
      → Needs st i c
      → IsSafe (send_hello sha256 dumps context height work (session st i c r)).0
  unfolding send_hello
  send_parts height work new i c r w = tt
  send_parts height work _ i c r w = w

  handle_hello-IsSafe :
      (e : NetworkEnvelope) (s : Session)
      → IsSafe s
      → IsSafe (handle_hello python invalid context e s).0
  unfolding handle_hello
  handle_hello-IsSafe e s w = elim (Bool-cases (e.message_type == 1)) [
    | inr other ↦ rw other (reject-IsSafe expected_hello s w)
    | inl kind ↦ elim (Bool-cases (takes_hello s.state)) [
      | inr late ↦ rw (kind, late) (reject-IsSafe unexpected_hello s w)
      | inl early ↦ elim (Result-cases (python.loads e.payload >>= read_hello python)) [
        | inl (x, bad) ↦ rw (kind, early, bad, handle_hello) (reject-IsSafe (invalid_hello x) s w)
        | inr (m, good) ↦ rw (kind, early, good, handle_hello) (greet-IsSafe m s w)
      ]
    ]
  ]

  handle_hello_ack-IsSafe :
      (e : NetworkEnvelope) (s : Session)
      → IsSafe s
      → IsSafe (handle_hello_ack python invalid context e s).0
  unfolding handle_hello_ack
  handle_hello_ack-IsSafe e s w = elim (Bool-cases (e.message_type == 2)) [
    | inr other ↦ rw other (reject-IsSafe expected_hello_ack s w)
    | inl kind ↦ elim (Bool-cases (waits_for_ack python invalid context s.state)) [
      | inr late ↦ rw (kind, late) (reject-IsSafe unexpected_hello_ack s w)
      | inl early ↦ elim (Result-cases (python.loads e.payload)) [
        | inl (x, bad) ↦
            rw (kind, early, bad, handle_hello_ack) (reject-IsSafe (invalid_hello_ack x) s w)
        | inr (v, good) ↦ elim (Option-cases (dictionary v)) [
          | inl broken ↦
              rw (kind, early, good, broken, handle_hello_ack)
                (reject-IsSafe (invalid_hello_ack invalid) s w)
          | inr (d, read) ↦ rw (kind, early, good, read, handle_hello_ack) (take_ack-IsSafe d s w)
        ]
      ]
    ]
  ]

  Step-IsSafe : {s t : Session} → Step s t → IsSafe s → IsSafe t
  Step-IsSafe (sends s height work) w =
      send_parts height work s.state s.peer_info s.capabilities s.reject_reason w
  Step-IsSafe (hears s e) w = handle_hello-IsSafe e s w
  Step-IsSafe (acknowledged s e) w = handle_hello_ack-IsSafe e s w
  Step-IsSafe (rejects s why) w = reject-IsSafe why s w
  Step-IsSafe (establishes s) w = establish-IsSafe s w
  Step-IsSafe (closes s) w = close_parts s.state s.peer_info s.capabilities s.reject_reason w

  Reach-IsSafe : {s : Session} → Reach s → IsSafe s
  Reach-IsSafe begin = tt
  Reach-IsSafe (next before st) = Step-IsSafe st (Reach-IsSafe before)

  -- Whatever a peer sends, and in whatever order the methods of a session are called, an established
  -- session has taken a greeting of the protocol's version, the network and the genesis block of this
  -- node, and its capabilities are the features that both have.
  pub established-Knows :
      {s : Session} → Reach s → s.state ≡ established → Knows s.peer_info s.capabilities
  established-Knows {s} reached e =
      subst (λ state. Needs state s.peer_info s.capabilities) e (Reach-IsSafe reached)
