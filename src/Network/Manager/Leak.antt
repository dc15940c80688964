-- ===== src/Network/Manager/Leak.antt =====
-- What a failed handshake leaves in the table of chainbreaker/network/transport/manager.py.
use mathlib.Core.Path.{subst}
use chain_breaker.Base.{
  suc, append-nil, append_assoc, ◌+◌, ◌≤◌, ◌≡◌, refl, sym, ap, ◌∙◌, true, false, Option, List, [],
  ◌∷◌, ◌++◌, length-append, Bytes, Str, length, ok, raise, Exn, transport_state_error,
  transport_limit_error, arith, leb,
}
use chain_breaker.Json.{Value}
use chain_breaker.Network.Payload.{Conversions}
use chain_breaker.Network.Connection.{opening}
use chain_breaker.Network.Handshake.{
  RejectReason, HandshakeContext, new_session, transition_to, close,
}
use chain_breaker.Network.Manager.{
  Managed, Manager, prepare, Link, Outcome, outcome, heard, accept_handshake, inbound_handshake,
  conclude, connect, accept, register_inbound,
}
use chain_breaker.Network.Manager.Slots.{
  prepare-eq-ok, Call, accepts, inbound, removes, cleans, call, run,
}

prepare-full :
    (id key : Str) (m : Manager)
    → m.max_connections ≤ length m.connections
    → prepare id key m ≡ raise transport_limit_error
unfolding prepare
prepare-full id key m h =
    let full : leb m.max_connections (length m.connections) ≡ true = ground (arith, h) in
    ground (arith, full)

-- A manager with no room refuses every connection.
connect-full :
    (id key : Str) (o : Outcome) (m : Manager)
    → m.max_connections ≤ length m.connections
    → connect id key o m ≡ (m, raise transport_limit_error)
unfolding connect
connect-full id key o m h = rw (prepare-full id key m h, connect) refl

-- A handshake that ends before the peer's greeting, with no rejection counted.
connect-new :
    (id key : Str) (x : Exn) (m : Manager) {c : Managed}
    → prepare id key m ≡ ok c
    → connect id key (outcome new_session false (raise x)) m
      ≡ (record m { connections = m.connections ++ (c ∷ []) }, raise transport_state_error)
unfolding connect conclude close transition_to
connect-new id key x m {c} prepared =
    let (_, handshake, connection) = prepare-eq-ok id key m prepared in
    let same : ◌≡◌ {A = Managed} (record c { handshake = new_session; connection = opening }) c =
      λ i. record c { handshake = sym handshake i; connection = sym connection i } in
    rw (prepared, connect)
      (ap (λ d. (record m { connections = m.connections ++ (d ∷ []) }, raise transport_state_error))
        same)

-- No handshake of the list has begun: each is in the state of a new session.
abbrev pub NoneBegun : List Managed → Type 0
NoneBegun [] = Unit
NoneBegun (c ∷ cs) = (c.handshake ≡ new_session) × NoneBegun cs

-- No call of the list removes a connection.
abbrev pub RemovesNothing : List Call → Type 0
RemovesNothing [] = Unit
RemovesNothing (removes id ∷ calls) = ⊥
RemovesNothing (cleans ∷ calls) = ⊥
RemovesNothing (c ∷ calls) = RemovesNothing calls

module _ (python : Conversions) (invalid : Exn) (sha256 : Bytes → Bytes) (dumps : Value → Bytes)
    (reason_text : Option RejectReason → Str) (context : HandshakeContext) where
  inbound_quiet :
      (link : Link) (x : Exn)
      → link.first_receive ≡ raise x
      → inbound_handshake python invalid sha256 dumps reason_text context link
        ≡ outcome new_session false (raise x)
  unfolding inbound_handshake
  inbound_quiet link x quiet =
      rw (quiet, inbound_handshake)
        (ap
          (λ received.
            outcome (heard python invalid sha256 dumps reason_text context received new_session).0
              false (raise x))
          quiet)

  -- A peer that connects and sends nothing: the manager has room for it, and `transport.receive()`
  -- raises. Then `register_inbound` raises another exception, that of the refused transition from NEW to
  -- CLOSED, and the connection stays in the table with a handshake that has not begun.
  silent_peer :
      (id key : Str) (link : Link) (x : Exn) (m : Manager) {c : Managed}
      → link.first_receive ≡ raise x
      → prepare id key m ≡ ok c
      → register_inbound python invalid sha256 dumps reason_text context id key link m
        ≡ (record m { connections = m.connections ++ (c ∷ []) }, raise transport_state_error)
  unfolding register_inbound
  silent_peer id key link x m {c} quiet prepared =
      ap (λ o. connect id key o m) (inbound_quiet link x quiet) ∙ connect-new id key x m prepared

  -- An inbound attempt: the connection's name and the peer's key.
  pub run_silent : List (Str × Str) → Link → Manager → Manager
  run_silent [] link m = m
  run_silent (a ∷ attempts) link m =
      run_silent attempts link
        (register_inbound python invalid sha256 dumps reason_text context a.0 a.1 link m).0

  -- Each attempt finds room, a new name and a peer that is not banned.
  abbrev pub AreAdmitted : List (Str × Str) → Link → Manager → Type 0
  AreAdmitted [] link m = Unit
  AreAdmitted (a ∷ attempts) link m =
      (c : Managed) × (prepare a.0 a.1 m ≡ ok c)
      × AreAdmitted attempts link
          (register_inbound python invalid sha256 dumps reason_text context a.0 a.1 link m).0

  -- The table after the attempts: the old one, then a connection for each attempt.
  fills :
      (attempts : List (Str × Str)) (link : Link) (x : Exn) (m : Manager)
      → link.first_receive ≡ raise x
      → AreAdmitted attempts link m
      → let m' = run_silent attempts link m in
        (leaked : List Managed) × (m'.connections ≡ m.connections ++ leaked)
        × (length leaked ≡ length attempts)
        × NoneBegun leaked
        × (m'.max_connections ≡ m.max_connections)
  unfolding run_silent
  fills [] link x m quiet w = ([], sym (append-nil m.connections), refl, tt, refl)
  fills (a ∷ attempts) link x m quiet (c, prepared, more) =
      let after = silent_peer a.0 a.1 link x m quiet prepared in
      let (leaked, table, count, none_begun, limit) =
        fills attempts link x
          (register_inbound python invalid sha256 dumps reason_text context a.0 a.1 link m).0 quiet
          more in
      (
        c ∷ leaked,
        table
            ∙ ap (λ r. r.0.connections ++ leaked) after
            ∙ append_assoc m.connections (c ∷ []) leaked,
        ap suc count,
        ((prepare-eq-ok a.0 a.1 m prepared).1, none_begun),
        limit ∙ ap (λ r. r.0.max_connections) after,
      )

  -- Calls on a manager with no room change nothing.
  run-full :
      (calls : List Call) (m : Manager)
      → RemovesNothing calls
      → m.max_connections ≤ length m.connections
      → run python invalid sha256 dumps reason_text context calls m ≡ m
  unfolding run call accept register_inbound
  run-full [] m w full = refl
  run-full (accepts id key link ∷ calls) m w full =
      let same =
        ap (λ r. r.0)
          (connect-full id key
            (accept_handshake python invalid sha256 dumps reason_text context link) m full) in
      ap (run python invalid sha256 dumps reason_text context calls) same ∙ run-full calls m w full
  run-full (inbound id key link ∷ calls) m w full =
      let same =
        ap (λ r. r.0)
          (connect-full id key
            (inbound_handshake python invalid sha256 dumps reason_text context link) m full) in
      ap (run python invalid sha256 dumps reason_text context calls) same ∙ run-full calls m w full
  run-full (removes id ∷ calls) m w full = absurd w
  run-full (cleans ∷ calls) m w full = absurd w

  -- Let as many peers as the manager has free slots connect inbound, each with a new name, not banned
  -- and admitted while there is room, and let `receive` raise on each of them. Then the table is the
  -- old one followed by one connection for each of them, none of whose handshakes has begun. After
  -- any further calls of `accept` and `register_inbound`, whatever their peers do, the manager is
  -- still the same, and any connection is refused with TransportLimitError, as long as no call
  -- removes a connection.
  pub silent_peers-exhaust :
      (attempts : List (Str × Str)) (link : Link) (x : Exn) (m : Manager) (later : List Call)
      (id key : Str) (o : Outcome)
      → link.first_receive ≡ raise x
      → AreAdmitted attempts link m
      → m.max_connections ≤ length attempts + length m.connections
      → RemovesNothing later
      → let m' = run_silent attempts link m in
        let m'' = run python invalid sha256 dumps reason_text context later m' in
        (leaked : List Managed) × (m'.connections ≡ m.connections ++ leaked)
        × (length leaked ≡ length attempts)
        × NoneBegun leaked
        × (m'' ≡ m')
        × (connect id key o m'' ≡ (m'', raise transport_limit_error))
  silent_peers-exhaust attempts link x m later id key o quiet w enough keeps =
      let (leaked, table, count, none_begun, limit) = fills attempts link x m quiet w in
      let m' = run_silent attempts link m in
      let full : m'.max_connections ≤ length m'.connections =
        omega (arith, count, limit, enough, ap length table, length-append m.connections leaked) in
      let same = run-full later m' keeps full in
      (
        leaked,
        table,
        count,
        none_begun,
        same,
        subst (λ n. connect id key o n ≡ (n, raise transport_limit_error)) (sym same)
            (connect-full id key o m' full),
      )
