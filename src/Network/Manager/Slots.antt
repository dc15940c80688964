-- ===== src/Network/Manager/Slots.antt =====
-- The connections that chainbreaker/network/transport/manager.py keeps.
use chain_breaker.Base.{
  ℕ, ◌≤◌, ◌<◌, ◌≡◌, refl, ap, ◌∙◌, ◌⊎◌, inl, inr, Option, List, [], ◌∷◌, ◌++◌, length-append, Bytes,
  Str, length, ok, Exn, arith, leb, Bool-cases, Option-cases, Result-cases, if◌then◌else◌,
}
use chain_breaker.Json.{Value, member}
use chain_breaker.Network.Payload.{Conversions}
use chain_breaker.Network.Connection.{opening, active}
use chain_breaker.Network.Handshake.{RejectReason, HandshakeContext, new_session, close}
use chain_breaker.Network.Manager.{
  Managed, Manager, empty_manager, has_connection, drop_connection, prepare, record_reject, Link,
  Outcome, is_established, conclude, connect, accept, register_inbound, find_connection, remove,
  remove_each, cleanup,
}

length-drop_connection : (id : Str) (cs : List Managed) → length (drop_connection id cs) ≤ length cs
unfolding drop_connection
length-drop_connection id [] = omega arith
length-drop_connection id (c ∷ cs) = ground (arith, length-drop_connection id cs)

-- What a prepared connection says of the manager.
pub prepare-eq-ok :
    (id key : Str) (m : Manager) {c : Managed}
    → prepare id key m ≡ ok c
    → (length m.connections < m.max_connections)
      × (c.handshake ≡ new_session)
      × (c.connection ≡ opening)
unfolding prepare
prepare-eq-ok id key m e = elim (Bool-cases (member key m.banned)) [
  | inl bad ↦ ground (arith, bad, e)
  | inr good ↦ elim (Bool-cases (leb m.max_connections (length m.connections))) [
    | inl full ↦ ground (arith, good, full, e)
    | inr room ↦ elim (Bool-cases (has_connection id m.connections)) [
      | inl there ↦ ground (arith, good, room, there, e)
      | inr fresh ↦ ground (arith, good, room, fresh, e)
    ]
  ]
]

pub record_reject-keeps :
    (key : Str) (m : Manager)
    → ((record_reject key m).connections ≡ m.connections)
      × ((record_reject key m).max_connections ≡ m.max_connections)
unfolding record_reject
record_reject-keeps key m = ground arith

-- The connections behind a handshake: those before it, and the new one if it stays.
conclude_lem :
    (c : Managed) (o : Outcome) (m : Manager)
    → ((conclude c o m).0.max_connections ≡ m.max_connections)
      × (((conclude c o m).0.connections ≡ m.connections)
          ⊎ ((d : Managed) × ((conclude c o m).0.connections ≡ m.connections ++ (d ∷ []))))
unfolding conclude
conclude_lem c o m = elim (Bool-cases (is_established o.session.state)) [
  | inl done ↦ rw done (refl, inr (record c { handshake = o.session; connection = active }, refl))
  | inr open_ ↦ elim (Result-cases (close o.session).1) [
    | inl (x, e) ↦
        rw (open_, e, conclude)
          (refl, inr (record c { handshake = (close o.session).0; connection = opening }, refl))
    | inr (u, e) ↦ rw (open_, e, conclude) (refl, inl refl)
  ]
]

-- The connections are within the manager's limit.
abbrev pub IsWithin : Manager → Type 0
IsWithin m = length m.connections ≤ m.max_connections

connect-IsWithin :
    (id key : Str) (o : Outcome) (m : Manager)
    → IsWithin m
    → IsWithin (connect id key o m).0 × ((connect id key o m).0.max_connections ≡ m.max_connections)
unfolding connect
connect-IsWithin id key o m w = elim (Result-cases (prepare id key m)) [
  | inl (x, e) ↦ rw (e, connect) (w, refl)
  | inr (c, e) ↦
      let counted : Manager = if o.counted then record_reject key m else m in
      let kept : (counted.connections ≡ m.connections)
          × (counted.max_connections ≡ m.max_connections) =
        ground (arith, record_reject-keeps key m) in
      let room = (prepare-eq-ok id key m e).0 in
      let (limit, result) = conclude_lem c o counted in
      rw (e, connect)
        (elim result [
          | inl same ↦
              (omega (arith, ap length same, ap length kept.0, kept.1, limit, room), limit ∙ kept.1)
          | inr (d, longer) ↦ (
            omega (
              arith,
              ap length longer,
              length-append counted.connections (d ∷ []),
              ap length kept.0,
              kept.1,
              limit,
              room,
            ),
            limit ∙ kept.1,
          )
        ])
]

remove-IsWithin :
    (id : Str) (m : Manager)
    → IsWithin m
    → IsWithin (remove id m).0 × ((remove id m).0.max_connections ≡ m.max_connections)
unfolding remove
remove-IsWithin id m w = elim (Option-cases (find_connection id m.connections)) [
  | inl e ↦ rw (e, remove) (w, refl)
  | inr (c, e) ↦ rw (e, remove) (omega (arith, length-drop_connection id m.connections), refl)
]

remove_each-IsWithin :
    (cs : List Managed) (m : Manager)
    → IsWithin m
    → IsWithin (remove_each cs m).0 × ((remove_each cs m).0.max_connections ≡ m.max_connections)
unfolding remove_each
remove_each-IsWithin [] m w = (w, refl)
remove_each-IsWithin (c ∷ cs) m w =
    let (within, limit) = remove-IsWithin c.connection_id m w in
    let (rest, same) = remove_each-IsWithin cs (remove c.connection_id m).0 within in
    elim (Result-cases (remove c.connection_id m).1) [
      | inl (x, e) ↦ rw (e, remove_each) (within, limit)
      | inr (u, e) ↦ rw (e, remove_each) (rest, same ∙ limit)
    ]

-- A call of the manager.
pub data Call : Type 0 where
  accepts inbound : Str → Str → Link → Call
  removes : Str → Call
  cleans : Call

module _ (python : Conversions) (invalid : Exn) (sha256 : Bytes → Bytes) (dumps : Value → Bytes)
    (reason_text : Option RejectReason → Str) (context : HandshakeContext) where
  unfoldable pub call : Call → Manager → Manager
  call (accepts id key link) m =
      (accept python invalid sha256 dumps reason_text context id key link m).0
  call (inbound id key link) m =
      (register_inbound python invalid sha256 dumps reason_text context id key link m).0
  call (removes id) m = (remove id m).0
  call cleans m = (cleanup m).0

  unfoldable pub run : List Call → Manager → Manager
  run [] m = m
  run (c ∷ cs) m = run cs (call c m)

  call-IsWithin :
      (c : Call) (m : Manager)
      → IsWithin m
      → IsWithin (call c m) × ((call c m).max_connections ≡ m.max_connections)
  unfolding call accept register_inbound remove
  call-IsWithin (accepts id key link) m w = connect-IsWithin id key _ m w
  call-IsWithin (inbound id key link) m w = connect-IsWithin id key _ m w
  call-IsWithin (removes id) m w = remove-IsWithin id m w
  call-IsWithin cleans m w = remove_each-IsWithin m.connections m w

  keep :
      (cs : List Call) (m : Manager)
      → IsWithin m
      → IsWithin (run cs m) × ((run cs m).max_connections ≡ m.max_connections)
  unfolding run
  keep [] m w = (w, refl)
  keep (c ∷ cs) m w =
      let (within, limit) = call-IsWithin c m w in
      let (rest, same) = keep cs (call c m) within in (rest, same ∙ limit)

  -- After any calls on a manager of `n` connections, whatever the peers send and whenever the
  -- transports fail, it holds `n` connections at most.
  pub run-IsWithin : (cs : List Call) (n : ℕ) → length (run cs (empty_manager n)).connections ≤ n
  run-IsWithin cs n =
      let (within, limit) = keep cs (empty_manager n) (omega arith) in omega (arith, within, limit)
