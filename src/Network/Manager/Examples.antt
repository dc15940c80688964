-- ===== src/Network/Manager/Examples.antt =====
-- A manager of one connection, and a peer that says nothing.
use chain_breaker.Base.{
  ◌≡◌, ◌≤◌, refl, true, Option, List, [], ◌∷◌, ◌++◌, Bytes, Str, text, length, replicate, ok, raise,
  value_error, transport_limit_error, arith,
}
use chain_breaker.Json.{Value, member}
use chain_breaker.Network.Messages.Examples.{plain}
use chain_breaker.Network.Handshake.{HandshakeContext, RejectReason, new_session}
use chain_breaker.Network.Connection.{opening}
use chain_breaker.Network.Manager.{
  Managed, empty_manager, Link, outcome, prepare, has_connection, connect,
}
use chain_breaker.Network.Manager.Slots.{Call, accepts, inbound, removes, cleans, run, run-IsWithin}
use chain_breaker.Network.Manager.Leak.{NoneBegun, run_silent, silent_peers-exhaust}

abbrev toy : Bytes → Bytes
toy raw = replicate 32 9

abbrev nothing : Value → Bytes
nothing v = []

abbrev no_text : Option RejectReason → Str
no_text reason = []

abbrev context : HandshakeContext
context = record {
  network_id = text "n";
  genesis_hash = text "g";
  local_features = [];
  protocol_version = 1;
}

-- The peer takes what is sent and times out.
abbrev quiet : Link
quiet = record {
  first_send = ok tt;
  first_receive = raise transport_limit_error;
  second_send = ok tt;
  second_receive = raise transport_limit_error;
}

abbrev calls : List Call
calls =
    accepts (text "a") (text "p") quiet
    ∷ inbound (text "b") (text "q") quiet
    ∷ inbound (text "c") (text "q") quiet
    ∷ removes (text "b")
    ∷ cleans
    ∷ []

run-IsWithin_example :
    length (run plain value_error toy nothing no_text context calls (empty_manager 1)).connections
    ≤ 1
run-IsWithin_example = run-IsWithin plain value_error toy nothing no_text context calls 1

prepared :
    prepare (text "a") (text "p") (empty_manager 1)
    ≡ ok (record {
      connection_id = text "a";
      peer_key = text "p";
      handshake = new_session;
      connection = opening;
    })
unfolding prepare member has_connection
prepared = refl

-- An inbound peer and an outbound one, behind the silent peer.
abbrev later : List Call
later = inbound (text "b") (text "q") quiet ∷ accepts (text "c") (text "q") quiet ∷ []

silent_peers-exhaust_example :
    let m =
      run_silent plain value_error toy nothing no_text context
        ((text "a", text "p") ∷ [])
        quiet
        (empty_manager 1) in
    let m' = run plain value_error toy nothing no_text context later m in
    (leaked : List Managed) × (m.connections ≡ [] ++ leaked)
    × (length leaked ≡ 1)
    × NoneBegun leaked
    × (m' ≡ m)
    × (connect (text "b") (text "q") (outcome new_session true (ok tt)) m'
        ≡ (m', raise transport_limit_error))
silent_peers-exhaust_example =
    silent_peers-exhaust plain value_error toy nothing no_text context ((text "a", text "p") ∷ [])
      quiet transport_limit_error (empty_manager 1) later (text "b") (text "q")
      (outcome new_session true (ok tt)) refl (_, prepared, tt) (omega arith) tt
