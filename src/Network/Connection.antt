-- ===== src/Network/Connection.antt =====
-- chainbreaker/network/transport/connection.py: the state machine of a connection.
use chain_breaker.Base.{
  Bool, true, false, Result, ok, raise, transport_state_error, transport_closed_error,
  if◌then◌else◌,
}

-- `ConnectionState`
pub data ConnectionState : Type 0 where
  created opening active draining closed : ConnectionState

-- `new_state == self._state`
abbrev pub same_state : ConnectionState → ConnectionState → Bool
same_state created created = true
same_state opening opening = true
same_state active active = true
same_state draining draining = true
same_state closed closed = true
same_state s t = false

-- `Connection._valid_transitions`
unfoldable pub valid_transition : ConnectionState → ConnectionState → Bool
valid_transition created opening = true
valid_transition created closed = true
valid_transition opening active = true
valid_transition opening closed = true
valid_transition active draining = true
valid_transition active closed = true
valid_transition draining closed = true
valid_transition draining active = true
valid_transition s t = false

-- `Connection.transition_to`
unfoldable pub transition_to : ConnectionState → ConnectionState → Result ConnectionState
unfolding valid_transition
transition_to s t =
    if same_state t s
    then ok s
    else if valid_transition s t
    then ok t
    else raise transport_state_error

-- `Connection.ensure_open`
unfoldable pub ensure_open : ConnectionState → Result (Unit {0})
ensure_open active = ok tt
ensure_open opening = ok tt
ensure_open closed = raise transport_closed_error
ensure_open s = raise transport_state_error
