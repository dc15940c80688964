-- ===== src/Network.antt =====
-- chainbreaker/network: the wire format of messages, and the bounded state of the layers above it.
pub mod Envelope
pub mod Framing
pub mod Payload
pub mod Messages
pub mod Relay
pub mod Connection
pub mod Handshake
pub mod Manager
