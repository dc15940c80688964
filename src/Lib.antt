-- ===== src/Lib.antt =====
-- Chain-Breaker: a proof-of-work chain whose governance transactions keep a registry of curators.
--
-- The program's core, in Python under chainbreaker/, is modelled part by part:
--
--   Merkle      chainbreaker/crypto.py, `MerkleTree`: levels, root, proofs and their verification
--   Platform    chainbreaker/crypto.py: hashing of objects, keys and signatures over the primitives
--   Codec       chainbreaker/codec.py, `BinaryCodec`: varints, byte strings and v2 headers
--   Block       chainbreaker/block.py: v2 headers and blocks, their hash, the proof-of-work test
--   Retarget    chainbreaker/chain.py: `Ledger.expected_target_at` and `Ledger.retarget`
--   Governance  chainbreaker/governance.py: transactions, parsers (Governance/Parse), threshold check
--   Registry    chainbreaker/registry_state.py: records, lookups, serialization and registry root;
--               Registry/Reducer is `apply_registry_transaction` with its three handlers, and
--               Registry/Deserialize reads the bytes of a state
--   Ledger      chainbreaker/chain.py: the genesis state, the replay of a chain, the state at a height;
--               Ledger/Blocks is `Ledger.add_block_v2` with `BlockV2.verify` of chainbreaker/block.py
--   Schema      chainbreaker/codec.py: `validate_v2_transaction`
--   Work        chainbreaker/crypto.py, chain.py and reorg.py: work of targets and of branches
--   Reorg       chainbreaker/reorg.py: common ancestor, validation of a candidate, the decision
--   Witness     chainbreaker/witness.py: attestations of version 2 and their verification; Witness/Roster
--               is the registry of the first protocol
--   Storage     Storage/Journal is chainbreaker/storage/formats.py, journal.py and the reading of the
--               last commit in recovery.py: the records of the journal and the journal as bytes
--   Network     chainbreaker/network: Envelope is envelope.py, Framing is socket/framing.py, Payload and
--               Messages are validation.py and messages.py, Relay is relay/, Connection, Handshake and
--               Manager are the files of these names in transport/
--
-- Json and Stdlib are the Python that these use: JSON values as ordered dictionaries, and `to_bytes`,
-- `struct`, `hex`, `fromhex` and UTF-8. Base holds what all share: results of calls that may raise,
-- texts as lists of code points, bytes as lists of numbers. Toys holds the data of the Examples.
--
-- How the parts interact: the ledger and the reorg engine replay the governance transactions of
-- blocks through the reducer; the reducer asks the threshold check for its signatures and the registry
-- root for the state that a transaction was made for; blocks are hashed by the codec; the reorg engine
-- compares branches by their work and asks the ledger for the expected targets. On the network, the
-- framing cuts the bytes of a connection into envelopes, the handshake and the relay read the messages
-- in their payloads, the manager runs the handshake of each connection, and the relay hands delivered
-- blocks to the ledger and the storage, which it knows by the operations of `Chain` only.
--
-- How the state and the operations correspond: a dataclass is a record of the same fields; a method
-- that raises returns a `Result` with the exception's class; a method that returns a new state is a
-- function of the old one; messages of exceptions are left out. Dictionaries keep their order of
-- insertion. Numbers are natural numbers: the parsers refuse what is negative, and the differences of
-- timestamps stop at 0, where the code takes 1 for anything not positive.
--
-- SHA-256, the canonical JSON text and Ed25519 verification are the fields of `Platform`, arguments of
-- all that use them; the clock is an argument of `add_block_v2`, and the validator of transactions
-- that a ledger may be given is a field of its record. On the network, `json.loads` and the conversions
-- of Python are the fields of `Conversions`, `json.dumps` and the decoding of UTF-8 are arguments, and
-- what a transport sends and receives is a `Link`. The
-- calls of the connection manager and of the relay run one after the other.
--
-- Loops are recursion on their list. The levels of a Merkle tree are built on fuel, the number of the
-- leaves: each level has half as many nodes as the one below, rounded up, so the last one, of a single
-- node, is reached before the fuel is spent. The walk to the common ancestor recurs on the height. The reading of the
-- journal has the length of the file as its fuel, and the framing one round more than its buffer has
-- bytes: each round but the last moves the offset, or shortens the buffer.
--
-- Not modelled: sockets and files, discovery, gossip, synchronisation, v1 attestations, identities of
-- networks, the queues of the transports, v1 blocks, mining, and the command lines, most of which are
-- input and output.
pub mod Base
pub mod Stdlib
pub mod Codec
pub mod Json
pub mod Schema
pub mod Block
pub mod Platform
pub mod Governance
pub mod Registry
pub mod Ledger
pub mod Reorg
pub mod Witness
pub mod Work
pub mod Retarget
pub mod Merkle
pub mod Storage
pub mod Network
pub mod Toys
