-- ===== src/Protocol.antt =====
-- crates/ss-core/src/protocol.rs: the messages, their type bytes, the wire frame, and the clipboard
-- content. `bincode` and `blake3` are parameters: `Wire` and `Hash` state what the code relies on.
pub mod Kind
pub mod Codec
pub mod Content
