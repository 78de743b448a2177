-- ===== src/Protocol.antt =====
-- pkg/protocol/message.go: the wire format of the file transfer protocol.
pub mod Types
pub mod Message
pub mod Buffer
pub mod Command
pub mod Response
pub mod Chunk
pub mod Decrypt
