-- ===== src/Wire.antt =====
-- The package internal/peerwire: bytes on a connection, message frames, bitfields, handshakes.
pub mod Io
pub mod Writer
pub mod Endian
pub mod Error
pub mod Bitfield
pub mod Message
pub mod Frame
pub mod Payload
pub mod Handshake
