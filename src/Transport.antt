-- ===== src/Transport.antt =====
-- The transport, transport/: messages as bytes on a connection.
pub mod Codec
pub mod Framing
pub mod Connection
