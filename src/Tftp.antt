-- ===== src/Tftp.antt =====
-- The TFTP server (internal/tftp).
pub mod Streams
pub mod Netascii
pub mod Packet
pub mod Options
pub mod Download
pub mod Server
pub mod Await
pub mod Sinks
pub mod Upload
mod Tests
