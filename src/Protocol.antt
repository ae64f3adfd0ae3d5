-- ===== src/Protocol.antt =====
-- The wire codecs of `src/protocol`, one module to a file of the source.
pub mod Error
pub mod Stream
pub mod Uot
pub mod Setup
pub mod Flow
pub mod Auth
pub mod Domain
pub mod Target
pub mod Datagram
pub mod Reassembly
