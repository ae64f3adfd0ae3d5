-- ===== src/Vector.antt =====
-- src/vector: the process that takes SOCKS5 clients.
pub mod FlowId
