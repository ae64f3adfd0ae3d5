-- ===== src/Portal.antt =====
-- src/portal: the process that connects to the targets.
pub mod Admission
pub mod Pairing
