-- ===== src/State.antt =====
-- rust/porta-server/src/state: what the server keeps of its clients.
pub mod Pool
pub mod Sessions
