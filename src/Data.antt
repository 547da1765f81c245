-- ===== src/Data.antt =====
-- rust/porta-server/src/data: packet classification, the bounded queue of a session, and the router.
pub mod Classify
pub mod Queue
pub mod Router
