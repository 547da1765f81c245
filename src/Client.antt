-- ===== src/Client.antt =====
-- rust/porta-client: the upload queue of its HTTP/2 tunnel.
pub mod UploadQueue
