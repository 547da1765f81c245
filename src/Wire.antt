-- ===== src/Wire.antt =====
-- rust/porta-wire: the packet formats that the clients and the server share.
pub mod Bytes
pub mod Stream
pub mod Frame
pub mod Ip
pub mod Masque
pub mod Mtu
