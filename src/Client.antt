-- ===== src/Client.antt =====
-- client/: a connection with its codecs and header block trackers.
pub mod Conn
pub mod Tracker
pub mod Core
pub mod Dial
pub mod Transport
pub mod Healthy
pub mod Delivery
