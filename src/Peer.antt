-- ===== src/Peer.antt =====
-- The package internal/peerconn: the session with one remote peer.
pub mod Session
pub mod Fetch
pub mod Watch
pub mod Dial
pub mod Pool
pub mod Start
pub mod First
