-- ===== src/Examples.antt =====
-- The theorems at concrete inputs, and runs of the modelled code.
mod Watches
mod Served
mod Frames
pub mod Bitfields
mod Payloads
mod Writers
pub mod Handshakes
mod Sessions
mod Fetches
mod Metainfos
mod Clients
mod Commands
mod Trackers
mod Pools
mod Firsts
mod Dials
mod Starts
