-- ===== src/Examples.antt =====
-- Messages, limits, handlers, sockets, servers and listeners at which the theorems are applied.
pub mod Messages
pub mod Numbers
pub mod Rates
pub mod Lookups
pub mod Sockets
pub mod Listening
pub mod Serving
pub mod Loop
pub mod Wrapping
pub mod Upgrades
pub mod Streams
pub mod Chats
pub mod Exchanges
pub mod Dialing
