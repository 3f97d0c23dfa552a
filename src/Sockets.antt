-- ===== src/Sockets.antt =====
-- cw10/zad1: a server that hands out sums to clients over stream sockets.
pub mod Clients
pub mod Message
pub mod Client
pub mod Server
pub mod Tasks
pub mod Events
mod Tests
