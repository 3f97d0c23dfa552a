-- ===== src/Queues.antt =====
-- cw06: a server and its clients, over System V message queues (zad1) and POSIX ones (zad2).
pub mod Message
pub mod Text
pub mod Sysv
pub mod Posix
mod Tests
