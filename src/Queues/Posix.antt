-- ===== src/Queues/Posix.antt =====
-- cw06/zad2: the same service over POSIX queues, which a client names and the server opens.
pub mod Server
pub mod Client
pub mod Laws
pub mod Session
