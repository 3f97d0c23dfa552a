-- ===== src/Queues/Sysv.antt =====
-- cw06/zad1/server.c and client.c. A receive takes the oldest message; sends succeed.
pub mod Server
pub mod Client
pub mod Registry
