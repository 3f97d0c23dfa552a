-- ===== src/Hairdresser.antt =====
-- cw07: the barber shop.
pub mod Fifo
pub mod Line
pub mod Shop
pub mod Posix
mod Tests
