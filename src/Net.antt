-- ===== src/Net.antt =====
-- redis/src/anet.c: sockets.
pub mod System
pub mod Streams
pub mod StreamLaws
pub mod Sockets
pub mod SocketLaws
pub mod Samples
mod Tests
pub mod Always
