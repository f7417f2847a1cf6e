-- ===== src/Redis/Rdb.antt =====
-- The dump file of redis/src/redis.c: writing it and loading it.
pub mod Write
pub mod Load
pub mod Laws
pub mod RoundTrip
pub mod DumpBytes
pub mod DumpBody
pub mod DumpLoop
pub mod Dump
mod Tests
