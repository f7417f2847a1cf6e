-- ===== src/Cli.antt =====
-- redis/src/redis-cli.c: the command line client.
pub mod Table
pub mod Read
pub mod Main
pub mod Options
pub mod Send
pub mod Replies
mod MainTests
mod Tests
