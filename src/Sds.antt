-- ===== src/Sds.antt =====
-- redis/src/sds.c and sds.h: strings with their length and free space in front.
pub mod Ops
pub mod Printf
pub mod PrintfLaws
pub mod Split
pub mod SplitLaws
pub mod Compare
pub mod Laws
pub mod Trim
pub mod Range
mod Tests
