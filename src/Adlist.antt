-- ===== src/Adlist.antt =====
-- redis/src/adlist.h and adlist.c: doubly linked lists.
pub mod Heap
pub mod Ops
pub mod Links
pub mod Laws
pub mod Walk
mod Tests
