-- ===== src/Dict.antt =====
-- redis/src/dict.h and redis/src/dict.c: a chained hash table with power-of-two sizes.
-- A `dict` is a record; its `type` field is the parameter `T` of every operation, `privdata` is left
-- out (the table only hands it to callbacks, and each callback of the repository ignores it). A
-- bucket `dictEntry *` with its `next` pointers is the list of its entries, a NULL table is the empty
-- list, a pointer into a bucket is the rest of that list. Memory is never exhausted. Calls of
-- destructors are recorded in a list.
pub mod Types
pub mod Chain
pub mod Table
pub mod Ops
pub mod Placed
pub mod Rehash
pub mod Grow
pub mod Slot
pub mod Add
pub mod Change
pub mod Clear
pub mod Iterator
pub mod Hash
mod Tests
