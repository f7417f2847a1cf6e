-- ===== src/Redis.antt =====
-- redis/src/redis.c: objects, databases, clients' replies and the commands.
pub mod Object
pub mod Decimal
pub mod Shared
pub mod State
pub mod Keyspace
pub mod Strings
pub mod StringLaws
pub mod Keys
pub mod KeyLaws
pub mod Lists
pub mod ListRanges
pub mod ListLaws
pub mod PushLaws
pub mod Sets
pub mod Members
pub mod SetLaws
pub mod Inter
pub mod InterLaws
pub mod InterStore
pub mod Config
pub mod ConfigLaws
pub mod Cron
pub mod CronLaws
pub mod SortSyntax
pub mod SortRange
pub mod Sort
pub mod SortLaws
pub mod SortOrder
pub mod Rdb
pub mod Glob
pub mod KeyQueries
mod Samples
mod Tests
mod ListTests
mod QueryTests
pub mod Sync
pub mod SyncLaws
pub mod Saving
pub mod SavingLaws
pub mod Clients
pub mod Queries
pub mod ClientEvents
pub mod ClientFree
pub mod ClientLaws
pub mod Replication
pub mod Replica
pub mod ReplicaLaws
pub mod DumpLaws
pub mod Refcounts
pub mod RefcountLaws
pub mod RefcountUse
mod NetTests
pub mod Start
pub mod StartLaws
mod StartTests
