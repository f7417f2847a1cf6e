-- ===== src/Lib.antt =====
-- Verification of the C part of this repository: a Redis server under redis/src.
--
-- The server keeps numbered databases, each a hash table from strings to objects, and runs the commands of
-- its clients on the selected one; it saves the databases to a dump file and loads them from it. An event
-- loop calls it for sockets and timers. The parts, and the files that model them:
--
-- - redis/src/dict.h and dict.c, the chained hash table: Dict. Dict/Types has the structures and macros
--   (`Dict` is `dict`, with a list of entries for a bucket; `DictType` is `dictType`, whose callbacks are
--   fields), Dict/Table `dictCreate`, `dictExpand`, `dictResize`, Dict/Ops the other operations,
--   Dict/Iterator `dictGetIterator` and `dictNext`, Dict/Hash the hash functions. Dict/Chain, Placed, Rehash,
--   Grow, Slot, Add, Change and Clear are the proofs. `unsigned int` counters wrap at 2 ^ 32. The operations
--   return what they free, in order.
-- - redis/src/redis.c, objects and commands: Redis. Redis/Object has `robj` and the two types of hash table,
--   Redis/Shared the shared replies, Redis/State the server's databases and counter with the client's
--   selected database and reply, Redis/Keyspace the steps on a database that commands share, Redis/Decimal
--   `%d`, `%lld`, `atoi` and `strtoll`. A command is a function of its arguments and the state, named as in
--   the source (`set_command` is `setCommand`); one that may abort the server or fault returns an option.
--   Redis/Strings, Keys, Lists, ListRanges and Sets have the commands, Redis/StringLaws, KeyLaws, ListLaws,
--   PushLaws, Members and SetLaws what they do.
-- - redis/src/redis.c, the dump file: Redis/Rdb. Rdb/Write has the writers up to `saveDb`, Rdb/Load the
--   readers up to `loadDb`, Rdb/Laws, RoundTrip, DumpBytes, DumpBody, DumpLoop and Dump the theorems. A file is a list of
--   bytes; a writer
--   fails where the device is full, and `fwrite` of no bytes gives 0.
-- - redis/src/sds.h and sds.c, strings with a header: Sds. `Sds` has all the allocated bytes, and an access
--   outside of them is a fault; Sds/Laws, Trim, Range and PrintfLaws have what the functions leave.
--   Sds/Printf has `sdscatprintf`, on the text that its format gives. The commands take a string as its
--   bytes.
-- - redis/src/ae.h and ae.c, the event loop: Ae. `select`, the clock and the callbacks are parameters.
-- - redis/src/redis.c, patterns and queries: Redis/Glob has `stringmatchlen`, Glob/Plain and Glob/Unclosed
--   its theorems, Redis/KeyQueries KEYS and RANDOMKEY, Redis/Inter SINTER and SINTERSTORE with InterLaws and
--   InterStore. Redis/SortSyntax has the options and the range of SORT, Redis/Sort the command with its
--   comparison, SortRange, SortLaws and SortOrder the proofs. `qsort`, `strtod` and `strcoll` are parameters.
-- - redis/src/redis.c, configuration, start and cron: Redis/Config and ConfigLaws, Redis/Start with
--   `initServer`, `main` and INFO, and StartLaws, Redis/Cron and CronLaws. The file system, the clock,
--   `wait4` and `syncWithMaster` are parameters.
-- - redis/src/adlist.h and adlist.c, doubly linked lists: Adlist. Adlist/Heap has the nodes on a heap and
--   commands that may fault, Adlist/Ops the operations, Adlist/Links, Laws and Walk the proofs. The commands
--   of Redis use the values of the nodes in order; their `listIndex` is in Redis/Lists.
-- - redis/src/redis.c, reference counts: Redis/Refcounts on a store of objects by address, with RefcountLaws
--   and RefcountUse. The commands take an object as its value.
-- - redis/src/redis.c, clients: Redis/Clients has the clients with the event loop, Redis/Queries what reads
--   from them, ClientEvents, ClientFree and ClientLaws the events that they have.
-- - redis/src/redis.c, saving and replication: Redis/Saving has `saveDb` on the files with SAVE, BGSAVE,
--   SHUTDOWN and LASTSAVE, Redis/Sync the reads and writes that wait, Redis/Replication `syncCommand`,
--   Redis/Replica `syncWithMaster`; SavingLaws, SyncLaws, DumpLaws and ReplicaLaws are the proofs.
-- - redis/src/anet.c: Net. Net/System is the interface of the calls on descriptors, over a world that they
--   change, with Net/Always for what holds of every result; Net/Sockets and Net/Streams are the functions, SocketLaws and StreamLaws the proofs, and
--   Net/Samples a world for the examples. `aeWait` is in Ae/Wait.
-- - redis/src/zmalloc.c: Zmalloc, on the live blocks with their sizes.
-- - redis/src/redis-cli.c, the client: Cli. Cli/Table has the command table, Cli/Send `cliSendCommand`,
--   Cli/Options `parseOptions`, Cli/Main `main` and `cliConnect`, Cli/Read the readers of replies,
--   Cli/Replies what they make of the server's replies.
--
-- Prelude has what the others share: Boolean tests, lists measured by native numbers, `int` and `long long`
-- as ℤ, and the bits of `unsigned int`.
--
-- Bounds and fuel: the bytes of a table's slots are an `int`, so a table has at most 2 ^ 27 slots, and a
-- theorem that adds a key assumes room for it; `dictNext` runs on fuel, of which one more than the slots is
-- enough; the search for the next power of two has the 32 rounds it can need; a dump is loaded with its
-- number of bytes as fuel, since a round reads at least one; the lengths in a dump have 32 bits. `loadDb`
-- passes its stream as an `int`, and a stream whose pointer does not survive that is a fault. A sum of INCR
-- or of LIMIT that its C type does not hold has no result. Else a number out of the range of its C type,
-- where C leaves the result open, is kept as the number.
--
-- `syncWrite` has a round for each byte and each second as fuel, `anetRead` and `anetWrite` one for each
-- byte, `decrRefCount` one for each reference; `syncRead` and the loops on the dump's file take their fuel as
-- an argument, since a stream that has ended keeps them going until the time is over, or for ever.
--
-- The client reads no more elements than the input has bytes, and a pattern is matched with one round more
-- than it has bytes as fuel.
--
-- Not modelled: the functions that redis.c declares and does not define (`replicationFeedSlaves`,
-- `sendReplyToClient`, `lookupCommand`, `resetClient`, `existsCommand`), `zstrdup`, logging and
-- the start as a daemon; the repository's Java and Python parts are separate programs.
pub mod Adlist
pub mod Ae
pub mod Cli
pub mod Dict
pub mod Net
pub mod Prelude
pub mod Redis
pub mod Sds
pub mod Zmalloc
