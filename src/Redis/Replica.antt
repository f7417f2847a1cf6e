-- ===== src/Redis/Replica.antt =====
-- A slave in redis/src/redis.c: `dumpMasterRDB` and `syncWithMaster`. The log is not modelled.
use homemade.Prelude.{ℕ, zero, suc, ◌-◌, Bool, true, false, Option, none, some, List, length, min}
use homemade.Prelude.Int.{ℤ, pos_part}
use homemade.Redis.Object.{Bytes, codes}
use homemade.Redis.Decimal.{atoi}
use homemade.Redis.State.{Db}
use homemade.Redis.Keys.{empty_db}
use homemade.Redis.Config.{repl_connected}
use homemade.Redis.Clients.{RedisClient, Clients, update_client, find_client}
use homemade.Redis.Sync.{sync_write, sync_read}
use homemade.Redis.Rdb.Load.{Outcome as Loading, load_db}
use homemade.Redis.Queries.{connect_client}
use homemade.Redis.Replication.{DumpFiles}
use homemade.Net.System.{M, ◌>>=◌, ◌>>◌, pure, call, tell, out_of_fuel, Streams}
use homemade.Net.Sockets.{Sockets, returned, anet_tcp_connect}

module _ {World : Type 0} (io : Streams World) where
  -- What follows the `write` of a round.
  unfoldable pub stored_then : Option ℕ → M World Bool → M World Bool
  stored_then none rest = pure false
  stored_then (some n) rest = rest

  -- What follows the `read` of a round; a `write` of fewer bytes is not noticed.
  unfoldable pub store_chunk : ℕ → Option Bytes → (ℕ → M World Bool) → M World Bool
  unfolding stored_then
  store_chunk dfd none rest = pure false
  store_chunk dfd (some chunk) rest = do
    r ← call (io.write dfd chunk)
    stored_then r (rest (length chunk))

  -- The loop of `dumpMasterRDB`, whether it ends without an error
  unfoldable pub dump_loop : ℕ → ℕ → ℕ → ℕ → M World Bool
  unfolding store_chunk
  dump_loop zero fd dfd dumpsize = out_of_fuel
  dump_loop (suc fuel) fd dfd zero = pure true
  dump_loop (suc fuel) fd dfd (suc dumpsize) = do
    chunk ← call (io.read fd (min (suc dumpsize) 1024))
    store_chunk dfd chunk (λ n. dump_loop fuel fd dfd (suc dumpsize - n))

module _ {World : Type 0} (io : Streams World) (disk : DumpFiles World) where
  -- The end of `dumpMasterRDB`. Where the file is renamed the function ends without a `return`;
  -- `fallthrough` tells whether what its caller reads is REDIS_OK.
  unfoldable pub rename_dump : Bool → Bool → M World Bool
  rename_dump fallthrough true = pure fallthrough
  rename_dump fallthrough false = do tell disk.unlink_tmp; pure false

  unfoldable pub close_and_rename : Bool → ℕ → Bool → M World Bool
  unfolding rename_dump
  close_and_rename fallthrough dfd false = do tell (io.close dfd); pure false
  close_and_rename fallthrough dfd true = do
    tell (io.close dfd)
    renamed ← call disk.rename_tmp
    rename_dump fallthrough renamed

  unfoldable pub dump_into : ℕ → Bool → ℕ → ℕ → Option ℕ → M World Bool
  unfolding dump_loop close_and_rename
  dump_into fuel fallthrough dumpsize fd none = pure false
  dump_into fuel fallthrough dumpsize fd (some dfd) = do
    stored ← dump_loop io fuel fd dfd dumpsize
    close_and_rename fallthrough dfd stored

  -- `dumpMasterRDB`, whether its caller reads REDIS_OK; a negative size is none
  unfoldable pub dump_master_rdb : ℕ → Bool → ℤ → ℕ → M World Bool
  unfolding dump_into
  dump_master_rdb fuel fallthrough dumpsize fd = do
    dfd ← call disk.open_tmp
    dump_into fuel fallthrough (pos_part dumpsize) fd dfd

-- What `syncWithMaster` changes: the databases, and the clients with the master.
pub record Slave : Type 0 where
  pub dicts : List Db
  pub server : Clients

-- REDIS_OK, REDIS_ERR, or the end of the process that `loadDb` makes.
pub data MasterSync : Type 0 where
  sync_ok sync_err : Slave → MasterSync
  exits : MasterSync

abbrev marked : Option RedisClient → List RedisClient → List RedisClient
marked none cs = cs
marked (some c) cs = update_client (record c { is_master = true }) cs

-- The master's client, with its flag.
unfoldable pub mark_master : ℕ → Clients → Clients
mark_master fd s = record s {
  clients = marked (find_client fd s.clients) s.clients;
  master = some fd;
  replstate = repl_connected;
}

-- `open_dump` is `fopen` of the dump file with what it reads: the stream's pointer and the content.
module _ {World : Type 0} (io : Streams World) (net : Sockets World) (disk : DumpFiles World)
    (open_dump : World → Option (ℕ × Bytes)) where
  unfoldable pub closing : ℕ → Slave → M World MasterSync
  closing fd s = do tell (io.close fd); pure (sync_err s)

  -- What `loadDb` comes to, on databases that are empty.
  unfoldable pub loaded_then : ℕ → Slave → Loading (Option (List Db)) → M World MasterSync
  unfolding closing mark_master
  loaded_then fd s Loading.null = pure exits
  loaded_then fd s Loading.abort = pure exits
  loaded_then fd s (Loading.done none rest) = closing fd s
  loaded_then fd s (Loading.done (some dicts) rest) = do
    t ← connect_client net io.time fd s.server
    pure (sync_ok (record { dicts = dicts; server = mark_master fd t }))

  unfoldable pub load_then : ℕ → Slave → Option (ℕ × Bytes) → M World MasterSync
  unfolding loaded_then closing
  load_then fd s none = closing fd s
  load_then fd s (some (stream, content)) = loaded_then fd s (load_db stream s.dicts content)

  unfoldable pub dumped_then : ℕ → Slave → Bool → M World MasterSync
  unfolding load_then closing
  dumped_then fd s false = closing fd s
  dumped_then fd s true = do
    content ← call (λ w. (open_dump w, w))
    load_then fd (record s { dicts = empty_db s.dicts }) content

  unfoldable pub header_then : ℕ → Bool → ℕ → Slave → Option Bytes → M World MasterSync
  unfolding dumped_then closing
  header_then fuel fallthrough fd s none = closing fd s
  header_then fuel fallthrough fd s (some buf) = do
    dumped ← dump_master_rdb io disk fuel fallthrough (atoi buf) fd
    dumped_then fd s dumped

  unfoldable pub asked_then : ℕ → Bool → ℕ → Slave → Option ℕ → M World MasterSync
  unfolding header_then closing
  asked_then fuel fallthrough fd s none = closing fd s
  asked_then fuel fallthrough fd s (some n) = do
    buf ← sync_read io fd fuel 1024 5
    header_then fuel fallthrough fd s buf

  -- From the connection on. The test of it is one for -1, and `ANET_ERR` is 1: an error goes on, with the
  -- descriptor 1
  unfoldable pub connected_then : ℕ → Bool → Slave → ℕ → M World MasterSync
  unfolding asked_then
  connected_then fuel fallthrough s fd = do
    asked ← sync_write io fd (codes "SYNC \r\n") 5
    asked_then fuel fallthrough fd s asked

  -- `syncWithMaster`; the port is what the pointer to the host's name gives as an `int`
  unfoldable pub sync_with_master : ℕ → Bool → Bytes → ℕ → Slave → M World MasterSync
  unfolding connected_then
  sync_with_master fuel fallthrough masterhost port s = do
    r ← anet_tcp_connect net masterhost port
    connected_then fuel fallthrough s (returned r)
