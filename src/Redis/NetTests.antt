-- ===== src/Redis/NetTests.antt =====
-- The theorems on waiting for a descriptor, saving, clients, replication and reference counts at concrete
-- inputs.
use homemade.Prelude.{
  ℕ, suc, ◌≤◌, ◌<◌, ◌≡◌, refl, sym, true, false, none, some, [], ◌∷◌, ◌++◌, arith, inr, length,
  take, min, length-take, take-append-drop,
}
use homemade.Redis.Object.{Bytes, codes, memcmp_eq}
use homemade.Redis.Config.{repl_none}
use homemade.Redis.Saving.{Saver, Device, save_db_file}
use homemade.Redis.SavingLaws.{SaveResult, KeepsFiles, save_db_file-IsAtomic}
use homemade.Redis.Sync.{
  sync_write, sync_write_loop, write_if, end_round, in_time, sync_read, sync_read_loop, read_if,
}
use homemade.Redis.SyncLaws.{Takes, SendsAll, sync_write-SendsAll}
use homemade.Redis.Clients.{Clients}
use homemade.Redis.Refcounts.{text, items, Store, object_at, decr_ref_count, create_object}
use homemade.Redis.RefcountLaws.{IsCounted, Drops, decr_ref_count-Drops}
use homemade.Redis.RefcountUse.{create_object-IsCounted}
use homemade.Redis.Replication.{DumpFiles}
use homemade.Prelude.{replicate, Option}
use homemade.Redis.Keys.{empty_db}
use homemade.Redis.Decimal.{atoi, read_signed, read_digits, skip_spaces}
use homemade.Redis.Rdb.Load.{load_db, load_dbs, fread}
use homemade.Redis.Clients.{create_client}
use homemade.Redis.Queries.{connect_client}
use homemade.Net.Sockets.{anet_non_block, anet_tcp_no_delay, with_flags}
use homemade.Redis.Replica.{
  sync_ok, mark_master, dump_master_rdb, dump_into, dump_loop, store_chunk, stored_then,
  close_and_rename, rename_dump, dumped_then, load_then, loaded_then, Slave, sync_with_master,
  connected_then, asked_then, header_then, closing, dump_loop,
}
use homemade.Redis.ReplicaLaws.{Synchronised, sync_with_master-Synchronised}
use homemade.Redis.DumpLaws.{Feeds, Dumps, dump_loop-Dumps}
use homemade.Redis.Samples.{server}
use homemade.Ae.Wait.{ae_wait, wait_result, remask}
use homemade.Net.System.{Streams}
use homemade.Net.Sockets.{
  connected, anet_tcp_connect, anet_tcp_generic_connect, connect_with, connect_found, host_address,
  or_by_name, flags_then, connect_to, after_connect,
}
use homemade.Net.StreamLaws.{HasRead}
use homemade.Net.Samples.{Wire, wire, read_bytes, streams, streams-WritesTo, sockets}

streams-Takes : Takes streams 7 (λ w. w.sent) (λ w. w.clock)
streams-Takes = record {
  reads_clock = λ w. refl;
  time_on = λ w. omega arith;
  time_sent = λ w. refl;
  select_on = λ s ms w. omega arith;
  select_sent = λ s ms w. refl;
  select_answers = λ w. inr (inr (0, refl, refl));
  write_on = λ bytes w. omega arith;
  write_sent = streams-WritesTo;
  write_some = λ x bytes k w h. let e : min 2 (suc (length bytes)) ≡ k = cc in omega (arith, e);
}

sync_write-SendsAll_example :
    SendsAll
      (λ w. w.sent)
      (sync_write streams 7 (codes "SYNC \r\n") 5 wire)
      (codes "SYNC \r\n")
      7
      wire
sync_write-SendsAll_example = sync_write-SendsAll streams-Takes (codes "SYNC \r\n") 5 wire

abbrev device : Device
device = record {
  tmpfile = codes "temp-1.2.rdb";
  opens = true;
  renames = true;
  room = 4096;
  stored = λ b. b;
  fallthrough = true;
  now = 100;
}

abbrev dump_name : Bytes
dump_name = codes "dump.rdb"

abbrev saver : Saver
saver = record { state = server; files = λ name. none; lastsave = 0; bgsaveinprogress = false }

names_differ : memcmp_eq dump_name device.tmpfile ≡ false
unfolding memcmp_eq
names_differ = refl

save_db_file-IsAtomic_example :
    SaveResult device dump_name saver (save_db_file device dump_name saver)
    × KeepsFiles dump_name device.tmpfile saver.files (save_db_file device dump_name saver).1.files
save_db_file-IsAtomic_example =
    save_db_file-IsAtomic device dump_name names_differ (λ b. refl) saver

abbrev no_clients : Clients
no_clients = record {
  loop = record { time_event_next_id = 0; file_events = []; time_events = []; stop = false };
  clients = [];
  slaves = [];
  master = none;
  replstate = repl_none;
  stat_numconnections = 0;
}

-- An object 1 that holds object 2 twice; the program holds each of them once.
abbrev store : Store
store = record {
  objects =
      (1, record { payload = items (2 ∷ 2 ∷ []); refcount = 1 })
      ∷ (2, record { payload = text (codes "v"); refcount = 3 })
      ∷ [];
  objfreelist = 9 ∷ [];
}

store-IsCounted : IsCounted (1 ∷ 2 ∷ []) [] store
unfolding object_at
store-IsCounted = record {
  counts = λ x. ground arith;
  once = λ x. ground arith;
  idle = λ x h. ground arith;
}

decr_ref_count-Drops_example : Drops 1 (2 ∷ []) [] store (decr_ref_count 4 1 store)
decr_ref_count-Drops_example =
    decr_ref_count-Drops 4 1 (2 ∷ []) [] store store-IsCounted (omega arith)

fresh_3 : (object_at 3 store.objects).refcount ≡ 0
unfolding object_at
fresh_3 = refl

create_object-IsCounted_example :
    IsCounted
      ((create_object 3 (items (1 ∷ [])) store).0 ∷ 2 ∷ [])
      []
      (create_object 3 (items (1 ∷ [])) store).1
create_object-IsCounted_example =
    create_object-IsCounted 3 (items (1 ∷ [])) (2 ∷ []) [] store fresh_3 refl store-IsCounted

-- A file that takes what it is given.
abbrev file_streams : Streams Wire
file_streams = record streams {
  write = λ fd bytes w. (some (length bytes), record w { sent = w.sent ++ bytes });
}

length-take-le : (n : ℕ) (bs : Bytes) → length (take n bs) ≤ n
length-take-le n bs = omega (arith, length-take n bs)

read_bytes-HasRead : (n : ℕ) (bs : Bytes) → HasRead n bs (read_bytes n bs).0 (read_bytes n bs).1
read_bytes-HasRead n [] = refl
read_bytes-HasRead n (b ∷ bs) = (length-take-le n (b ∷ bs), sym (take-append-drop n (b ∷ bs)))

read_bytes-some :
    (n : ℕ) (bs chunk : Bytes) → (read_bytes (suc n) bs).0 ≡ some chunk → 0 < length chunk
read_bytes-some n [] chunk h = cc
read_bytes-some n (b ∷ bs) chunk h = let e : b ∷ take n bs ≡ chunk = cc in rw (← e) (omega arith)

file_streams-Feeds : Feeds file_streams 7 4 (λ w. w.waiting) (λ w. w.sent)
file_streams-Feeds = record {
  reads = λ count w. read_bytes-HasRead count w.waiting;
  reads_some = λ count chunk w h. read_bytes-some count w.waiting chunk h;
  read_keeps = λ count w. refl;
  writes = λ bytes w. refl;
  write_keeps = λ bytes w. refl;
}

dump_loop-Dumps_example :
    Dumps (λ w. w.waiting) (λ w. w.sent) (dump_loop file_streams 3 7 4 2 wire) 2 wire
dump_loop-Dumps_example = dump_loop-Dumps file_streams-Feeds 3 2 wire (omega arith)

abbrev slave : Slave
slave = record { dicts = server.dicts; server = no_clients }

abbrev disk : DumpFiles Wire
disk = record {
  open_dump = λ w. (some 4, w);
  fstat_size = λ fd w. (some 2, w);
  open_tmp = λ w. (some 4, w);
  rename_tmp = λ w. (true, w);
  unlink_tmp = λ w. w;
}

-- The line with the size, with what the 1024 bytes swallow, and a dump of two bytes.
abbrev answered : Wire
answered = record wire { sent = []; waiting = codes "2\r\n" ++ replicate 1021 0 ++ codes "ab" }

-- The dump file is that of empty databases.
abbrev dump_file : Wire → Option (ℕ × Bytes)
dump_file w = some (94208, codes "REDIS0000" ++ 255 ∷ [])

abbrev slave_0 : Slave
slave_0 = record { dicts = []; server = no_clients }

abbrev mastered : Slave
mastered = record { dicts = []; server = mark_master 4 (create_client 4 100 no_clients) }

abbrev sync_end : Wire
sync_end = record wire { sent = codes "SYNC \r\nab"; waiting = []; opened = 4 ∷ 3 ∷ [] }

sync_run :
    sync_with_master streams
      (sockets connected)
      disk
      dump_file
      3
      true
      (codes "host")
      6379
      slave_0
      answered
    ≡ some (sync_ok mastered, sync_end)
unfolding sync_with_master connected_then asked_then header_then closing anet_tcp_connect
    anet_tcp_generic_connect connect_with connect_found host_address or_by_name flags_then
    connect_to after_connect sync_write sync_write_loop write_if end_round in_time sync_read
    sync_read_loop read_if ae_wait wait_result remask dump_master_rdb dump_into dump_loop
    store_chunk stored_then close_and_rename rename_dump dumped_then load_then loaded_then load_db
    load_dbs fread memcmp_eq connect_client anet_non_block anet_tcp_no_delay with_flags mark_master
    create_client atoi read_signed read_digits skip_spaces empty_db
sync_run = refl

sync_with_master-Synchronised_example : Synchronised dump_file slave_0 (sync_ok mastered)
sync_with_master-Synchronised_example =
    sync_with_master-Synchronised streams (sockets connected) disk dump_file slave_0 3 true
      (codes "host") 6379 answered sync_end (sync_ok mastered) sync_run
