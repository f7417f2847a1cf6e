-- ===== src/Redis/Rdb/Tests.antt =====
-- Writing a list, and a dump of two databases, at concrete values.
use homemade.Prelude.{
  ℕ, ◌<◌, ◌≡◌, refl, true, some, List, [], ◌∷◌, arith, length, replicate, get_or,
}
use homemade.Redis.Object.{Bytes}
use homemade.Dict.Types.{compare_hash_keys}
use homemade.Dict.Table.{create}
use homemade.Dict.Iterator.{get_iterator, visit, next, move_on, settle}
use homemade.Redis.Object.{codes, string, list, hash_dict_type, sds_dict_key_compare, memcmp_eq}
use homemade.Redis.State.{Db}
use homemade.Redis.Rdb.Write.{
  Output, fwrite, write_sds_to_file, write_elements, write_list_to_file, write_value, write_entry,
  write_entries, write_one_db_to_file, save_dbs, save_db,
}
use homemade.Redis.Rdb.Load.{load_db, done}
use homemade.Redis.Rdb.RoundTrip.{IsLoaded}
use homemade.Redis.Rdb.DumpBytes.{dumped, AllSaved}
use homemade.Redis.Rdb.Dump.{load_db-save_db}

abbrev empty_file : Output
empty_file = record { written = []; room = 1000 }

abbrev ab : List Bytes
ab = codes "a" ∷ codes "bc" ∷ []

abbrev list_file : Output
list_file = record {
  written = 0 ∷ 0 ∷ 0 ∷ 2 ∷ 0 ∷ 0 ∷ 0 ∷ 1 ∷ 97 ∷ 0 ∷ 0 ∷ 0 ∷ 2 ∷ 98 ∷ 99 ∷ [];
  room = 985;
}

list_written : write_list_to_file ab empty_file ≡ some list_file
unfolding write_list_to_file write_elements write_sds_to_file fwrite
list_written = refl

-- Two keys, of which neither is in the last slot of the table.
abbrev two_keys : Db
two_keys = record {
  table =
      (record { key = codes "k"; val = string (codes "v") } ∷ [])
      ∷ (record { key = codes "l"; val = list (codes "a" ∷ []) } ∷ [])
      ∷ []
      ∷ []
      ∷ [];
  size = 4;
  sizemask = 3;
  used = 2;
}

abbrev empty_db : Db
empty_db = record { table = []; size = 0; sizemask = 0; used = 0 }

abbrev databases : List Db
databases = empty_db ∷ two_keys ∷ []

abbrev dump : Output
dump = record {
  written =
      82 ∷ 69 ∷ 68 ∷ 73 ∷ 83 ∷ 48 ∷ 48 ∷ 48 ∷ 48 ∷ 254 ∷ 0 ∷ 0 ∷ 0 ∷ 1 ∷ 0 ∷ 0 ∷ 0 ∷ 0 ∷ 1 ∷ 107 ∷ 0
      ∷ 0 ∷ 0 ∷ 1 ∷ 118 ∷ 1 ∷ 0 ∷ 0 ∷ 0 ∷ 1 ∷ 108 ∷ 0 ∷ 0 ∷ 0 ∷ 1 ∷ 0 ∷ 0 ∷ 0 ∷ 1 ∷ 97 ∷ 255 ∷ [];
  room = 59;
}

dump_run : save_db true databases (record { written = []; room = 100 }) ≡ some dump
unfolding save_db save_dbs write_one_db_to_file visit get_iterator next move_on settle write_entries
    write_entry write_value write_list_to_file write_elements write_sds_to_file fwrite
dump_run = refl

databases-AllSaved : AllSaved databases
unfolding dumped visit get_iterator next move_on settle compare_hash_keys hash_dict_type
    sds_dict_key_compare memcmp_eq
databases-AllSaved = (
  (tt, tt, omega arith),
  (
    (
      (omega arith, omega arith, (omega arith, (omega arith, (omega arith, tt)), tt)),
      ((refl, tt), (tt, tt)),
      omega arith,
    ),
    tt,
  ),
)

load_db-save_db_example :
    (r : List Db) × (load_db 94208 (replicate 2 create) dump.written ≡ done (some r) [])
    × (length r ≡ 2)
    × ((k : ℕ) → k < 2 → IsLoaded create (get_or r k create) (dumped (get_or databases k create)))
load_db-save_db_example =
    load_db-save_db 94208 databases 100 dump (omega arith) databases-AllSaved (omega arith) dump_run
