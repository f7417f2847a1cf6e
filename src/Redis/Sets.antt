-- ===== src/Redis/Sets.antt =====
-- The commands of redis/src/redis.c on sets. `none` is a fault of a hash table.
use homemade.Prelude.{Option, none, some, if◌then◌else◌, ◌>>=◌, is_some}
use homemade.Dict.Types.{Dict, Status, dict_ok, dict_err, value_of}
use homemade.Dict.Table.{create}
use homemade.Dict.Ops.{find, add, delete}
use homemade.Redis.Object.{Bytes, Obj, string, list, set_obj, hash_dict_type, set_dict_type}
use homemade.Redis.Shared
use homemade.Redis.State.{State, db, with_db, touch, add_reply}
use homemade.Redis.Keyspace.{mutate}
use homemade.Redis.Strings.{number_line}

unfoldable pub sadd_reply : State → Status → State
sadd_reply st dict_ok = add_reply Shared.one (touch st)
sadd_reply st dict_err = add_reply Shared.zero st

-- `saddCommand` once it has the set, `members`, that the database holds
unfoldable pub sadd_member : Bytes → Bytes → Dict Bytes (Unit {0}) → State → Option State
unfolding sadd_reply
sadd_member k v members st =
    add set_dict_type members v tt >>= λ r. some (sadd_reply (mutate k (set_obj r.0) st) r.1)

unfoldable pub sadd_found : Bytes → Bytes → State → Option Obj → Option State
unfolding sadd_member
sadd_found k v st none =
    add hash_dict_type (db st) k (set_obj create) >>= λ r. sadd_member k v create (with_db r.0 st)
sadd_found k v st (some (set_obj members)) = sadd_member k v members st
sadd_found k v st (some (string b)) = some (add_reply Shared.minus2 st)
sadd_found k v st (some (list xs)) = some (add_reply Shared.minus2 st)

-- `saddCommand`
unfoldable pub sadd_command : Bytes → Bytes → State → Option State
unfolding sadd_found
sadd_command k v st = sadd_found k v st (value_of (find hash_dict_type (db st) k))

unfoldable pub srem_found : Bytes → Bytes → State → Option Obj → State
unfolding sadd_reply
srem_found k v st none = add_reply Shared.zero st
srem_found k v st (some (set_obj members)) =
    let r = delete set_dict_type members v in sadd_reply (mutate k (set_obj r.0) st) r.1
srem_found k v st (some (string b)) = add_reply Shared.minus2 st
srem_found k v st (some (list xs)) = add_reply Shared.minus2 st

-- `sremCommand`
unfoldable pub srem_command : Bytes → Bytes → State → State
unfolding srem_found
srem_command k v st = srem_found k v st (value_of (find hash_dict_type (db st) k))

unfoldable pub sismember_found : Bytes → State → Option Obj → State
sismember_found v st none = add_reply Shared.zero st
sismember_found v st (some (set_obj members)) =
    add_reply (if is_some (find set_dict_type members v) then Shared.one else Shared.zero) st
sismember_found v st (some (string b)) = add_reply Shared.minus2 st
sismember_found v st (some (list xs)) = add_reply Shared.minus2 st

-- `sismemberCommand`
unfoldable pub sismember_command : Bytes → Bytes → State → State
unfolding sismember_found
sismember_command k v st = sismember_found v st (value_of (find hash_dict_type (db st) k))

unfoldable pub scard_found : State → Option Obj → State
scard_found st none = add_reply Shared.zero st
scard_found st (some (set_obj members)) = add_reply (number_line members.used) st
scard_found st (some (string b)) = add_reply Shared.minus2 st
scard_found st (some (list xs)) = add_reply Shared.minus2 st

-- `scardCommand`
unfoldable pub scard_command : Bytes → State → State
unfolding scard_found
scard_command k st = scard_found st (value_of (find hash_dict_type (db st) k))
