-- ===== src/Redis/Keys.antt =====
-- The commands of redis/src/redis.c on keys of any type, and on databases.
use homemade.Prelude.{
  ℕ, Bool, true, false, Option, none, some, List, [], ◌∷◌, if◌then◌else◌, ◌>>=◌, leb, ◌==◌, get_or,
  set,
}
use homemade.Prelude.Int.{ℤ, pos, negsuc}
use homemade.Dict.Types.{Status, dict_ok, dict_err, value_of}
use homemade.Dict.Table.{create}
use homemade.Dict.Ops.{find, add, replace, clear}
use homemade.Redis.Object.{Bytes, codes, memcmp_eq, Obj, string, list, set_obj, hash_dict_type}
use homemade.Redis.Decimal.{atoi}
use homemade.Redis.Shared
use homemade.Redis.State.{Db, State, db, with_db, touch, add_reply}
use homemade.Redis.Keyspace.{remove}
use homemade.Redis.Strings.{number_line}

unfoldable pub del_reply : State × Status → State
del_reply (st, dict_ok) = add_reply Shared.one (touch st)
del_reply (st, dict_err) = add_reply Shared.zero st

-- `delCommand`
unfoldable pub del_command : Bytes → State → State
unfolding del_reply
del_command k st = del_reply (remove k st)

-- `selectDb`: `none` is REDIS_ERR
unfoldable pub select_db : ℤ → State → Option State
select_db (negsuc n) st = none
select_db (pos id) st = if leb st.dbnum id then none else some (record st { dictid = id })

unfoldable pub select_reply : State → Option State → State
select_reply st none = add_reply (codes "-ERR invalid DB index\r\n") st
select_reply st (some t) = add_reply Shared.ok t

-- `selectCommand`; the error text reaches `addReplySds` as a plain C string
unfoldable pub select_command : Bytes → State → State
unfolding select_db select_reply
select_command arg st = select_reply st (select_db (atoi arg) st)

unfoldable pub type_name : Option Obj → Bytes
type_name none = codes "none"
type_name (some (string s)) = codes "string"
type_name (some (list xs)) = codes "list"
type_name (some (set_obj d)) = codes "set"

-- `typeCommand`
unfoldable pub type_command : Bytes → State → State
unfolding type_name
type_command k st =
    add_reply Shared.crlf (add_reply (type_name (value_of (find hash_dict_type (db st) k))) st)

-- `renameGenericCommand` after its `dictAdd` of the new key
unfoldable pub rename_after : Bytes → Bytes → Obj → Bool → State → Status → Option State
rename_after from to o true st dict_err = some (add_reply Shared.zero st)
rename_after from to o false st dict_err = replace hash_dict_type (db st) to o >>= λ r.
    some (add_reply Shared.ok (touch (remove from (with_db r.0 st)).0))
rename_after from to o nx st dict_ok =
    some (add_reply (if nx then Shared.one else Shared.ok) (touch (remove from st).0))

unfoldable pub rename_found : Bytes → Bytes → Bool → State → Option Obj → Option State
unfolding rename_after
rename_found from to nx st none =
    some (add_reply (if nx then Shared.minus1 else Shared.nokeyerr) st)
rename_found from to nx st (some o) =
    add hash_dict_type (db st) to o >>= λ r. rename_after from to o nx (with_db r.0 st) r.1

-- `renameGenericCommand`; the reply about equal names does not end the command
unfoldable pub rename_generic_command : Bytes → Bytes → Bool → State → Option State
unfolding rename_found
rename_generic_command from to nx st =
    let same = if nx then Shared.minus3 else codes "-ERR src and dest are the same\r\n" in
    rename_found from to nx (if memcmp_eq from to then add_reply same st else st)
      (value_of (find hash_dict_type (db st) from))

-- `renameCommand`
unfoldable pub rename_command : Bytes → Bytes → State → Option State
unfolding rename_generic_command
rename_command from to st = rename_generic_command from to false st

-- `renamenxCommand`
unfoldable pub renamenx_command : Bytes → Bytes → State → Option State
unfolding rename_generic_command
renamenx_command from to st = rename_generic_command from to true st

-- `moveCommand` once the target is known: `add` to it, then delete from the source
unfoldable pub move_after : Bytes → ℕ → State → Db × Status → State
move_after k dst st (d, dict_err) = add_reply Shared.zero (record st { dicts = set st.dicts dst d })
move_after k dst st (d, dict_ok) =
    add_reply Shared.one (touch (remove k (record st { dicts = set st.dicts dst d })).0)

unfoldable pub move_found : Bytes → ℕ → State → Option Obj → Option State
unfolding move_after
move_found k dst st none = some (add_reply Shared.zero st)
move_found k dst st (some o) =
    add hash_dict_type (get_or st.dicts dst create) k o >>= λ r. some (move_after k dst st r)

unfoldable pub move_to : Bytes → State → Option State → Option State
unfolding move_found
move_to k st none = some (add_reply Shared.minus4 st)
move_to k st (some t) =
    if t.dictid == st.dictid
    then some (add_reply Shared.minus3 st)
    else move_found k t.dictid st (value_of (find hash_dict_type (db st) k))

-- `moveCommand`; databases are compared by number, as each has its own table
unfoldable pub move_command : Bytes → Bytes → State → Option State
unfolding move_to select_db
move_command k arg st = move_to k st (select_db (atoi arg) st)

-- `dbsizeCommand`; the length line reaches `addReply` as an `sds`
unfoldable pub dbsize_command : State → State
dbsize_command st = add_reply (number_line (db st).used) st

-- `emptyDb`
unfoldable pub empty_db : List Db → List Db
empty_db [] = []
empty_db (d ∷ ds) = (clear hash_dict_type d).0 ∷ empty_db ds

-- `flushdbCommand` up to the save
unfoldable pub flushdb_command : State → State
flushdb_command st = add_reply Shared.ok (with_db (clear hash_dict_type (db st)).0 st)

-- `flushallCommand` up to the save
unfoldable pub flushall_command : State → State
unfolding empty_db
flushall_command st = add_reply Shared.ok (record st { dicts = empty_db st.dicts })
