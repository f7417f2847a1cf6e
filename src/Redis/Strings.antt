-- ===== src/Redis/Strings.antt =====
-- The string commands of redis/src/redis.c. `none` is a fault of the hash table.
use homemade.Prelude.{
  ◌&&◌, ℕ, Bool, true, false, Option, none, some, List, [], ◌∷◌, ◌++◌, length, if◌then◌else◌, ◌>>=◌,
}
use homemade.Prelude.Int.{ℤ, pos, negsuc, ◌+ℤ◌, ◌-ℤ◌}
use homemade.Dict.Types.{Status, dict_ok, dict_err, value_of}
use homemade.Dict.Ops.{find, add, replace}
use homemade.Redis.Object.{Bytes, codes, Obj, string, list, set_obj, hash_dict_type}
use homemade.Redis.Decimal.{is_int, is_llong, print_ℕ, print_ℤ, strtoll, atoi}
use homemade.Redis.Shared
use homemade.Redis.State.{State, db, with_db, touch, add_reply}
use homemade.Redis.Keyspace.{put}

-- `addReplySds` of the length line of a bulk reply, `"%d\r\n"`
abbrev pub number_line : ℕ → Bytes
number_line n = print_ℕ n ++ codes "\r\n"

-- The three replies that send a string in bulk.
abbrev pub bulk : Bytes → State → State
bulk s st = add_reply Shared.crlf (add_reply s (add_reply (number_line (length s)) st))

-- The strings that `bulk` queues for each of some values.
abbrev pub bulks : List Bytes → List Bytes
bulks [] = []
bulks (x ∷ xs) = number_line (length x) ∷ x ∷ Shared.crlf ∷ bulks xs

-- `pingCommand`
unfoldable pub ping_command : State → State
ping_command st = add_reply Shared.pong st

-- `echoCommand`
unfoldable pub echo_command : Bytes → State → State
echo_command arg st = bulk arg st

-- `setGenericCommand` after its `dictAdd`
unfoldable pub set_after : Bytes → Bytes → Bool → State → Status → Option State
set_after k v nx st dict_ok = some (add_reply (if nx then Shared.one else Shared.ok) (touch st))
set_after k v true st dict_err = some (add_reply Shared.zero st)
set_after k v false st dict_err = replace hash_dict_type (db st) k (string v) >>= λ r.
    some (add_reply Shared.ok (touch (with_db r.0 st)))

-- `setGenericCommand`
unfoldable pub set_generic_command : Bytes → Bytes → Bool → State → Option State
unfolding set_after
set_generic_command k v nx st =
    add hash_dict_type (db st) k (string v) >>= λ r. set_after k v nx (with_db r.0 st) r.1

-- `setCommand`
unfoldable pub set_command : Bytes → Bytes → State → Option State
unfolding set_generic_command
set_command k v st = set_generic_command k v false st

-- `setnxCommand`
unfoldable pub setnx_command : Bytes → Bytes → State → Option State
unfolding set_generic_command
setnx_command k v st = set_generic_command k v true st

unfoldable pub get_reply : Option Obj → State → State
get_reply none st = add_reply Shared.nil st
get_reply (some (string s)) st = bulk s st
get_reply (some (list xs)) st = add_reply Shared.wrongtypeerrbulk st
get_reply (some (set_obj d)) st = add_reply Shared.wrongtypeerrbulk st

-- `getCommand`
unfoldable pub get_command : Bytes → State → State
unfolding get_reply
get_command k st = get_reply (value_of (find hash_dict_type (db st) k)) st

-- `dictEntryStringValueToLL`
unfoldable pub entry_value_to_ll : Option Obj → ℤ
entry_value_to_ll none = pos 0
entry_value_to_ll (some (string s)) = strtoll s
entry_value_to_ll (some (list xs)) = pos 0
entry_value_to_ll (some (set_obj d)) = pos 0

-- `incrDecrCommand`; C leaves a `delta` that is no `int` and a sum that is no `long long` undefined: `none`
unfoldable pub incr_decr_command : Bytes → ℤ → State → Option State
incr_decr_command k delta st =
    let value = entry_value_to_ll (value_of (find hash_dict_type (db st) k)) +ℤ delta in
    let stored = put k (string (print_ℤ value)) st >>= λ t.
    some (add_reply Shared.crlf (add_reply (print_ℤ value) (touch t))) in
    if is_int delta && is_llong value then stored else none

-- `incrCommand`
unfoldable pub incr_command : Bytes → State → Option State
unfolding incr_decr_command
incr_command k st = incr_decr_command k (pos 1) st

-- `decrCommand`
unfoldable pub decr_command : Bytes → State → Option State
unfolding incr_decr_command
decr_command k st = incr_decr_command k (negsuc 0) st

-- `incrbyCommand`
unfoldable pub incrby_command : Bytes → Bytes → State → Option State
unfolding incr_decr_command
incrby_command k by st = incr_decr_command k (atoi by) st

-- `decrbyCommand`
unfoldable pub decrby_command : Bytes → Bytes → State → Option State
unfolding incr_decr_command
decrby_command k by st = incr_decr_command k (pos 0 -ℤ atoi by) st
