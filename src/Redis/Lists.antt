-- ===== src/Redis/Lists.antt =====
-- The list commands of redis/src/redis.c. `none` is an abort of the server or a fault.
use homemade.Prelude.{ℕ, zero, suc, Option, none, some, List, [], ◌∷◌, ◌++◌, length, ◌>>=◌, set}
use mathlib.Core.List.{reverse}
use homemade.Prelude.Int.{ℤ, pos, negsuc}
use homemade.Dict.Types.{value_of}
use homemade.Dict.Ops.{find, add}
use homemade.Redis.Object.{Bytes, codes, Obj, string, list, set_obj, hash_dict_type}
use homemade.Redis.Decimal.{atoi}
use homemade.Redis.Shared
use homemade.Redis.State.{State, db, with_db, touch, add_reply}
use homemade.Redis.Keyspace.{mutate}
use homemade.Redis.Strings.{number_line, bulk}

-- `REDIS_HEAD` and `REDIS_TAIL`
pub data Where : Type 0 where
  redis_head : Where
  redis_tail : Where

-- `addToList`: `listAddNodeHead` returns the list, which the test takes for a failure
unfoldable pub add_to_list : List Bytes → Bytes → Where → Option (List Bytes)
add_to_list xs ele redis_head = none
add_to_list xs ele redis_tail = some (xs ++ ele ∷ [])

unfoldable pub push_found : Bytes → Bytes → Where → State → Option Obj → Option State
unfolding add_to_list
push_found k v where' st none = add_to_list [] v where' >>= λ xs.
    add hash_dict_type (db st) k (list xs) >>= λ r.
    some (add_reply Shared.ok (touch (with_db r.0 st)))
push_found k v where' st (some (list xs)) =
    add_to_list xs v where' >>= λ ys. some (add_reply Shared.ok (touch (mutate k (list ys) st)))
push_found k v where' st (some (string b)) = some (add_reply Shared.wrongtypeerr st)
push_found k v where' st (some (set_obj d)) = some (add_reply Shared.wrongtypeerr st)

-- `pushGenericCommand`
unfoldable pub push_generic_command : Bytes → Bytes → Where → State → Option State
unfolding push_found
push_generic_command k v where' st =
    push_found k v where' st (value_of (find hash_dict_type (db st) k))

-- `lpushCommand`
unfoldable pub lpush_command : Bytes → Bytes → State → Option State
unfolding push_generic_command
lpush_command k v st = push_generic_command k v redis_head st

-- `rpushCommand`
unfoldable pub rpush_command : Bytes → Bytes → State → Option State
unfolding push_generic_command
rpush_command k v st = push_generic_command k v redis_tail st

unfoldable pub llen_reply : Option Obj → State → State
llen_reply none st = add_reply Shared.zero st
llen_reply (some (list xs)) st = add_reply (number_line (length xs)) st
llen_reply (some (string b)) st = add_reply Shared.minus2 st
llen_reply (some (set_obj d)) st = add_reply Shared.minus2 st

-- `llenCommand`
unfoldable pub llen_command : Bytes → State → State
unfolding llen_reply
llen_command k st = llen_reply (value_of (find hash_dict_type (db st) k)) st

-- The walk over `next`, or over `prev` where the list is given from its end.
abbrev pub get_elem? {ℓ} : {A : Type ℓ} → List A → ℕ → Option A
get_elem? [] i = none
get_elem? (x ∷ xs) zero = some x
get_elem? (x ∷ xs) (suc i) = get_elem? xs i

-- `listIndex`
unfoldable pub list_index : List Bytes → ℤ → Option Bytes
list_index xs (pos i) = get_elem? xs i
list_index xs (negsuc i) = get_elem? (reverse xs) i

unfoldable pub element_reply : Option Bytes → State → State
element_reply none st = add_reply Shared.nil st
element_reply (some b) st = bulk b st

unfoldable pub lindex_reply : ℤ → Option Obj → State → State
unfolding element_reply list_index
lindex_reply i none st = add_reply Shared.nil st
lindex_reply i (some (list xs)) st = element_reply (list_index xs i) st
lindex_reply i (some (string b)) st = add_reply Shared.wrongtypeerr st
lindex_reply i (some (set_obj d)) st = add_reply Shared.wrongtypeerr st

-- `lindexCommand`
unfoldable pub lindex_command : Bytes → Bytes → State → State
unfolding lindex_reply
lindex_command k arg st = lindex_reply (atoi arg) (value_of (find hash_dict_type (db st) k)) st

-- A write through the node that `list_index` finds.
unfoldable pub list_write : List Bytes → ℤ → Bytes → List Bytes
list_write xs (pos i) v = set xs i v
list_write xs (negsuc i) v = reverse (set (reverse xs) i v)

unfoldable pub lset_node : Bytes → ℤ → Bytes → List Bytes → Option Bytes → State → State
unfolding list_write
lset_node k i v xs none st = add_reply (codes "-ERR index out of range\r\n") st
lset_node k i v xs (some old) st =
    touch (add_reply Shared.ok (mutate k (list (list_write xs i v)) st))

unfoldable pub lset_found : Bytes → ℤ → Bytes → Option Obj → State → State
unfolding lset_node list_index
lset_found k i v none st = add_reply Shared.nokeyerr st
lset_found k i v (some (list xs)) st = lset_node k i v xs (list_index xs i) st
lset_found k i v (some (string b)) st = add_reply Shared.wrongtypeerr st
lset_found k i v (some (set_obj d)) st = add_reply Shared.wrongtypeerr st

-- `lsetCommand`; `i` is what `atoi` reads, which gets the object and not its string
unfoldable pub lset_command : Bytes → ℤ → Bytes → State → State
unfolding lset_found
lset_command k i v st = lset_found k i v (value_of (find hash_dict_type (db st) k)) st
