-- ===== src/Redis/ListRanges.antt =====
-- The commands of redis/src/redis.c on ends and ranges of a list, and LREM.
use homemade.Prelude.{
  ℕ, zero, suc, ◌+◌, ◌-◌, Bool, ◌||◌, ◌&&◌, Option, none, some, List, [], ◌∷◌, length,
  if◌then◌else◌, ◌>>=◌, ltb, leb, ◌==◌, drop,
}
use mathlib.Core.List.{reverse}
use homemade.Prelude.Int.{ℤ, pos, negsuc}
use homemade.Dict.Types.{value_of}
use homemade.Dict.Ops.{find}
use homemade.Redis.Object.{Bytes, Obj, string, list, set_obj, hash_dict_type}
use homemade.Redis.Decimal.{atoi}
use homemade.Redis.Shared
use homemade.Redis.State.{State, db, touch, add_reply}
use homemade.Redis.Keyspace.{mutate}
use homemade.Redis.Strings.{number_line, bulk}
use homemade.Redis.Lists.{Where, redis_head, redis_tail}

-- `listFirst` or `listLast`, and the list that `listDelNode` leaves
unfoldable pub end_node : Where → List Bytes → Option (Bytes × List Bytes)
end_node redis_head [] = none
end_node redis_head (x ∷ xs) = some (x, xs)
end_node redis_tail [] = none
end_node redis_tail (x ∷ []) = some (x, [])
end_node redis_tail (x ∷ y ∷ ys) = end_node redis_tail (y ∷ ys) >>= λ r. some (r.0, x ∷ r.1)

unfoldable pub pop_node : Bytes → State → Option (Bytes × List Bytes) → State
pop_node k st none = add_reply Shared.nil st
pop_node k st (some (ele, rest)) = touch (mutate k (list rest) (bulk ele st))

unfoldable pub pop_found : Bytes → Where → State → Option Obj → State
unfolding end_node pop_node
pop_found k where' st none = add_reply Shared.nil st
pop_found k where' st (some (list xs)) = pop_node k st (end_node where' xs)
pop_found k where' st (some (string b)) = add_reply Shared.wrongtypeerrbulk st
pop_found k where' st (some (set_obj d)) = add_reply Shared.wrongtypeerrbulk st

-- `popGenericCommand`
unfoldable pub pop_generic_command : Bytes → Where → State → State
unfolding pop_found
pop_generic_command k where' st = pop_found k where' st (value_of (find hash_dict_type (db st) k))

-- `lpopCommand`
unfoldable pub lpop_command : Bytes → State → State
unfolding pop_generic_command
lpop_command k st = pop_generic_command k redis_head st

-- `rpopCommand`
unfoldable pub rpop_command : Bytes → State → State
unfolding pop_generic_command
rpop_command k st = pop_generic_command k redis_tail st

-- `lindexToPositive`, for one of the two indices
unfoldable pub lindex_to_positive : ℤ → ℕ → ℕ
lindex_to_positive (pos i) llen = i
lindex_to_positive (negsuc i) llen = llen - suc i

-- The reply loop of `lrangeCommand`: `none` is a node that is NULL.
unfoldable pub range_reply : ℕ → List Bytes → State → Option State
range_reply zero node st = some st
range_reply (suc n) [] st = none
range_reply (suc n) (ele ∷ node) st = range_reply n node (bulk ele st)

unfoldable pub lrange_list : List Bytes → ℕ → ℕ → State → Option State
unfolding range_reply
lrange_list xs start end st =
    let llen = length xs in
    let end' = if leb llen end then llen - 1 else end in
    let rangelen = (end' - start) + 1 in
    if ltb end start || leb llen start
    then some (add_reply Shared.zero st)
    else range_reply rangelen (drop start xs) (add_reply (number_line rangelen) st)

unfoldable pub lrange_found : ℤ → ℤ → Option Obj → State → Option State
unfolding lrange_list lindex_to_positive
lrange_found i j none st = some (add_reply Shared.nil st)
lrange_found i j (some (list xs)) st =
    lrange_list xs (lindex_to_positive i (length xs)) (lindex_to_positive j (length xs)) st
lrange_found i j (some (string b)) st = some (add_reply Shared.wrongtypeerrbulk st)
lrange_found i j (some (set_obj d)) st = some (add_reply Shared.wrongtypeerrbulk st)

-- `lrangeCommand`
unfoldable pub lrange_command : Bytes → Bytes → Bytes → State → Option State
unfolding lrange_found
lrange_command k start end st =
    lrange_found (atoi start) (atoi end) (value_of (find hash_dict_type (db st) k)) st

-- The two loops of `ltrimCommand`: `none` is `listDelNode` of NULL.
unfoldable pub del_ends : Where → ℕ → List Bytes → Option (List Bytes)
unfolding end_node
del_ends where' zero xs = some xs
del_ends where' (suc n) xs = end_node where' xs >>= λ r. del_ends where' n r.1

unfoldable pub ltrim_list : List Bytes → ℕ → ℕ → Option (List Bytes)
unfolding del_ends
ltrim_list xs start end =
    let llen = length xs in
    let out = ltb end start || leb llen start in
    let ltrim = if out then llen else start in
    let rtrim = if out then 0 else (llen - end) - 1 in
    del_ends redis_head ltrim xs >>= λ ys. del_ends redis_tail rtrim ys

unfoldable pub ltrim_found : Bytes → ℤ → ℤ → Option Obj → State → Option State
unfolding ltrim_list lindex_to_positive
ltrim_found k i j none st = some (add_reply Shared.nokeyerr st)
ltrim_found k i j (some (list xs)) st =
    ltrim_list xs (lindex_to_positive i (length xs)) (lindex_to_positive j (length xs)) >>= λ ys.
    some (touch (add_reply Shared.ok (mutate k (list ys) st)))
ltrim_found k i j (some (string b)) st = some (add_reply Shared.wrongtypeerr st)
ltrim_found k i j (some (set_obj d)) st = some (add_reply Shared.wrongtypeerr st)

-- `ltrimCommand`
unfoldable pub ltrim_command : Bytes → Bytes → Bytes → State → Option State
unfolding ltrim_found
ltrim_command k start end st =
    ltrim_found k (atoi start) (atoi end) (value_of (find hash_dict_type (db st) k)) st

-- The loop of `lremCommand` along the nodes in its direction; `same` is the comparison of an element
-- with the target, which reaches `sdscmp` as an object and not as its string.
unfoldable pub lrem_loop : (Bytes → Bool) → ℕ → ℕ → List Bytes → List Bytes × ℕ
lrem_loop same count removed [] = ([], removed)
lrem_loop same count removed (x ∷ xs) =
    let kept = lrem_loop same count removed xs in
    let rest = lrem_loop same count (suc removed) xs in
    if same x
    then if ltb 0 count && (suc removed == count) then (xs, suc removed) else rest
    else (x ∷ kept.0, kept.1)

unfoldable pub lrem_list : (Bytes → Bool) → ℤ → List Bytes → List Bytes × ℕ
unfolding lrem_loop
lrem_list same (pos count) xs = lrem_loop same count 0 xs
lrem_list same (negsuc n) xs = let r = lrem_loop same (suc n) 0 (reverse xs) in (reverse r.0, r.1)

unfoldable pub lrem_found : (Bytes → Bool) → Bytes → ℤ → Option Obj → State → State
unfolding lrem_list
lrem_found same k count none st = add_reply Shared.minus1 st
lrem_found same k count (some (list xs)) st =
    let r = lrem_list same count xs in
    let st' = mutate k (list r.0) st in
    add_reply (number_line r.1) (record st' { dirty = st'.dirty + r.1 })
lrem_found same k count (some (string b)) st = add_reply Shared.minus2 st
lrem_found same k count (some (set_obj d)) st = add_reply Shared.minus2 st

-- `lremCommand`
unfoldable pub lrem_command : (Bytes → Bool) → Bytes → Bytes → State → State
unfolding lrem_found
lrem_command same k count st =
    lrem_found same k (atoi count) (value_of (find hash_dict_type (db st) k)) st
