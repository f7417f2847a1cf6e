-- ===== src/Redis/Inter.antt =====
-- `sinterCommand` and `sinterstoreCommand` of redis/src/redis.c. `qsort` is the C library's, with the
-- comparison `qsortCompareSetsByCardinality`. `none` is a fault of a hash table, a use of a freed set, or
-- a read of the first of no sets.
use homemade.Prelude.{
  ◌+◌, Bool, true, false, Option, none, some, List, [], ◌∷◌, ◌++◌, if◌then◌else◌, length, ◌>>=◌,
  is_some,
}
use homemade.Prelude.Int.{ℤ, sub_ℕ}
use homemade.Dict.Types.{Entry, value_of}
use homemade.Dict.Table.{create}
use homemade.Dict.Ops.{find, add}
use homemade.Dict.Iterator.{visit, get_iterator}
use homemade.Redis.Object.{
  Bytes, Obj, string, list, set_obj, sds_dict_key_compare, hash_dict_type, set_dict_type,
}
use homemade.Redis.Shared
use homemade.Redis.State.{State, db, with_db, add_reply}
use homemade.Redis.Keyspace.{mutate, remove}
use homemade.Redis.Strings.{bulks, number_line}
use homemade.Redis.Members.{Members}

-- `qsortCompareSetsByCardinality`
unfoldable pub compare_sets_by_cardinality : Members → Members → ℤ
compare_sets_by_cardinality a b = sub_ℕ a.used b.used

-- What the first loop ends with: the reply for a key that is missing or no set, or the sets in order.
pub data Gathered : Type 0 where
  missing wrong_type : Gathered
  sets : List Members → Gathered

unfoldable pub gather_more : Members → Gathered → Gathered
gather_more d missing = missing
gather_more d wrong_type = wrong_type
gather_more d (sets ds) = sets (d ∷ ds)

unfoldable pub gather_next : Option Obj → Gathered → Gathered
unfolding gather_more
gather_next none rest = missing
gather_next (some (set_obj d)) rest = gather_more d rest
gather_next (some (string s)) rest = wrong_type
gather_next (some (list xs)) rest = wrong_type

unfoldable pub gather : State → List Bytes → Gathered
unfolding gather_next
gather st [] = sets []
gather st (k ∷ ks) = gather_next (value_of (find hash_dict_type (db st) k)) (gather st ks)

-- Whether the inner loop over the other sets reaches its end.
abbrev pub in_all : List Members → Bytes → Bool
in_all [] x = true
in_all (d ∷ ds) x = if is_some (find set_dict_type d x) then in_all ds x else false

-- The elements that the loop does not skip.
abbrev pub common : List Members → List (Entry Bytes (Unit {0})) → List Bytes
common ds [] = []
common ds (e ∷ es) = let rest = common ds es in if in_all ds e.key then e.key ∷ rest else rest

-- `while((de = dictNext(di)) != NULL)` over the first set
abbrev pub walk_first : List Members → Option (List Bytes)
walk_first [] = none
walk_first (d ∷ ds) = visit (d.used + 1) (d.size + 1) d get_iterator >>= λ es. some (common ds es)

-- The multi-bulk reply, whose length object is set last.
abbrev pub sinter_reply : State → List Bytes → State
sinter_reply st xs = record st { reply = st.reply ++ number_line (length xs) ∷ [] ++ bulks xs }

unfoldable pub store_loop : List Bytes → Members → Option Members
store_loop [] d = some d
store_loop (x ∷ xs) d = add set_dict_type d x tt >>= λ r. store_loop xs r.0

abbrev pub among : Bytes → List Bytes → Bool
among k [] = false
among k (x ∷ xs) = if sds_dict_key_compare k x then true else among k xs

-- The `dstkey` branches. Deleting the old value of `dst` frees it, so a source of that name is gone.
unfoldable pub sinter_store : Bytes → List Bytes → List Members → State → Option State
unfolding store_loop
sinter_store dst ks ds st =
    if among dst ks
    then none
    else add hash_dict_type (db (remove dst st).0) dst (set_obj create) >>= λ r.
        walk_first ds >>= λ xs. store_loop xs create >>= λ d.
        some (add_reply Shared.ok (mutate dst (set_obj d) (with_db r.0 (remove dst st).0)))

unfoldable pub sinter_gathered :
    (List Members → List Members) → List Bytes → Option Bytes → State → Gathered → Option State
unfolding sinter_store
sinter_gathered qsort ks none st missing = some (add_reply Shared.nil st)
sinter_gathered qsort ks (some dst) st missing = some (add_reply Shared.nokeyerr st)
sinter_gathered qsort ks none st wrong_type = some (add_reply Shared.wrongtypeerrbulk st)
sinter_gathered qsort ks (some dst) st wrong_type = some (add_reply Shared.wrongtypeerr st)
sinter_gathered qsort ks none st (sets ds) =
    walk_first (qsort ds) >>= λ xs. some (sinter_reply st xs)
sinter_gathered qsort ks (some dst) st (sets ds) = sinter_store dst ks (qsort ds) st

-- `sinterGenericCommand`
unfoldable pub sinter_generic_command :
    (List Members → List Members) → List Bytes → Option Bytes → State → Option State
unfolding gather sinter_gathered
sinter_generic_command qsort ks dst st = sinter_gathered qsort ks dst st (gather st ks)

-- `sinterCommand`, on the arguments behind its name
unfoldable pub sinter_command : (List Members → List Members) → List Bytes → State → Option State
unfolding sinter_generic_command
sinter_command qsort ks st = sinter_generic_command qsort ks none st

-- `sinterstoreCommand`
unfoldable pub sinterstore_command :
    (List Members → List Members) → Bytes → List Bytes → State → Option State
unfolding sinter_generic_command
sinterstore_command qsort dst ks st = sinter_generic_command qsort ks (some dst) st
