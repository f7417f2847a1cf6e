-- ===== src/Redis/Sort.antt =====
-- `sortCommand` of redis/src/redis.c. `strtod` and `strcoll` are the C library's, and so is `qsort`, with
-- the comparison `sortCompare`. `none` is the `assert` on the length of the vector, or a read outside of it.
use homemade.Prelude.{
  ℕ, zero, suc, ◌+◌, ◌*◌, Bool, true, false, ◌||◌, Option, none, some, List, [], ◌∷◌, ◌++◌, map,
  length, if◌then◌else◌, ◌>>=◌, ltb, ◌==◌,
}
use homemade.Prelude.Int.{ℤ, pos, negsuc, pos_part, neg_part, ◌+ℤ◌, ◌-ℤ◌}
use homemade.Dict.Types.{Entry, value_of}
use homemade.Dict.Ops.{find}
use homemade.Dict.Iterator.{visit, get_iterator}
use homemade.Redis.Object.{Bytes, Obj, string, list, set_obj, hash_dict_type}
use homemade.Redis.Shared
use homemade.Redis.State.{State, db, add_reply}
use homemade.Redis.Strings.{number_line, bulk}
use homemade.Redis.SortSyntax.{
  limit_fits, SortOperation, sort_get, sort_del, sort_incr, SortOptions, sort_defaults, split_star,
  sort_options, limit_range,
}

-- `lookupKeyByPattern`; the length is counted in an `unsigned long`
unfoldable pub lookup_key_by_pattern : State → Bytes → Bytes → Option Obj
lookup_key_by_pattern st spat ssub =
    let n = length spat + length ssub in
    let found =
      split_star spat >>= λ p. value_of (find hash_dict_type (db st) (p.0 ++ ssub ++ p.1)) in
    if (n == 0) || ltb 1025 n then none else found

-- What an operation replies for an element.
unfoldable pub operation_reply : Option Obj → State → State
operation_reply (some (string s)) st = bulk s st
operation_reply (some (list xs)) st = add_reply Shared.minus1 st
operation_reply (some (set_obj d)) st = add_reply Shared.minus1 st
operation_reply none st = add_reply Shared.minus1 st

unfoldable pub run_operations : List SortOperation → Bytes → State → State
unfolding operation_reply
run_operations [] x st = st
run_operations (sort_get pattern ∷ ops) x st =
    run_operations ops x (operation_reply (lookup_key_by_pattern st pattern x) st)
run_operations (sort_del pattern ∷ ops) x st = run_operations ops x st
run_operations (sort_incr pattern ∷ ops) x st = run_operations ops x st

-- `server.sort_bypattern`
abbrev pub bypattern : Option Bytes → Bool
bypattern none = false
bypattern (some p) = true

module _ {Score : Type 0} (zero_score : Score) (strtod : Bytes → Score)
    (less : Score → Score → Bool) (strcoll : Bytes → Bytes → ℤ) where
  -- `redisSortObject`, with both members of its union
  pub record SortObject : Type 0 where
    pub obj : Bytes
    pub score : Score
    pub cmpobj : Option Bytes

  abbrev pub negated : ℤ → ℤ
  negated z = pos (neg_part z) -ℤ pos (pos_part z)

  unfoldable pub compare_objects : Option Bytes → Option Bytes → ℤ
  compare_objects none none = pos 0
  compare_objects none (some b) = negsuc 0
  compare_objects (some a) none = pos 1
  compare_objects (some a) (some b) = strcoll a b

  -- `sortCompare`, on what `sortCommand` stores in `server`
  unfoldable pub sort_compare : Bool → Bool → Bool → SortObject → SortObject → ℤ
  sort_compare desc alpha bypattern a b =
      let numeric =
        if less b.score a.score then pos 1 else if less a.score b.score then negsuc 0 else pos 0 in
      let textual = if bypattern then compare_objects a.cmpobj b.cmpobj else strcoll a.obj b.obj in
      let cmp = if alpha then textual else numeric in if desc then negated cmp else cmp

  abbrev plain : Bytes → SortObject
  plain x = record { obj = x; score = zero_score; cmpobj = none }

  -- The weight of an element under BY.
  unfoldable pub weighed : Bool → Option Obj → Bytes → SortObject
  weighed alpha (some (string s)) x =
      if alpha
      then record { obj = x; score = zero_score; cmpobj = some s }
      else record { obj = x; score = strtod s; cmpobj = none }
  weighed alpha (some (list xs)) x = plain x
  weighed alpha (some (set_obj d)) x = plain x
  weighed alpha none x = plain x

  -- The vector, with its scores.
  unfoldable pub sort_object : State → Bool → Option Bytes → Bytes → SortObject
  sort_object st alpha (some pattern) x = weighed alpha (lookup_key_by_pattern st pattern x) x
  sort_object st alpha none x =
      if alpha then plain x else record { obj = x; score = strtod x; cmpobj = none }

  unfoldable pub sort_vector : State → SortOptions → List Bytes → List SortObject
  sort_vector st o [] = []
  sort_vector st o (x ∷ xs) =
      (if o.dontsort then plain x else sort_object st o.alpha o.sortby x) ∷ sort_vector st o xs

  -- `vector[j]`
  unfoldable pub vector_at : List SortObject → ℕ → Option SortObject
  vector_at [] j = none
  vector_at (x ∷ xs) zero = some x
  vector_at (x ∷ xs) (suc j) = vector_at xs j

  -- The output loop, of as many rounds as `start` to `end` gives.
  unfoldable pub output_loop : SortOptions → List SortObject → ℕ → ℕ → State → Option State
  output_loop o v zero j st = some st
  output_loop o v (suc rounds) j st = vector_at v j >>= λ x.
      output_loop o v rounds (j + 1)
        (run_operations o.operations x.obj (if o.getop == 0 then bulk x.obj st else st))

  -- The elements of a list or a set, all of them as the `assert` asks.
  unfoldable pub elements_of : Obj → Option (List Bytes)
  elements_of (string s) = none
  elements_of (list xs) = some xs
  elements_of (set_obj d) = visit (d.used + 1) (d.size + 1) d get_iterator >>= λ es.
      if length es == d.used then some (map (λ e. Entry.key e) es) else none

  module _ (qsort : (SortObject → SortObject → ℤ) → List SortObject → List SortObject) where
    unfoldable pub sorted_vector : State → SortOptions → List Bytes → List SortObject
    sorted_vector st o xs =
        let v = sort_vector st o xs in
        if o.dontsort then v else qsort (sort_compare o.desc o.alpha (bypattern o.sortby)) v

    -- The reply: `outputlen`, then the elements of the range.
    unfoldable pub sort_reply : State → SortOptions → List SortObject → Option State
    sort_reply st o v =
        let r = limit_range o.limit_start o.limit_count (length v) in
        let n = pos_part (r.1 -ℤ r.0 +ℤ pos 1) in
        let sent =
          output_loop o v n (pos_part r.0)
            (add_reply (number_line (if o.getop == 0 then n else o.getop * n)) st) in
        if limit_fits (pos_part o.limit_start) o.limit_count then sent else none

    unfoldable pub sort_parsed : State → Obj → Option SortOptions → Option State
    sort_parsed st val none = some (add_reply Shared.syntaxerrbulk st)
    sort_parsed st val (some o) = elements_of val >>= λ xs. sort_reply st o (sorted_vector st o xs)

    unfoldable pub sort_found : List Bytes → State → Option Obj → Option State
    sort_found args st none = some (add_reply Shared.nokeyerrbulk st)
    sort_found args st (some (string s)) = some (add_reply Shared.wrongtypeerrbulk st)
    sort_found args st (some (list xs)) = sort_parsed st (list xs) (sort_options args sort_defaults)
    sort_found args st (some (set_obj d)) =
        sort_parsed st (set_obj d) (sort_options args sort_defaults)

    -- `sortCommand`, on the key and the arguments behind it
    unfoldable pub sort_command : Bytes → List Bytes → State → Option State
    sort_command k args st = sort_found args st (value_of (find hash_dict_type (db st) k))
