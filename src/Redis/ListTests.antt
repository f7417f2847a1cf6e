-- ===== src/Redis/ListTests.antt =====
-- The theorems on the commands on lists and sets at a concrete server.
use homemade.Prelude.{◌+◌, ◌≡◌, refl, some, List, [], ◌∷◌, arith, if◌then◌else◌, ◌>>=◌}
use homemade.Redis.Object.{Bytes, codes, list, set_obj}
use homemade.Prelude.{inl}
use homemade.Prelude.Int.{pos, negsuc}
use homemade.Redis.Decimal.{atoi, read_signed, read_digits, skip_spaces}
use homemade.Redis.Shared
use homemade.Redis.State.{State, Writes}
use homemade.Redis.Lists.{rpush_command, push_found, add_to_list}
use homemade.Redis.ListRanges.{ltrim_command, lrange_command}
use homemade.Redis.ListLaws.{multi_bulk, ltrim_command-Writes, lrange_command-window}
use homemade.Redis.Sets.{sadd_command}
use homemade.Redis.Members.{Members, has, IsWith}
use homemade.Redis.SetLaws.{sadd_command-IsWith}
use homemade.Redis.Samples.{members, server, members-IsValid, server-IsOpen, holds_l, holds_e, ran}

abbrev abc : List Bytes
abc = codes "a" ∷ codes "b" ∷ codes "c" ∷ []

one : atoi (codes "1") ≡ pos 1
unfolding atoi read_signed read_digits skip_spaces
one = refl

minus_one : atoi (codes "-1") ≡ negsuc 0
unfolding atoi read_signed read_digits skip_spaces
minus_one = refl

nought : atoi (codes "0") ≡ pos 0
unfolding atoi read_signed read_digits skip_spaces
nought = refl

minus_two : atoi (codes "-2") ≡ negsuc 1
unfolding atoi read_signed read_digits skip_spaces
minus_two = refl

ltrim_command-Writes_example :
    (t : State) × (ltrim_command (codes "l") (codes "1") (codes "-1") server ≡ some t)
    × Writes server t (codes "l") (some (list (codes "b" ∷ codes "c" ∷ [])))
    × (t.dirty ≡ 1)
    × (t.reply ≡ Shared.ok ∷ [])
ltrim_command-Writes_example =
    ltrim_command-Writes (codes "l") (codes "1") (codes "-1") 1 2 abc server server-IsOpen holds_l
      (rw one refl) (rw minus_one (inl refl))

lrange_command-window_example :
    lrange_command (codes "l") (codes "0") (codes "-2") server
    ≡ some (record server { reply = multi_bulk (codes "a" ∷ codes "b" ∷ []) })
lrange_command-window_example =
    lrange_command-window (codes "l") (codes "0") (codes "-2") 0 1 abc server holds_l
      (rw nought refl) (rw minus_two (inl refl))

abbrev after_push : State
after_push = ran (rpush_command (codes "l") (codes "d") server)

push_runs : rpush_command (codes "l") (codes "d") server ≡ some after_push
unfolding rpush_command push_found add_to_list
push_runs = rw (holds_l, ◌>>=◌) refl

sadd_command-IsWith_example :
    (t : State) × (d' : Members) × (sadd_command (codes "e") (codes "y") server ≡ some t)
    × IsWith members d' (codes "y")
    × Writes server t (codes "e") (some (set_obj d'))
    × (t.dirty ≡ 0 + (if has members (codes "y") then 0 else 1))
    × (t.reply ≡ (if has members (codes "y") then Shared.zero else Shared.one) ∷ [])
sadd_command-IsWith_example =
    sadd_command-IsWith (codes "e") (codes "y") members server server-IsOpen holds_e members-IsValid
      (omega arith)

abbrev after_add : State
after_add = ran (sadd_command (codes "e") (codes "y") server)

add_runs : sadd_command (codes "e") (codes "y") server ≡ some after_add
add_runs =
    let (t, d', run, _, _, _, _) =
      sadd_command-IsWith (codes "e") (codes "y") members server server-IsOpen holds_e
        members-IsValid (omega arith) in
    rw run refl
