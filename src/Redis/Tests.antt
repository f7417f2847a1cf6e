-- ===== src/Redis/Tests.antt =====
-- The theorems on the commands on strings and keys at a concrete server.
use homemade.Prelude.{◌≡◌, ◌≢◌, refl, none, some, [], ◌∷◌, arith, ◌⊎◌}
use homemade.Prelude.Int.{pos, negsuc, ◌-ℤ◌}
use homemade.Redis.Object.{codes, string, list}
use homemade.Redis.Decimal.{atoi}
use homemade.Redis.Shared
use homemade.Redis.State.{State, holds, Writes, Keeps}
use homemade.Redis.Strings.{
  set_command, get_command, incr_command, decr_command, incrby_command, decrby_command, number_line,
}
use homemade.Redis.StringLaws.{
  set_command-Writes, get_command-set_command, Counts, incr_commands-Count,
}
use homemade.Redis.Keys.{del_command, rename_command}
use homemade.Redis.KeyLaws.{del_command-Writes, IsRenamed, rename_command-IsRenamed}
use homemade.Redis.Samples.{server, server-IsOpen, server-IsReady, holds_s, holds_l, ran}

set_command-Writes_example :
    (t : State) × (set_command (codes "l") (codes "v") server ≡ some t)
    × Writes server t (codes "l") (some (string (codes "v")))
    × (t.dirty ≡ 1)
    × (t.reply ≡ Shared.ok ∷ [])
set_command-Writes_example = set_command-Writes (codes "l") (codes "v") server server-IsReady

abbrev after_set : State
after_set = ran (set_command (codes "m") (codes "v") server)

set_runs : set_command (codes "m") (codes "v") server ≡ some after_set
set_runs =
    let (t, run, _, _, _) = set_command-Writes (codes "m") (codes "v") server server-IsReady in
    rw run refl

get_command-set_command_example :
    (get_command (codes "m") after_set).reply
    ≡ Shared.ok ∷ number_line 1 ∷ codes "v" ∷ Shared.crlf ∷ []
get_command-set_command_example =
    get_command-set_command (codes "m") (codes "v") server after_set server-IsReady set_runs

incr_commands-Count_example :
    Counts server (codes "s") (negsuc 6) (pos 1) (incr_command (codes "s") server)
    × Counts server (codes "s") (negsuc 6) (negsuc 0) (decr_command (codes "s") server)
    × Counts server
        (codes "s")
        (negsuc 6)
        (atoi (codes "10"))
        (incrby_command (codes "s") (codes "10") server)
    × Counts server
        (codes "s")
        (negsuc 6)
        (pos 0 -ℤ atoi (codes "10"))
        (decrby_command (codes "s") (codes "10") server)
incr_commands-Count_example =
    incr_commands-Count (codes "s") (codes "10") (negsuc 6) server server-IsReady holds_s
      (omega arith, omega arith)

del_command-Writes_example :
    (holds server (codes "s") ≢ none)
      × Writes server (del_command (codes "s") server) (codes "s") none
      × ((del_command (codes "s") server).dirty ≡ 1)
      × ((del_command (codes "s") server).reply ≡ Shared.one ∷ [])
    ⊎ (holds server (codes "s") ≡ none)
      × Keeps server (del_command (codes "s") server)
      × ((del_command (codes "s") server).dirty ≡ 0)
      × ((del_command (codes "s") server).reply ≡ Shared.zero ∷ [])
del_command-Writes_example = del_command-Writes (codes "s") server server-IsOpen

-- RENAME of a key to itself loses it.
rename_command-IsRenamed_example :
    (t : State) × (rename_command (codes "l") (codes "l") server ≡ some t)
    × IsRenamed server t (codes "l") (codes "l") (list (codes "a" ∷ codes "b" ∷ codes "c" ∷ []))
rename_command-IsRenamed_example =
    rename_command-IsRenamed (codes "l") (codes "l") (list (codes "a" ∷ codes "b" ∷ codes "c" ∷ []))
      server server-IsReady holds_l
