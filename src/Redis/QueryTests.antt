-- ===== src/Redis/QueryTests.antt =====
-- The theorems on patterns, KEYS, intersections, the configuration and the cron at concrete inputs.
use homemade.Prelude.{
  ◌<◌, ℕ, ◌≡◌, refl, Bool, true, false, Option, none, some, List, [], ◌∷◌, ◌++◌, arith, length,
}
use homemade.Prelude.Int.{ℤ, pos}
use mathlib.Core.List.{flatten, Permᴰ}
use homemade.Dict.Types.{Entry}
use homemade.Redis.Object.{Bytes, Obj, codes, set_obj, sds_dict_key_compare, memcmp_eq}
use homemade.Redis.Shared
use homemade.Redis.Strings.{number_line, bulks}
use homemade.Redis.State.{State, Db, db, Writes}
use homemade.Redis.Members.{Members, has}
use homemade.Redis.Keyspace.{remove, remove_absent}
use homemade.Redis.Glob.{
  answer, stringmatchlen, at_end, star, skip_stars, any_byte, class, class_end, bracket, escape,
  literal, next_round, try_suffixes, end_stars,
}
use homemade.Redis.Glob.Plain.{ended, stringmatchlen-matches}
use homemade.Redis.KeyQueries.{keys_command, matching, joined, keys_command-matching}
use homemade.Redis.Inter.{sinter_command, sinterstore_command, among}
use homemade.Redis.InterLaws.{IsIntersection, sinter_command-IsIntersection}
use homemade.Redis.InterStore.{sinterstore_command-IsIntersection}
use homemade.Redis.Config.{
  loaded, start_config, repl_none, load_server_config, load_lines, with_line, trimmed, load_rest,
  config_line, directive, directive_one, directive_two, set_port, init_server_config,
  append_server_save_params, reset_server_save_params,
}
use homemade.Redis.SortSyntax.{
  SortOptions, sort_options, sort_defaults, word_option, argument_option, c_string,
}
use homemade.Redis.Sort.{SortObject}
use homemade.Redis.SortLaws.{Vector}
use homemade.Redis.Decimal.{atoi, read_signed, read_digits, skip_spaces}
use homemade.Sds.Ops.{sds_newlen, sds_trim, strlen, count_front, count_back, in_set, terminate}
use homemade.Sds.Split.{sds_splitlen, split_loop, starts_with}
use homemade.Redis.ConfigLaws.{IsSoundStart, start_config-IsSound}
use homemade.Redis.Cron.{Cron, Surroundings, server_cron}
use homemade.Redis.CronLaws.{AllSame, IsSaving, server_cron-IsSaving}
use homemade.Redis.Samples.{
  members, objects, server, members-IsValid, objects-IsValid, server-IsOpen, holds_e, missing_m,
}

program : Unit {0}
unfolding start_config load_server_config load_lines with_line trimmed load_rest config_line
    directive directive_one directive_two set_port init_server_config append_server_save_params
    reset_server_save_params memcmp_eq atoi read_signed read_digits skip_spaces sds_newlen sds_trim
    sort_options sort_defaults word_option argument_option c_string strlen count_front count_back
    in_set terminate sds_splitlen split_loop starts_with
program = tt

-- `[a-c]?` of "bx"
class_run : stringmatchlen 9 false (codes "[a-c]?" ++ 0 ∷ []) (codes "bx" ++ 0 ∷ []) ≡ answer true
unfolding stringmatchlen at_end star skip_stars any_byte class class_end bracket escape literal
    next_round try_suffixes end_stars
class_run = refl

stringmatchlen-matches_example :
    stringmatchlen 6 false (ended (codes "u*?er")) (ended (codes "user")) ≡ answer true
stringmatchlen-matches_example =
    stringmatchlen-matches 6 (codes "u*?er") (codes "user")
      (
        omega arith,
        omega arith,
        (
          omega arith,
          omega arith,
          (omega arith, omega arith, (omega arith, omega arith, (omega arith, omega arith, tt))),
        ),
      )
      (omega arith)

keys_command-matching_example :
    (es : List (Entry Bytes Obj)) × (flatten objects.table ≡ es ++ [])
    × (keys_command (codes "*") server
        ≡ some (record server {
          reply =
              number_line (length (flatten (joined (matching (codes "*") es)))) ∷ []
              ++ joined (matching (codes "*") es)
              ++ Shared.crlf ∷ [];
        }))
keys_command-matching_example =
    keys_command-matching (codes "*") server server-IsOpen (omega arith)
      (omega arith, omega arith, tt)

-- One set, which any order leaves as it is.
abbrev as_is : List Members → List Members
as_is ds = ds

sinter_command-IsIntersection_example :
    (xs : List Bytes) × (sinter_command as_is (codes "e" ∷ codes "e" ∷ []) server
      ≡ some (record server { reply = number_line (length xs) ∷ [] ++ bulks xs }))
    × IsIntersection (members ∷ members ∷ []) members xs
sinter_command-IsIntersection_example =
    sinter_command-IsIntersection as_is server (codes "e" ∷ codes "e" ∷ []) (members ∷ members ∷ [])
      members (members ∷ []) (holds_e, (holds_e, tt)) (Permᴰ.cons refl (Permᴰ.cons refl Permᴰ.nil))
      refl members-IsValid (omega arith)

room_m : (db (remove (codes "m") server).0).used < 134217728
room_m = rw (remove_absent (codes "m") server server-IsOpen missing_m) (omega arith)

apart_m : among (codes "m") (codes "e" ∷ codes "e" ∷ []) ≡ false
unfolding sds_dict_key_compare memcmp_eq
apart_m = refl

sinterstore_command-IsIntersection_example :
    (t : State) × (m : Members) × (xs : List Bytes) × (sinterstore_command as_is
        (codes "m")
        (codes "e" ∷ codes "e" ∷ [])
        server
      ≡ some t)
    × Writes server t (codes "m") (some (set_obj m))
    × ((x : Bytes) → has m x ≡ among x xs)
    × IsIntersection (members ∷ members ∷ []) members xs
    × (t.dirty ≡ 0)
    × (t.reply ≡ Shared.ok ∷ [])
sinterstore_command-IsIntersection_example =
    sinterstore_command-IsIntersection as_is server (codes "m") (codes "e" ∷ codes "e" ∷ [])
      (members ∷ members ∷ []) members (members ∷ []) (holds_e, (holds_e, tt)) apart_m
      (Permᴰ.cons refl (Permᴰ.cons refl Permᴰ.nil)) refl members-IsValid (omega arith) server-IsOpen
      room_m

-- A file of two lines, where the file system takes every name.
abbrev any_name : Bytes → Bool
any_name name = true

abbrev file : Option (Option (List Bytes))
file = some (some (codes "# a comment\n" ∷ codes "port 7000\r\n" ∷ []))

port_run :
    start_config any_name any_name file
    ≡ loaded (record init_server_config { port = pos 7000; saveparams = [] })
unfolding program
port_run = refl

start_config-IsSound_example : IsSoundStart (start_config any_name any_name file)
start_config-IsSound_example = start_config-IsSound any_name any_name file

-- An ordinary client, idle for longer than any timeout, and a save that is due.
abbrev cron : Cron
cron = record {
  dicts = objects ∷ [];
  clients = record { id = 1; slave = false; master = false; lastinteraction = 0 } ∷ [];
  slaves = [];
  master = none;
  replstate = repl_none;
  dirty = 1;
  lastsave = 0;
  bgsaveinprogress = false;
  cronloops = 0;
  usedmemory = 0;
}

abbrev surroundings : Surroundings
surroundings = record { used_memory = 5; now = 5000; ended = none; sync = λ s. s }

server_cron-IsSaving_example :
    (ds : List Db) × (t : Cron) × (server_cron surroundings
        (pos 300)
        (record { seconds = pos 60; changes = pos 1 } ∷ [])
        cron
      ≡ some t)
    × AllSame (objects ∷ []) ds
    × IsSaving surroundings
        (record { seconds = pos 60; changes = pos 1 } ∷ [])
        (record cron { dicts = ds })
        t
server_cron-IsSaving_example =
    server_cron-IsSaving surroundings (pos 300) (record { seconds = pos 60; changes = pos 1 } ∷ [])
      cron (objects-IsValid, tt) (refl, tt) refl

limit_one : SortOptions
limit_one = record sort_defaults { limit_start = pos 1; limit_count = pos 1 }

abbrev limit_args : List Bytes
limit_args = codes "limit" ∷ codes "1" ∷ codes "1" ∷ []

-- Weights that are all the same, and an order that is kept.
abbrev weight : Bytes → ℕ
weight s = 0

abbrev lighter : ℕ → ℕ → Bool
lighter a b = false

abbrev collate : Bytes → Bytes → ℤ
collate a b = pos 0

abbrev kept :
    (SortObject 0 weight lighter collate → SortObject 0 weight lighter collate → ℤ)
    → Vector 0 weight lighter collate
    → Vector 0 weight lighter collate
kept f v = v
