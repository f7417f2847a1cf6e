-- ===== src/Redis/Cron.antt =====
-- `serverCron` of redis/src/redis.c and what it calls. `none` is a failed `assert`, a search that does not
-- end, or a fault of a hash table.
use homemade.Prelude.{
  ℕ, ◌+◌, ◌*◌, ◌/◌, ◌%◌, Bool, true, false, ◌&&◌, Option, none, some, List, [], ◌∷◌, if◌then◌else◌,
  ◌>>=◌, ltb, ◌==◌, not,
}
use homemade.Prelude.Int.{ℤ, pos, ltb_ℤ, ◌-ℤ◌}
use homemade.Dict.Table.{resize}
use homemade.Redis.Object.{hash_dict_type}
use homemade.Redis.State.{Db}
use homemade.Redis.Config.{SaveParam, ReplState, repl_none, repl_connect, repl_connected}

-- `redisClient`, as far as the cron reads it; `id` stands for its address
pub record Client : Type 0 where
  pub id : ℕ
  pub slave : Bool
  pub master : Bool
  pub lastinteraction : ℕ

pub record Cron : Type 0 where
  pub dicts : List Db
  pub clients : List Client
  pub slaves : List Client
  pub master : Option ℕ
  pub replstate : ReplState
  pub dirty : ℕ
  pub lastsave : ℕ
  pub bgsaveinprogress : Bool
  pub cronloops : ℕ
  pub usedmemory : ℕ

-- One round of `redisDbResize`; `used * 100` fits an `int`
unfoldable pub resize_sparse : Db → Option Db
resize_sparse d =
    let resized = resize hash_dict_type d >>= λ r. some r.0 in
    if ltb 0 d.size && ltb 0 d.used && ltb 16384 d.size && ltb (d.used * 100 / d.size) 10
    then resized
    else some d

-- `redisDbResize`
unfoldable pub redis_db_resize : List Db → Option (List Db)
redis_db_resize [] = some []
redis_db_resize (d ∷ ds) = resize_sparse d >>= λ d'. redis_db_resize ds >>= λ ds'. some (d' ∷ ds')

-- `listSearchKey`, `assert` and `listDelNode` on a list of clients: the search ends at the first node or
-- not at all.
unfoldable pub drop_client : ℕ → List Client → Option (List Client)
drop_client id [] = none
drop_client id (c ∷ cs) = if c.id == id then some cs else none

unfoldable pub drop_slave : Client → Cron → Option Cron
unfolding drop_client
drop_slave c s =
    let dropped = drop_client c.id s.slaves >>= λ cs. some (record s { slaves = cs }) in
    if c.slave then dropped else some s

unfoldable pub drop_master : Client → Cron → Cron
drop_master c s = if c.master then record s { master = none; replstate = repl_connect } else s

-- `freeClient`, as far as the cron sees it
unfoldable pub free_client : Client → Cron → Option Cron
unfolding drop_client drop_slave drop_master
free_client c s = drop_client c.id s.clients >>= λ cs.
    drop_slave c (record s { clients = cs }) >>= λ t. some (drop_master c t)

-- The loop of `closeTimeoutClients` over the nodes of `server.clients`; the iterator holds the next node,
-- so freeing a client leaves it the rest.
unfoldable pub close_timeout_loop : ℕ → ℤ → List Client → Cron → Option Cron
unfolding free_client
close_timeout_loop now maxidletime [] s = some s
close_timeout_loop now maxidletime (c ∷ cs) s =
    let idle = ltb_ℤ maxidletime (pos now -ℤ pos c.lastinteraction) in
    let closed = free_client c s >>= λ t. close_timeout_loop now maxidletime cs t in
    let kept = close_timeout_loop now maxidletime cs s in if c.slave && idle then closed else kept

-- `closeTimeoutClients`
unfoldable pub close_timeout_clients : ℕ → ℤ → Cron → Option Cron
unfolding close_timeout_loop
close_timeout_clients now maxidletime s = close_timeout_loop now maxidletime s.clients s

-- `saveDbBackground` in the parent
unfoldable pub save_db_background : Cron → Cron
save_db_background s = record s { bgsaveinprogress = true }

-- The test of `bgsaveIfNeed` on a save parameter.
abbrev pub save_due : ℕ → ℕ → ℕ → SaveParam → Bool
save_due now dirty lastsave sp =
    not (ltb_ℤ (pos dirty) sp.changes) && ltb_ℤ sp.seconds (pos now -ℤ pos lastsave)

-- `bgsaveIfNeed`
unfoldable pub bgsave_if_need : ℕ → List SaveParam → Cron → Cron
unfolding save_db_background
bgsave_if_need now [] s = s
bgsave_if_need now (sp ∷ sps) s =
    let rest = bgsave_if_need now sps s in
    if save_due now s.dirty s.lastsave sp then save_db_background s else rest

-- `WEXITSTATUS`, which is 0 for a child that a signal killed, too
abbrev pub wexitstatus : ℕ → ℕ
wexitstatus statloc = (statloc / 256) % 256

-- `waitBgsaveFinish`: `none` is a `wait4` that returns 0. Any other result, -1 included, goes on with `statloc`:
-- the status of the child that ended, or after -1 what the variable happens to hold.
unfoldable pub wait_bgsave_finish : ℕ → Option ℕ → Cron → Cron
wait_bgsave_finish now none s = s
wait_bgsave_finish now (some statloc) s =
    if wexitstatus statloc == 0
    then record s { dirty = 0; lastsave = now; bgsaveinprogress = false }
    else record s { bgsaveinprogress = false }

-- What the calls out of the program answer during one run: `zmalloc_used_memory`, `time`, `wait4` (where it
-- does not return 0, the status it leaves) and `syncWithMaster`, which sets the state of replication where it succeeds.
pub record Surroundings : Type 0 where
  pub used_memory : ℕ
  pub now : ℕ
  pub ended : Option ℕ
  pub sync : Cron → Cron

unfoldable pub save_step : Surroundings → List SaveParam → Cron → Cron
unfolding bgsave_if_need wait_bgsave_finish
save_step e sps s =
    if s.bgsaveinprogress then wait_bgsave_finish e.now e.ended s else bgsave_if_need e.now sps s

unfoldable pub sync_step : Surroundings → ReplState → Cron → Cron
sync_step e repl_connect s = e.sync s
sync_step e repl_none s = s
sync_step e repl_connected s = s

-- The part of `serverCron` behind `redisDbResize`; `loops` does not wrap
unfoldable pub after_resize : Surroundings → ℤ → List SaveParam → ℕ → Cron → Option Cron
after_resize e maxidletime sps loops s =
    let closed = close_timeout_clients e.now maxidletime s in
    (if loops % 10 == 0 then closed else some s) >>= λ t.
    some (sync_step e (save_step e sps t).replstate (save_step e sps t))

-- `serverCron`
unfoldable pub server_cron : Surroundings → ℤ → List SaveParam → Cron → Option Cron
server_cron e maxidletime sps s = redis_db_resize s.dicts >>= λ ds.
    after_resize e maxidletime sps s.cronloops
      (record s { dicts = ds; cronloops = s.cronloops + 1; usedmemory = e.used_memory })
