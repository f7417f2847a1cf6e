-- ===== src/Redis/Start.antt =====
-- The start of the server in redis/src/redis.c: `initServer` and `main` up to the loop of events, and INFO,
-- which tells about it. Signals, the log and `daemonize` are not modelled; `main` starts with the
-- configuration that `start_config` gives.
use homemade.Prelude.{
  ℕ, ◌-◌, ◌/◌, Bool, true, false, Option, none, some, List, [], ◌∷◌, ◌++◌, length, replicate,
  if◌then◌else◌, ◌==◌, leb,
}
use homemade.Prelude.Int.{ℤ, pos, pos_part, sub_ℕ}
use homemade.Dict.Table.{create}
use homemade.Ae.Events.{EventLoop, create_event_loop, create_file_event, create_time_event}
use homemade.Redis.Object.{Bytes, codes}
use homemade.Redis.Decimal.{print_ℕ, print_ℤ}
use homemade.Redis.State.{Db}
use homemade.Redis.Config.{Config}
use homemade.Redis.Strings.{number_line}
use homemade.Redis.Clients.{Clients, watch}
use homemade.Redis.Rdb.Load.{Outcome as Loading, load_db}
use homemade.Net.System.{M, ◌>>=◌, pure, call}
use homemade.Net.Sockets.{Sockets, returned, anet_tcp_server}

-- What `initServer` sets of `struct redisServer`.
pub record Server : Type 0 where
  pub dicts : List Db
  pub clients : Clients
  pub listening : ℕ
  pub dirty : ℕ
  pub lastsave : ℕ
  pub cronloops : ℕ
  pub usedmemory : ℕ
  pub bgsaveinprogress : Bool
  pub stat_numcommands : ℕ
  pub stat_starttime : ℕ

-- The callbacks that `serverCron` and `acceptHandler` are.
abbrev pub server_cron_proc : ℕ
server_cron_proc = 3

abbrev pub accept_proc : ℕ
accept_proc = 4

-- The event loop with the timer of the cron, at a time of seconds and milliseconds.
abbrev pub with_cron : ℕ × ℕ → EventLoop → EventLoop
with_cron now el = (create_time_event el now 1000 server_cron_proc 0).0

unfoldable pub new_server : Config → ℕ → ℕ → ℕ → ℕ × ℕ → Server
unfolding create_event_loop create_time_event
new_server cf listening lastsave starttime now = record {
  dicts = replicate (pos_part cf.dbnum) create;
  clients = record {
    loop = with_cron now create_event_loop;
    clients = [];
    slaves = [];
    master = none;
    replstate = cf.replstate;
    stat_numconnections = 0;
  };
  listening = listening;
  dirty = 0;
  lastsave = lastsave;
  cronloops = 0;
  usedmemory = 0;
  bgsaveinprogress = false;
  stat_numcommands = 0;
  stat_starttime = starttime;
}

-- The databases of the dump, where there is one; a dump that is cut off ends the process.
unfoldable pub with_dump : Server → Loading (Option (List Db)) → Option Server
with_dump s Loading.null = none
with_dump s Loading.abort = none
with_dump s (Loading.done none rest) = some s
with_dump s (Loading.done (some dicts) rest) = some (record s { dicts = dicts })

unfoldable pub load_dump : Server → Option (ℕ × Bytes) → Option Server
unfolding with_dump
load_dump s none = some s
load_dump s (some (stream, content)) = with_dump s (load_db stream s.dicts content)

abbrev pub listens : Server → Server
listens s = record s {
  clients = record s.clients { loop = watch s.listening 1 accept_proc s.clients.loop };
}

unfoldable pub accepting : Option Server → Option Server
unfolding create_file_event
accepting none = none
accepting (some s) = some (listens s)

unfoldable pub ready : Option Server → Option (ℕ × Bytes) → Option Server
unfolding accepting load_dump
ready none content = none
ready (some s) content = accepting (load_dump s content)

module _ {World : Type 0} (net : Sockets World) (time : World → ℕ × World)
    (gettimeofday : World → (ℕ × ℕ) × World) where
  -- A descriptor that is 1 is taken for `ANET_ERR`; `none` is the exit
  unfoldable pub opened_server : Config → Bool → ℕ → M World (Option Server)
  unfolding new_server
  opened_server cf true fd = pure none
  opened_server cf false fd = do
    lastsave ← call time
    starttime ← call time
    now ← call gettimeofday
    pure (some (new_server cf fd lastsave starttime now))

  -- `initServer`
  unfoldable pub init_server : Config → M World (Option Server)
  unfolding opened_server
  init_server cf = do
    r ← anet_tcp_server net (pos_part cf.port) cf.bindaddr
    opened_server cf (returned r == 1) (returned r)

  -- `main` behind the configuration, up to `aeMain`, with the stream and the content of the dump file
  unfoldable pub main_start : Config → Option (ℕ × Bytes) → M World (Option Server)
  unfolding init_server ready
  main_start cf content = do s ← init_server cf; pure (ready s content)

abbrev info_line : Bytes → Bytes → Bytes
info_line name value = name ++ codes ":" ++ value ++ codes "\r\n"

-- The days between two times in seconds, cut off towards 0.
abbrev days_since : ℕ → ℕ → ℤ
days_since now start =
    if leb start now then pos ((now - start) / 86400) else sub_ℕ 0 ((start - now) / 86400)

-- `infoCommand`: the text, for the time in seconds
unfoldable pub info_text : ℕ → Server → Bytes
info_text now s =
    info_line (codes "redis_version") (codes "0.07")
    ++ info_line (codes "connected_clients")
        (print_ℤ (sub_ℕ (length s.clients.clients) (length s.clients.slaves)))
    ++ info_line (codes "connected_slaves") (print_ℕ (length s.clients.slaves))
    ++ info_line (codes "used_memory") (print_ℕ s.usedmemory)
    ++ info_line (codes "changes_since_last_save") (print_ℕ s.dirty)
    ++ info_line (codes "last_save_time") (print_ℕ s.lastsave)
    ++ info_line (codes "total_connections_received") (print_ℕ s.clients.stat_numconnections)
    ++ info_line (codes "total_commands_processed") (print_ℕ s.stat_numcommands)
    ++ info_line (codes "uptime_in_seconds") (print_ℤ (sub_ℕ now s.stat_starttime))
    ++ info_line (codes "uptime_in_days") (print_ℤ (days_since now s.stat_starttime))

-- The strings that `infoCommand` queues.
unfoldable pub info_command : ℕ → Server → List Bytes
unfolding info_text
info_command now s = number_line (length (info_text now s)) ∷ info_text now s ∷ []
