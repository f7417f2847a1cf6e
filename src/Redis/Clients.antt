-- ===== src/Redis/Clients.antt =====
-- The clients of redis/src/redis.c: `createClient`, `freeClient`, `addReply`, `acceptHandler`,
-- `readQueryFromClient` and `processCommand`. A client is known by its descriptor. `lookupCommand` and
-- `resetClient`, which the file calls and does not define, are parameters. `none` is a fault, a failed
-- `assert`, or a search that does not end.
use homemade.Prelude.{
  ℕ, Bool, true, false, Option, none, some, List, [], ◌∷◌, ◌++◌, if◌then◌else◌, ◌==◌,
}
use homemade.Prelude.Int.{ℤ, negsuc}
use homemade.Ae.Events.{EventLoop, create_file_event, delete_file_event}
use homemade.Redis.Object.{Bytes}
use homemade.Redis.Config.{ReplState, repl_connect}

-- `redisClient`; its flags are three fields, and `selected` is `dictid`
pub record RedisClient : Type 0 where
  pub fd : ℕ
  pub selected : ℕ
  pub querybuf : Bytes
  pub argv : List Bytes
  pub bulklen : ℤ
  pub replies : List Bytes
  pub sentlen : ℕ
  pub lastinteraction : ℕ
  pub is_close : Bool
  pub is_slave : Bool
  pub is_master : Bool
  pub slaveseldb : ℕ

-- What the functions on clients read and write of `struct redisServer`.
pub record Clients : Type 0 where
  pub loop : EventLoop
  pub clients : List RedisClient
  pub slaves : List ℕ
  pub master : Option ℕ
  pub replstate : ReplState
  pub stat_numconnections : ℕ

-- The callbacks that the events have: `readQueryFromClient` and `sendReplyToClient`.
abbrev pub read_query : ℕ
read_query = 1

abbrev pub send_reply : ℕ
send_reply = 2

-- `aeCreateFileEvent` for a descriptor, by `AE_READABLE` 1 or `AE_WRITABLE` 2
abbrev pub watch : ℕ → ℕ → ℕ → EventLoop → EventLoop
watch fd mask proc el =
    create_file_event el
      (record { fd = fd; mask = mask; file_proc = proc; finalizer = false; client_data = fd })

unfoldable pub new_client : ℕ → ℕ → RedisClient
new_client fd now = record {
  fd = fd;
  selected = 0;
  querybuf = [];
  argv = [];
  bulklen = negsuc 0;
  replies = [];
  sentlen = 0;
  lastinteraction = now;
  is_close = false;
  is_slave = false;
  is_master = false;
  slaveseldb = 0;
}

-- `createClient` behind its calls of anet: the event, and the client at the end of the list
unfoldable pub create_client : ℕ → ℕ → Clients → Clients
unfolding new_client create_file_event
create_client fd now s = record s {
  loop = watch fd 1 read_query s.loop;
  clients = s.clients ++ new_client fd now ∷ [];
}

unfoldable pub find_client : ℕ → List RedisClient → Option RedisClient
find_client fd [] = none
find_client fd (c ∷ cs) = if c.fd == fd then some c else find_client fd cs

-- The list with another state of a client.
unfoldable pub update_client : RedisClient → List RedisClient → List RedisClient
update_client c [] = []
update_client c (d ∷ ds) = if d.fd == c.fd then c ∷ ds else d ∷ update_client c ds

-- The event for the first string that is queued.
abbrev pub watch_first : List Bytes → ℕ → EventLoop → EventLoop
watch_first [] fd el = watch fd 2 send_reply el
watch_first (r ∷ rs) fd el = el

-- `addReply`
unfoldable pub add_client_reply : Bytes → RedisClient → Clients → Clients
unfolding update_client create_file_event
add_client_reply r c s = record s {
  loop = watch_first c.replies c.fd s.loop;
  clients = update_client (record c { replies = c.replies ++ r ∷ [] }) s.clients;
}

-- `listSearchKey`, `assert` and `listDelNode`: the search ends at the first node or not at all
unfoldable pub drop_first : ℕ → List RedisClient → Option (List RedisClient)
drop_first fd [] = none
drop_first fd (c ∷ cs) = if c.fd == fd then some cs else none

unfoldable pub drop_slave : Bool → ℕ → List ℕ → Option (List ℕ)
drop_slave false fd slaves = some slaves
drop_slave true fd [] = none
drop_slave true fd (x ∷ slaves) = if x == fd then some slaves else none

abbrev pub drop_events : ℕ → EventLoop → EventLoop
drop_events fd el = (delete_file_event (delete_file_event el fd 1).0 fd 2).0

unfoldable pub drop_master : Bool → Clients → Clients
drop_master false s = s
drop_master true s = record s { master = none; replstate = repl_connect }

-- `freeClient`; the list of replies is not released
unfoldable pub free_client : RedisClient → Clients → Option Clients
unfolding drop_first drop_slave drop_master delete_file_event
free_client c s = elim (drop_first c.fd s.clients) [
  | none ↦ none
  | some cs ↦ elim (drop_slave c.is_slave c.fd s.slaves) [
    | none ↦ none
    | some slaves ↦ some (
        drop_master c.is_master
          (record s { loop = drop_events c.fd s.loop; clients = cs; slaves = slaves }))
  ]
]
