-- ===== src/Redis/StartLaws.antt =====
-- The clients of a server that redis/src/redis.c started.
use homemade.Prelude.{ℕ, ◌≡◌, refl, Bool, true, false, Option, none, some, List, [], arith, ◌==◌}
use homemade.Ae.Events.{create_event_loop, create_file_event, create_time_event}
use homemade.Redis.Object.{Bytes}
use homemade.Redis.State.{Db}
use homemade.Redis.Config.{Config}
use homemade.Redis.Clients.{Clients, find_client}
use homemade.Redis.ClientEvents.{IsServed}
use homemade.Redis.ClientLaws.{Reach, Reach-IsServed}
use homemade.Redis.Rdb.Load.{Outcome as Loading, load_db}
use homemade.Redis.Start.{
  Server, new_server, opened_server, init_server, with_dump, load_dump, accepting, ready,
  main_start,
}
use homemade.Net.System.{pure}
use homemade.Prelude.Int.{pos_part}
use homemade.Net.Always.{Always, Always-bind, Always-some, Always-then}
use homemade.Net.Sockets.{Sockets, returned, anet_tcp_server}

-- A server that listens to nobody yet.
abbrev IsQuiet : Server → Type 0
IsQuiet s = (s.clients.clients ≡ []) × (s.clients.loop.file_events ≡ [])

abbrev Quiet : Option Server → Type 0
Quiet none = Unit {0}
Quiet (some s) = IsQuiet s

abbrev Served : Option Server → Type 0
Served none = Unit {0}
Served (some s) = IsServed s.listening s.clients

with_dump-Quiet : (s : Server) (r : Loading (Option (List Db))) → IsQuiet s → Quiet (with_dump s r)
unfolding with_dump
with_dump-Quiet s Loading.null q = tt
with_dump-Quiet s Loading.abort q = tt
with_dump-Quiet s (Loading.done none rest) q = q
with_dump-Quiet s (Loading.done (some dicts) rest) q = q

load_dump-Quiet :
    (s : Server) (content : Option (ℕ × Bytes)) → IsQuiet s → Quiet (load_dump s content)
unfolding load_dump
load_dump-Quiet s none q = q
load_dump-Quiet s (some (stream, content)) q = with_dump-Quiet s (load_db stream s.dicts content) q

accepting-Served : (s : Option Server) → Quiet s → Served (accepting s)
unfolding accepting create_file_event find_client
accepting-Served none q = tt
accepting-Served (some s) q =
    rw (q.0, q.1)
      (record {
        distinct = tt;
        apart = refl;
        readers = λ fd ne. ground (arith, ne);
        writers = λ fd ne. ground (arith, ne);
      })

ready-Served :
    (s : Option Server) (content : Option (ℕ × Bytes)) → Quiet s → Served (ready s content)
unfolding ready
ready-Served none content q = tt
ready-Served (some s) content q =
    accepting-Served (load_dump s content) (load_dump-Quiet s content q)

module _ {World : Type 0} (net : Sockets World) (time : World → ℕ × World)
    (gettimeofday : World → (ℕ × ℕ) × World) (cf : Config) (content : Option (ℕ × Bytes)) where
  opened_server-Quiet :
      (b : Bool) (fd : ℕ) (w : World) → Always Quiet (opened_server net time gettimeofday cf b fd w)
  unfolding opened_server new_server create_event_loop create_time_event
  opened_server-Quiet true fd w = tt
  opened_server-Quiet false fd w = (refl, refl)

  init_server-Quiet : (w : World) → Always Quiet (init_server net time gettimeofday cf w)
  unfolding init_server
  init_server-Quiet w =
      Always-bind Quiet (anet_tcp_server net (pos_part cf.port) cf.bindaddr)
        (λ r. opened_server net time gettimeofday cf (returned r == 1) (returned r)) w
        (λ r v. opened_server-Quiet (returned r == 1) (returned r) v)

  -- From the start of the server on, in every state that it reaches by accepting connections on descriptors
  -- that no client has, by queueing replies and by freeing clients: each client has one event that reads
  -- and, as long as it has replies, one that writes, a client without replies has none that writes, and a
  -- descriptor without a client has no event, except the one that listens.
  pub main_start-IsServed :
      (w w' : World) (s : Server) (t : Clients)
      → main_start net time gettimeofday cf content w ≡ some (some s, w')
      → Reach s.listening s.clients t
      → IsServed s.listening t
  unfolding main_start
  main_start-IsServed w w' s t run r =
      let served : Served (some s) =
        Always-some Served (main_start net time gettimeofday cf content w) (some s) w'
          (Always-then Quiet Served (init_server net time gettimeofday cf)
            (λ a. pure (ready a content)) w (init_server-Quiet w)
            (λ a v q. ready-Served a content q))
          run in
      Reach-IsServed s.listening s.clients t r served
