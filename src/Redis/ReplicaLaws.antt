-- ===== src/Redis/ReplicaLaws.antt =====
-- What a slave in redis/src/redis.c has after an attempt to synchronise, and the dump that it stores.
use homemade.Prelude.{
  ℕ, ◌≡◌, refl, sym, ap, ◌∙◌, ◌++◌, [], ◌∷◌, arith, ◌==◌, ==_iff, Bool-cases, Bool, true, false,
  Option, none, some, List, ◌⊎◌, inl, inr,
}
use homemade.Redis.Object.{Bytes, codes}
use homemade.Redis.State.{Db}
use homemade.Redis.Keys.{empty_db}
use homemade.Redis.Config.{repl_connected}
use homemade.Redis.Rdb.Load.{Outcome as Loading, load_db}
use homemade.Redis.Replication.{DumpFiles}
use homemade.Redis.Replica.{
  Slave, MasterSync, sync_ok, sync_err, exits, mark_master, closing, loaded_then, load_then,
  dumped_then, header_then, dump_master_rdb, asked_then, connected_then, sync_with_master,
}
use homemade.Redis.Decimal.{atoi}
use homemade.Redis.Clients.{RedisClient, Clients, find_client, new_client, create_client}
use homemade.Redis.ClientEvents.{find-update}
use homemade.Redis.Queries.{connect_client}
use homemade.Redis.Sync.{sync_read, sync_write}
use homemade.Net.System.{pure, Streams}
use homemade.Net.Always.{Always, Always-bind, Always-some, Always-then}
use homemade.Net.Sockets.{Sockets, returned, anet_tcp_connect, anet_non_block, anet_tcp_no_delay}

-- There is a client on the descriptor.
abbrev Connected : ℕ → Clients → Type 0
Connected fd t = (c : RedisClient) × (find_client fd t.clients ≡ some c)

-- The server has a client as its master, which is flagged so.
pub record HasMaster (t : Clients) : Type 0 where
  pub fd : ℕ
  pub client : RedisClient
  pub replstate : t.replstate ≡ repl_connected
  pub master : t.master ≡ some fd
  pub found : find_client fd t.clients ≡ some client
  pub flagged : client.is_master ≡ true

-- The databases are what loading the dump file, as it is in some world, into empty ones gives.
pub record IsLoaded {World : Type 0} (open_dump : World → Option (ℕ × Bytes))
    (before after : List Db) : Type 0 where
  pub world : World
  pub stream : ℕ
  pub content : Bytes
  pub rest : Bytes
  pub opened : open_dump world ≡ some (stream, content)
  pub loaded : load_db stream (empty_db before) content ≡ Loading.done (some after) rest

-- REDIS_ERR keeps the clients, and the databases or none of their keys; REDIS_OK has a master and a dump.
abbrev pub Synchronised :
    {World : Type 0} → (World → Option (ℕ × Bytes)) → Slave → MasterSync → Type 0
Synchronised open_dump s (sync_err t) =
    (t.server ≡ s.server) × ((t.dicts ≡ s.dicts) ⊎ (t.dicts ≡ empty_db s.dicts))
Synchronised open_dump s (sync_ok t) = HasMaster t.server × IsLoaded open_dump s.dicts t.dicts
Synchronised open_dump s exits = Unit {0}

find_client-fd :
    (fd : ℕ) (cs : List RedisClient) (c : RedisClient) → find_client fd cs ≡ some c → c.fd ≡ fd
unfolding find_client
find_client-fd fd [] c h = cc
find_client-fd fd (d ∷ cs) c h = elim (Bool-cases (d.fd == fd)) [
  | inl here ↦
      let same : d ≡ c = let h' = rw here at h in cc in
      ap (λ x. RedisClient.fd x) (sym same) ∙ (==_iff d.fd fd).0 here
  | inr other ↦ find_client-fd fd cs c (rw other at h)
]

find_client-new :
    (fd now : ℕ) (cs : List RedisClient)
    → (c : RedisClient) × (find_client fd (cs ++ new_client fd now ∷ []) ≡ some c)
unfolding find_client new_client
find_client-new fd now [] =
    let same : (fd == fd) ≡ true = ground arith in (new_client fd now, rw same refl)
find_client-new fd now (d ∷ cs) = elim (Bool-cases (d.fd == fd)) [
  | inl here ↦ (d, rw here refl)
  | inr other ↦ let (c, e) = find_client-new fd now cs in (c, rw other e)
]

mark_master-HasMaster : (fd : ℕ) (t : Clients) → Connected fd t → HasMaster (mark_master fd t)
unfolding mark_master
mark_master-HasMaster fd t (c, there) =
    let same : c.fd ≡ fd = find_client-fd fd t.clients c there in
    let hit : (c.fd == fd) ≡ true = ground (arith, same) in
    let m = record c { is_master = true } in
    record {
      fd = fd;
      client = m;
      replstate = refl;
      master = refl;
      found = rw there (
          find-update fd m c t.clients (ap (λ n. find_client n t.clients) same ∙ there)
          ∙ rw hit refl);
      flagged = refl;
    }

connect_client-Connected :
    {World : Type 0} (net : Sockets World) (time : World → ℕ × World) (fd : ℕ) (s : Clients)
    (w : World)
    → Always (Connected fd) (connect_client net time fd s w)
unfolding connect_client create_client
connect_client-Connected net time fd s w =
    Always-bind (Connected fd) (anet_non_block net fd) _ w (λ a v.
      Always-bind (Connected fd) (anet_tcp_no_delay net fd) _ v
        (λ b u. find_client-new fd (time u).0 s.clients))

module _ {World : Type 0} (io : Streams World) (net : Sockets World) (disk : DumpFiles World)
    (open_dump : World → Option (ℕ × Bytes)) (s : Slave) where
  -- Whatever a run comes to is synchronised.
  abbrev Ensures : Option (MasterSync × World) → Type 0
  Ensures run = Always (Synchronised open_dump s) run

  closing-Ensures :
      (fd : ℕ) (t : Slave) (w : World)
      → Synchronised open_dump s (sync_err t)
      → Ensures (closing io net disk open_dump fd t w)
  unfolding closing
  closing-Ensures fd t w h = h

  loaded_then-Ensures :
      (fd stream : ℕ) (content : Bytes) (r : Loading (Option (List Db))) (w v : World)
      → open_dump v ≡ some (stream, content)
      → load_db stream (empty_db s.dicts) content ≡ r
      → Ensures (loaded_then io net disk open_dump fd (record s { dicts = empty_db s.dicts }) r w)
  unfolding loaded_then closing mark_master
  loaded_then-Ensures fd stream content Loading.null w v opened e = tt
  loaded_then-Ensures fd stream content Loading.abort w v opened e = tt
  loaded_then-Ensures fd stream content (Loading.done none rest) w v opened e = (refl, inr refl)
  loaded_then-Ensures fd stream content (Loading.done (some dicts) rest) w v opened e =
      Always-then (Connected fd) (Synchronised open_dump s) (connect_client net io.time fd s.server)
        (λ t. pure (sync_ok (record { dicts = dicts; server = mark_master fd t }))) w
        (connect_client-Connected net io.time fd s.server w)
        (λ t u there. (
          mark_master-HasMaster fd t there,
          record {
            world = v;
            stream = stream;
            content = content;
            rest = rest;
            opened = opened;
            loaded = e;
          },
        ))

  load_then-Ensures :
      (fd : ℕ) (content : Option (ℕ × Bytes)) (w v : World)
      → open_dump v ≡ content
      → Ensures
          (load_then io net disk open_dump fd (record s { dicts = empty_db s.dicts }) content w)
  unfolding load_then closing
  load_then-Ensures fd none w v opened = (refl, inr refl)
  load_then-Ensures fd (some (stream, content)) w v opened =
      loaded_then-Ensures fd stream content _ w v opened refl

  dumped_then-Ensures :
      (fd : ℕ) (b : Bool) (w : World) → Ensures (dumped_then io net disk open_dump fd s b w)
  unfolding dumped_then closing
  dumped_then-Ensures fd false w = (refl, inl refl)
  dumped_then-Ensures fd true w = load_then-Ensures fd (open_dump w) w w refl

  header_then-Ensures :
      (fuel : ℕ) (b : Bool) (fd : ℕ) (buf : Option Bytes) (w : World)
      → Ensures (header_then io net disk open_dump fuel b fd s buf w)
  unfolding header_then closing
  header_then-Ensures fuel b fd none w = (refl, inl refl)
  header_then-Ensures fuel b fd (some buf) w =
      Always-bind (Synchronised open_dump s) (dump_master_rdb io disk fuel b (atoi buf) fd)
        (dumped_then io net disk open_dump fd s) w (λ dumped v. dumped_then-Ensures fd dumped v)

  asked_then-Ensures :
      (fuel : ℕ) (b : Bool) (fd : ℕ) (asked : Option ℕ) (w : World)
      → Ensures (asked_then io net disk open_dump fuel b fd s asked w)
  unfolding asked_then closing
  asked_then-Ensures fuel b fd none w = (refl, inl refl)
  asked_then-Ensures fuel b fd (some n) w =
      Always-bind (Synchronised open_dump s) (sync_read io fd fuel 1024 5)
        (header_then io net disk open_dump fuel b fd s) w
        (λ buf v. header_then-Ensures fuel b fd buf v)

  connected_then-Ensures :
      (fuel : ℕ) (b : Bool) (fd : ℕ) (w : World)
      → Ensures (connected_then io net disk open_dump fuel b s fd w)
  unfolding connected_then
  connected_then-Ensures fuel b fd w =
      Always-bind (Synchronised open_dump s) (sync_write io fd (codes "SYNC \r\n") 5)
        (asked_then io net disk open_dump fuel b fd s) w
        (λ asked v. asked_then-Ensures fuel b fd asked v)

  sync_with_master-Ensures :
      (fuel : ℕ) (b : Bool) (host : Bytes) (port : ℕ) (w : World)
      → Ensures (sync_with_master io net disk open_dump fuel b host port s w)
  unfolding sync_with_master
  sync_with_master-Ensures fuel b host port w =
      Always-bind (Synchronised open_dump s) (anet_tcp_connect net host port)
        (λ r. connected_then io net disk open_dump fuel b s (returned r)) w
        (λ r v. connected_then-Ensures fuel b (returned r) v)

  -- Whenever `syncWithMaster` returns: REDIS_ERR leaves the clients as they were, and the databases as they
  -- were or with all their keys removed. REDIS_OK leaves the state connected, a client as the master, with
  -- its flag set, and the databases that loading the dump file into empty ones gives.
  pub sync_with_master-Synchronised :
      (fuel : ℕ) (b : Bool) (host : Bytes) (port : ℕ) (w w' : World) (r : MasterSync)
      → sync_with_master io net disk open_dump fuel b host port s w ≡ some (r, w')
      → Synchronised open_dump s r
  sync_with_master-Synchronised fuel b host port w w' r run =
      Always-some (Synchronised open_dump s) _ r w' (sync_with_master-Ensures fuel b host port w)
        run
