-- ===== src/Redis/Replication.antt =====
-- Replication in redis/src/redis.c: `flushClientOutput`, `writeFileToClient` and `syncCommand` on a master. `sendReplyToClient`, which the file calls and does not
-- define, is a parameter. The log is not modelled.
use homemade.Prelude.{
  ℕ, zero, suc, ◌+◌, ◌-◌, Bool, true, false, Option, none, some, List, [], ◌∷◌, ◌++◌, length,
  if◌then◌else◌, ltb,
}
use homemade.Prelude.Int.{ℤ, pos, negsuc}
use homemade.Redis.Object.{Bytes, codes}
use homemade.Redis.Clients.{RedisClient, Clients, update_client}
use homemade.Redis.Saving.{Saver, Device, save_db_file}
use homemade.Redis.Sync.{sync_write}
use homemade.Net.System.{M, ◌>>=◌, ◌>>◌, pure, call, tell, out_of_fuel, Streams}
use homemade.Ae.Wait.{is_set, ae_wait}

-- The calls on the dump file and on the temporary file that replaces it.
pub record DumpFiles (World : Type 0) : Type 0 where
  pub open_dump : World → Option ℕ × World
  pub fstat_size : ℕ → World → Option ℕ × World
  pub open_tmp : World → Option ℕ × World
  pub rename_tmp : World → Bool × World
  pub unlink_tmp : World → World

-- Queued replies, or none.
abbrev when_empty : {A : Type 0} → List Bytes → A → A → A
when_empty [] a b = a
when_empty (r ∷ rs) a b = b

module _ {World : Type 0} (io : Streams World) (disk : DumpFiles World) where
  module _ (send_reply_to_client : RedisClient → World → RedisClient × World) where
    -- What a round does with the result of `aeWait`; the Boolean is whether it returns REDIS_OK
    unfoldable pub flush_ready :
        RedisClient
        → ℤ
        → (RedisClient → M World (Bool × RedisClient))
        → M World (Bool × RedisClient)
    flush_ready c (negsuc zero) rest = pure (false, c)
    flush_ready c (negsuc (suc n)) rest =
        if is_set (negsuc (suc n)) 2 then call (send_reply_to_client c) >>= rest else rest c
    flush_ready c (pos mask) rest =
        if is_set (pos mask) 2 then call (send_reply_to_client c) >>= rest else rest c

    -- The rest of a round, unless the time is over.
    unfoldable pub flush_wait :
        Bool
        → RedisClient
        → (RedisClient → M World (Bool × RedisClient))
        → M World (Bool × RedisClient)
    unfolding flush_ready
    flush_wait true c rest = pure (false, c)
    flush_wait false c rest = do retval ← ae_wait io c.fd 2 1000; flush_ready c retval rest

    unfoldable pub flush_loop : ℕ → ℕ → RedisClient → M World (Bool × RedisClient)
    unfolding flush_wait
    flush_loop zero start c = out_of_fuel
    flush_loop (suc fuel) start c =
        when_empty c.replies (pure (true, c))
          (do now ← call io.time; flush_wait (ltb (start + 5) now) c (flush_loop fuel start))

    -- `flushClientOutput`
    unfoldable pub flush_client_output : ℕ → RedisClient → M World (Bool × RedisClient)
    unfolding flush_loop
    flush_client_output fuel c = do start ← call io.time; flush_loop fuel start c

  -- What follows a `read` of the file.
  unfoldable pub send_chunk : ℕ → Option Bytes → (ℕ → M World Bool) → M World Bool
  send_chunk client_fd none rest = pure false
  send_chunk client_fd (some chunk) rest = do
    sent ← sync_write io client_fd chunk 5
    elim sent [ none ↦ pure false | some n ↦ rest (length chunk) ]

  unfoldable pub send_more : Bool → ℕ → ℕ → (ℕ → M World Bool) → M World Bool
  unfolding send_chunk
  send_more true file_fd client_fd rest = pure false
  send_more false file_fd client_fd rest = do
    chunk ← call (io.read file_fd 1024)
    send_chunk client_fd chunk rest

  -- The loop of `writeFileToClient`, with `left` bytes of the file to come
  unfoldable pub write_file_loop : ℕ → ℕ → ℕ → ℕ → ℕ → M World Bool
  unfolding send_more
  write_file_loop zero file_fd client_fd start left = out_of_fuel
  write_file_loop (suc fuel) file_fd client_fd start zero = pure true
  write_file_loop (suc fuel) file_fd client_fd start (suc left) = do
    now ← call io.time
    send_more (ltb (start + 60) now) file_fd client_fd
        (λ n. write_file_loop fuel file_fd client_fd start (suc left - n))

  -- The end of `writeFileToClient`: the line goes to the file, which is open for reading.
  unfoldable pub end_file : ℕ → Bool → M World Bool
  end_file file_fd false = pure false
  end_file file_fd true = do
    r ← sync_write io file_fd (codes "\r\n") 5
    elim r [ none ↦ pure false | some n ↦ pure true ]

  -- `writeFileToClient`, whether it returns REDIS_OK. `sizebuf` is what the call of `snprintf`, which lacks
  -- its second argument, leaves
  unfoldable pub write_file_to_client : ℕ → Bytes → ℕ → ℕ → ℕ → ℕ → M World Bool
  unfolding write_file_loop end_file
  write_file_to_client fuel sizebuf file_fd file_len client_fd start = do
    size_sent ← sync_write io client_fd sizebuf 5
    elim size_sent [
      | none ↦ pure false
      | some n ↦ (do
        all_sent ← write_file_loop fuel file_fd client_fd start file_len
        end_file file_fd all_sent)
    ]

  -- What `syncCommand` leaves: the client, the server's databases and files, and its clients.
  pub record Synced : Type 0 where
    pub client : RedisClient
    pub saver : Saver
    pub server : Clients

  abbrev pub closed : RedisClient → Saver → Clients → Synced
  closed c saver s =
      let c' = record c { is_close = true } in
      record {
        client = c';
        saver = saver;
        server = record s { clients = update_client c' s.clients };
      }

  abbrev pub enslaved : RedisClient → Saver → Clients → Synced
  enslaved c saver s =
      let c' = record c { is_slave = true; slaveseldb = 0 } in
      record {
        client = c';
        saver = saver;
        server = record s { clients = update_client c' s.clients; slaves = s.slaves ++ c.fd ∷ [] };
      }

  -- From the size of the file on; what `writeFileToClient` returns is not looked at
  unfoldable pub send_dump :
      ℕ → Bytes → ℕ → ℕ → Option ℕ → RedisClient → Saver → Clients → M World Synced
  unfolding write_file_to_client
  send_dump fuel sizebuf start fd none c saver s = do tell (io.close fd); pure (closed c saver s)
  send_dump fuel sizebuf start fd (some size) c saver s = do
    write_file_to_client fuel sizebuf fd size c.fd start
    tell (io.close fd)
    pure (enslaved c saver s)

  unfoldable pub open_and_send :
      ℕ → Bytes → ℕ → Option ℕ → RedisClient → Saver → Clients → M World Synced
  unfolding send_dump
  open_and_send fuel sizebuf start none c saver s = pure (closed c saver s)
  open_and_send fuel sizebuf start (some fd) c saver s = do
    size ← call (disk.fstat_size fd)
    send_dump fuel sizebuf start fd size c saver s

  -- From `saveDb` on.
  unfoldable pub saved_then : ℕ → Bytes → ℕ → RedisClient → Bool × Saver → Clients → M World Synced
  unfolding open_and_send
  saved_then fuel sizebuf start c (false, saver) s = pure (closed c saver s)
  saved_then fuel sizebuf start c (true, saver) s = do
    fd ← call disk.open_dump
    open_and_send fuel sizebuf start fd c saver s

  -- The database is saved only where the output was flushed.
  unfoldable pub flushed_then :
      ℕ → Bytes → ℕ → Device → Bytes → Bool × RedisClient → Saver → Clients → M World Synced
  unfolding saved_then
  flushed_then fuel sizebuf start dev dbfilename (false, c) saver s = pure (closed c saver s)
  flushed_then fuel sizebuf start dev dbfilename (true, c) saver s =
      saved_then fuel sizebuf start c (save_db_file dev dbfilename saver) s

  module _ (send_reply_to_client : RedisClient → World → RedisClient × World) where
    -- `syncCommand`
    unfoldable pub sync_command :
        ℕ → Bytes → Device → Bytes → RedisClient → Saver → Clients → M World Synced
    unfolding flush_client_output flushed_then
    sync_command fuel sizebuf dev dbfilename c saver s = do
      start ← call io.time
      flushed ← flush_client_output send_reply_to_client fuel c
      flushed_then fuel sizebuf start dev dbfilename flushed saver s
