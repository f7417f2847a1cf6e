-- ===== src/Redis/Queries.antt =====
-- `processCommand`, `readQueryFromClient` and `acceptHandler` of redis/src/redis.c, as far as they go.
-- `lookupCommand` and `resetClient` are called there and defined nowhere: parameters.
use homemade.Prelude.{
  ℕ, zero, suc, ◌+◌, Bool, true, false, not, ◌&&◌, Option, none, some, List, [], ◌∷◌, ◌++◌, map,
  length, take, drop, if◌then◌else◌, leb, ltb, ◌==◌,
}
use homemade.Prelude.Int.{ℤ, pos, negsuc}
use homemade.Sds.Ops.{tolower}
use homemade.Redis.Object.{Bytes, codes, memcmp_eq}
use homemade.Redis.Clients.{
  RedisClient, Clients, create_client, update_client, add_client_reply, free_client,
}
use homemade.Net.System.{M, ◌>>=◌, ◌>>◌, pure, call}
use homemade.Net.Sockets.{Sockets, Outcome, ok, err, anet_non_block, anet_tcp_no_delay, anet_accept}

-- The test of the number of arguments against the arity of a command.
abbrev pub wrong_arity : ℤ → ℕ → Bool
wrong_arity (pos arity) argc = ltb 0 arity && not (arity == argc)
wrong_arity (negsuc n) argc = ltb argc (suc n)

-- What `read` gives: an error that is EAGAIN or another, or bytes, none at the end of the input.
pub data QueryRead : Type 0 where
  again broken : QueryRead
  bytes : Bytes → QueryRead

abbrev stored : RedisClient → Clients → Clients
stored c s = record s { clients = update_client c s.clients }

module _ (lookup_command : Bytes → Option ℤ) where
  -- The command that was found. An unknown one is read through NULL, since the test is one of the client.
  unfoldable pub process_found : RedisClient → Option ℤ → Clients → Option Clients
  process_found c none s = none
  process_found c (some arity) s = some (
      if wrong_arity arity (length c.argv)
      then add_client_reply (codes "-ERR wrong number of arguments\r\n") c s
      else s)

  -- `processCommand` on a client with arguments, with the name in small letters. The text reaches `addReply`
  -- as an `sds`; a command that is found is not called
  unfoldable pub process_command : RedisClient → List Bytes → Clients → Option Clients
  unfolding process_found
  process_command c [] s = none
  process_command c (name ∷ args) s =
      let lowered = map tolower name in
      let c' = record c { argv = lowered ∷ args } in
      if memcmp_eq lowered (codes "quit")
      then free_client c' (stored c' s)
      else process_found c' (lookup_command lowered) (stored c' s)

  -- The bulk argument, once all of it is there; 2 bytes less are kept than `bulklen` counts
  unfoldable pub take_bulk : ℕ → RedisClient → Clients → Option Clients
  unfolding process_command
  take_bulk (suc (suc n)) c s =
      let c' = record c {
        argv = c.argv ++ take n c.querybuf ∷ [];
        querybuf = drop (suc (suc n)) c.querybuf;
      } in
      if leb (suc (suc n)) (length c.querybuf)
      then process_command c' c'.argv (stored c' s)
      else some s
  take_bulk n c s = none

  -- From the label `again` on; the branch for a client that does not wait for a bulk argument is empty
  unfoldable pub take_query : ℤ → RedisClient → Clients → Option Clients
  unfolding take_bulk
  take_query (negsuc zero) c s = some s
  take_query (negsuc (suc n)) c s = none
  take_query (pos bulklen) c s = take_bulk bulklen c s

  -- `readQueryFromClient` with what `read` and `time` give
  unfoldable pub read_query_from_client : QueryRead → ℕ → RedisClient → Clients → Option Clients
  unfolding take_query
  read_query_from_client again now c s = some s
  read_query_from_client broken now c s = free_client c s
  read_query_from_client (bytes []) now c s = free_client c s
  read_query_from_client (bytes (b ∷ bs)) now c s =
      let c' = record c { querybuf = c.querybuf ++ b ∷ bs; lastinteraction = now } in
      take_query c'.bulklen c' (stored c' s)

module _ {World : Type 0} (net : Sockets World) (time : World → ℕ × World) where
  -- `createClient` with its calls of anet, whose failures it does not look at
  unfoldable pub connect_client : ℕ → Clients → M World Clients
  connect_client fd s = do
    anet_non_block net fd
    anet_tcp_no_delay net fd
    now ← call time
    pure (create_client fd now s)

  -- A descriptor that is 1 is taken for `ANET_ERR`.
  unfoldable pub accept_fd : Bool → ℕ → Clients → M World Clients
  unfolding connect_client
  accept_fd true cfd s = pure s
  accept_fd false cfd s = do
    t ← connect_client cfd s
    pure (record t { stat_numconnections = t.stat_numconnections + 1 })

  unfoldable pub accept_client : Outcome (ℕ × Bytes × ℕ) → Clients → M World Clients
  unfolding accept_fd
  accept_client (err e) s = pure s
  accept_client (ok (cfd, cip, cport)) s = accept_fd (cfd == 1) cfd s

  -- `acceptHandler`
  unfoldable pub accept_handler : ℕ → ℕ → Clients → M World Clients
  unfolding accept_client
  accept_handler fuel fd s = do r ← anet_accept net fuel fd; accept_client r s
