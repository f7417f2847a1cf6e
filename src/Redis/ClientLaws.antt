-- ===== src/Redis/ClientLaws.antt =====
-- The events of the clients in redis/src/redis.c: each client has one that reads, and one that writes as long
-- as it has replies.
use homemade.Prelude.{ℕ, ◌≡◌, ◌≢◌, none, some}
use homemade.Redis.Object.{Bytes}
use homemade.Redis.Clients.{
  RedisClient, Clients, create_client, find_client, add_client_reply, free_client,
}
use homemade.Redis.ClientEvents.{IsServed, create_client-IsServed, add_client_reply-IsServed}
use homemade.Redis.ClientFree.{free_client-IsServed}

-- A step of the server on its clients: a connection on a descriptor that no client has, a string that is
-- queued for a client, or a client that is freed.
pub data Step (listening : ℕ) (s t : Clients) : Type 0 where
  accepts :
      (fd now : ℕ)
      → fd ≢ listening
      → find_client fd s.clients ≡ none
      → t ≡ create_client fd now s
      → Step listening s t
  replies :
      (r : Bytes) (c : RedisClient)
      → find_client c.fd s.clients ≡ some c
      → t ≡ add_client_reply r c s
      → Step listening s t
  frees : (c : RedisClient) → c.fd ≢ listening → free_client c s ≡ some t → Step listening s t

pub data Reach (listening : ℕ) (s : Clients) : Clients → Type 0 where
  here : Reach listening s s
  next : {t u : Clients} → Reach listening s t → Step listening t u → Reach listening s u

Step-IsServed :
    (listening : ℕ) (s t : Clients)
    → Step listening s t
    → IsServed listening s
    → IsServed listening t
Step-IsServed listening s t (accepts fd now ne new e) v =
    rw e (create_client-IsServed listening fd now s ne new v)
Step-IsServed listening s t (replies r c known e) v =
    rw e (add_client_reply-IsServed listening r c s known v)
Step-IsServed listening s t (frees c ne run) v = free_client-IsServed listening c s t ne run v

-- In every state that is reached by accepting connections, queueing replies and freeing clients, from one
-- where this holds: each client has one event that reads and, as long as it has replies, one that writes,
-- a client without replies has none that writes, and a descriptor without a client has no event, except the
-- one that listens.
pub Reach-IsServed :
    (listening : ℕ) (s t : Clients)
    → Reach listening s t
    → IsServed listening s
    → IsServed listening t
Reach-IsServed listening s t here v = v
Reach-IsServed listening s t (next {t = u} r step) v =
    Step-IsServed listening u t step (Reach-IsServed listening s u r v)
