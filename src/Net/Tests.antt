-- ===== src/Net/Tests.antt =====
-- Runs of redis/src/anet.c in a world of samples.
use homemade.Prelude.{◌≡◌, refl, true, false, none, some, [], ◌∷◌}
use homemade.Redis.Object.{codes}
use homemade.Net.Streams.{anet_write}
use homemade.Net.StreamLaws.{Delivers, anet_write-Delivers}
use homemade.Net.Sockets.{refused, anet_tcp_generic_connect, anet_tcp_server, ok, anet_accept}
use homemade.Net.SocketLaws.{Settles, anet_tcp_generic_connect-Settles, anet_tcp_server-Settles}
use homemade.Net.Samples.{wire, streams, streams-WritesTo, sockets, sockets-Descriptors}

anet_write-Delivers_example :
    Delivers (λ w. w.sent) (anet_write streams 7 (codes "hello") wire) (codes "hello") 0 wire
anet_write-Delivers_example =
    anet_write-Delivers streams 7 (λ w. w.sent) streams-WritesTo (codes "hello") wire

anet_tcp_generic_connect-Settles_example :
    Settles
      (λ w. w.opened)
      true
      (3 ∷ [])
      (anet_tcp_generic_connect (sockets refused) (codes "host") 6379 true wire)
anet_tcp_generic_connect-Settles_example =
    anet_tcp_generic_connect-Settles (sockets refused) (λ w. w.opened) (sockets-Descriptors refused)
      (codes "host") 6379 true wire

anet_tcp_server-Settles_example :
    Settles (λ w. w.opened) false (3 ∷ []) (anet_tcp_server (sockets refused) 6379 none wire)
anet_tcp_server-Settles_example =
    anet_tcp_server-Settles (sockets refused) (λ w. w.opened) (sockets-Descriptors refused) 6379
      none wire

-- A connection that is accepted.
accept_run : anet_accept (sockets refused) 1 5 wire ≡ some (ok (9, codes "10.0.0.1", 40000), wire)
unfolding anet_accept
accept_run = refl
