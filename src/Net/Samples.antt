-- ===== src/Net/Samples.antt =====
-- A world for the system calls: what was sent, what waits to be read, a clock and the open descriptors. A
-- `write` takes two bytes at most.
use homemade.Prelude.{
  ℕ, ◌+◌, refl, ap, true, false, Option, none, some, List, [], ◌∷◌, ◌++◌, arith, length, take, drop,
  min,
}
use homemade.Prelude.Int.{pos}
use homemade.Redis.Object.{Bytes, codes}
use homemade.Net.System.{Streams}
use homemade.Net.Sockets.{Sockets, Connected, accepted}
use homemade.Net.StreamLaws.{WritesTo}
use homemade.Net.SocketLaws.{Descriptors}

pub record Wire : Type 0 where
  pub sent : Bytes
  pub waiting : Bytes
  pub clock : ℕ
  pub opened : List ℕ

abbrev pub wire : Wire
wire = record { sent = codes "ab"; waiting = codes "12"; clock = 100; opened = 3 ∷ [] }

-- A read of a stream that has ended fails.
abbrev pub read_bytes : ℕ → Bytes → Option Bytes × Bytes
read_bytes n [] = (none, [])
read_bytes n (b ∷ bs) = (some (take n (b ∷ bs)), drop n (b ∷ bs))

abbrev pub streams : Streams Wire
streams = record {
  time = λ w. (w.clock, w);
  select = λ s ms w. ((pos 1, s), w);
  read = λ fd n w. ((read_bytes n w.waiting).0, record w { waiting = (read_bytes n w.waiting).1 });
  write = λ fd bytes w. (
    some (min 2 (length bytes)),
    record w { sent = w.sent ++ take (min 2 (length bytes)) bytes },
  );
  close = λ fd w. w;
}

pub streams-WritesTo : WritesTo streams 7 (λ w. w.sent)
streams-WritesTo bytes w = (omega arith, refl)

-- No connection is taken, and no socket listens.
abbrev pub sockets : Connected → Sockets Wire
sockets c = record {
  socket =
      λ w. (some (length w.opened + 3), record w { opened = (length w.opened + 3) ∷ w.opened });
  setsockopt = λ s o v w. (true, w);
  getfl = λ s w. (some 2, w);
  setfl_nonblock = λ s fl w. (true, w);
  inet_aton = λ host. none;
  inet_ntoa = λ addr. codes "10.0.0.1";
  gethostbyname = λ host w. (some 167772161, w);
  connect = λ s addr port w. (c, w);
  bind = λ s addr port w. (true, w);
  listen = λ s n w. (false, w);
  accept = λ s w. (accepted 9 167772161 40000, w);
  close = λ s w. record w { opened = drop 1 w.opened };
}

pub sockets-Descriptors : (c : Connected) → Descriptors (sockets c) (λ w. w.opened)
sockets-Descriptors c = record {
  socket_opens = λ w. refl;
  close_last = λ s fds w h. ap (drop 1) h;
  setsockopt_keeps = λ s o v w. refl;
  getfl_keeps = λ s w. refl;
  setfl_keeps = λ s fl w. refl;
  gethostbyname_keeps = λ h w. refl;
  connect_keeps = λ s a p w. refl;
  bind_keeps = λ s a p w. refl;
  listen_keeps = λ s n w. refl;
}
