-- ===== src/Net/Sockets.antt =====
-- redis/src/anet.c: options of a socket, names, connecting, serving and accepting. The calls of the system
-- are an interface; what `anetSetError` writes is the error that a function returns.
use homemade.Prelude.{ℕ, zero, suc, Bool, true, false, Option, none, some}
use homemade.Prelude.Int.{ℤ, pos, negsuc}
use homemade.Redis.Object.{Bytes}
use homemade.Net.System.{M, ◌>>=◌, ◌>>◌, pure, call, tell, out_of_fuel}

pub data SocketOption : Type 0 where
  tcp_nodelay so_sndbuf so_keepalive so_reuseaddr : SocketOption

-- What `connect` does.
pub data Connected : Type 0 where
  connected in_progress refused : Connected

-- What `accept` does: a descriptor with the address and the port of the other side.
pub data Accepted : Type 0 where
  accepted : ℕ → ℕ → ℕ → Accepted
  interrupted failed : Accepted

-- An address is a number; `inet_aton` is `none` where it returns 0, `gethostbyname` where it returns NULL.
pub record Sockets (World : Type 0) : Type 0 where
  pub socket : World → Option ℕ × World
  pub setsockopt : ℕ → SocketOption → ℤ → World → Bool × World
  pub getfl : ℕ → World → Option ℕ × World
  pub setfl_nonblock : ℕ → ℕ → World → Bool × World
  pub inet_aton : Bytes → Option ℕ
  pub inet_ntoa : ℕ → Bytes
  pub gethostbyname : Bytes → World → Option ℕ × World
  pub connect : ℕ → ℕ → ℕ → World → Connected × World
  pub bind : ℕ → ℕ → ℕ → World → Bool × World
  pub listen : ℕ → ℕ → World → Bool × World
  pub accept : ℕ → World → Accepted × World
  pub close : ℕ → World → World

-- The errors, one for each message.
pub data NetError : Type 0 where
  getfl_error setfl_error option_error resolve_error socket_error connect_error : NetError
  address_error bind_error listen_error accept_error : NetError

pub data Outcome (A : Type 0) : Type 0 where
  ok : A → Outcome A
  err : NetError → Outcome A

-- The `int` that a function with a descriptor as its result returns; `ANET_ERR` is 1
abbrev pub returned : Outcome ℕ → ℕ
returned (ok s) = s
returned (err e) = 1

module _ {World : Type 0} (net : Sockets World) where
  abbrev pub outcome_of : Bool → NetError → Outcome (Unit {0})
  outcome_of true e = ok tt
  outcome_of false e = err e

  -- A call that fails with an error.
  abbrev attempt : (World → Bool × World) → NetError → M World (Outcome (Unit {0}))
  attempt f e = do done ← call f; pure (outcome_of done e)

  unfoldable pub with_flags : ℕ → Option ℕ → M World (Outcome (Unit {0}))
  with_flags fd none = pure (err getfl_error)
  with_flags fd (some fl) = attempt (net.setfl_nonblock fd fl) setfl_error

  -- `anetNonBlock`
  unfoldable pub anet_non_block : ℕ → M World (Outcome (Unit {0}))
  unfolding with_flags
  anet_non_block fd = do flags ← call (net.getfl fd); with_flags fd flags

  -- `anetTcpNoDelay`
  unfoldable pub anet_tcp_no_delay : ℕ → M World (Outcome (Unit {0}))
  anet_tcp_no_delay fd = attempt (net.setsockopt fd tcp_nodelay (pos 1)) option_error

  -- `anetSetSendBuffer`
  unfoldable pub anet_set_send_buffer : ℕ → ℤ → M World (Outcome (Unit {0}))
  anet_set_send_buffer fd buffsize = attempt (net.setsockopt fd so_sndbuf buffsize) option_error

  -- `anetTcpKeepAlive`
  unfoldable pub anet_tcp_keep_alive : ℕ → M World (Outcome (Unit {0}))
  anet_tcp_keep_alive fd = attempt (net.setsockopt fd so_keepalive (pos 1)) option_error

  unfoldable pub or_by_name : Bytes → Option ℕ → M World (Option ℕ)
  or_by_name host none = call (net.gethostbyname host)
  or_by_name host (some addr) = pure (some addr)

  -- The address of a host: `inet_aton`, or else `gethostbyname`.
  unfoldable pub host_address : Bytes → M World (Option ℕ)
  unfolding or_by_name
  host_address host = or_by_name host (net.inet_aton host)

  -- `anetResolve`, with what it leaves in `ipbuf`
  unfoldable pub anet_resolve : Bytes → M World (Outcome Bytes)
  unfolding host_address
  anet_resolve host = do
    addr ← host_address host
    elim addr [ none ↦ pure (err resolve_error) | some a ↦ pure (ok (net.inet_ntoa a)) ]

  -- Where a step fails, the socket is closed and the error returned.
  unfoldable pub or_close : ℕ → NetError → Bool → M World (Outcome ℕ) → M World (Outcome ℕ)
  or_close s e true rest = rest
  or_close s e false rest = do tell (net.close s); pure (err e)

  unfoldable pub after_connect : Bool → ℕ → Connected → M World (Outcome ℕ)
  unfolding or_close
  after_connect nonblock s connected = pure (ok s)
  after_connect nonblock s in_progress = or_close s connect_error nonblock (pure (ok s))
  after_connect nonblock s refused = or_close s connect_error false (pure (ok s))

  -- From `connect` on.
  unfoldable pub connect_to : Bool → ℕ → ℕ → ℕ → M World (Outcome ℕ)
  unfolding after_connect
  connect_to nonblock s addr port = do
    r ← call (net.connect s addr port)
    after_connect nonblock s r

  -- An error is returned as it is.
  abbrev pub on_ok : Outcome (Unit {0}) → M World (Outcome ℕ) → M World (Outcome ℕ)
  on_ok (ok _) rest = rest
  on_ok (err e) rest = pure (err e)

  -- The flags, where they are asked for; the socket stays open where that fails.
  unfoldable pub flags_then : Bool → ℕ → M World (Outcome ℕ) → M World (Outcome ℕ)
  unfolding anet_non_block
  flags_then false s rest = rest
  flags_then true s rest = do r ← anet_non_block s; on_ok r rest

  unfoldable pub connect_found : ℕ → Bool → ℕ → Option ℕ → M World (Outcome ℕ)
  unfolding or_close flags_then connect_to
  connect_found port nonblock s none = or_close s resolve_error false (pure (ok s))
  connect_found port nonblock s (some a) = flags_then nonblock s (connect_to nonblock s a port)

  -- From the socket on.
  unfoldable pub connect_with : Bytes → ℕ → Bool → Option ℕ → M World (Outcome ℕ)
  unfolding host_address connect_found
  connect_with addr port nonblock none = pure (err socket_error)
  connect_with addr port nonblock (some s) = do
    call (net.setsockopt s so_reuseaddr (negsuc 0))
    host ← host_address addr
    connect_found port nonblock s host

  -- `anetTcpGenericConnect`
  unfoldable pub anet_tcp_generic_connect : Bytes → ℕ → Bool → M World (Outcome ℕ)
  unfolding connect_with
  anet_tcp_generic_connect addr port nonblock = do
    fd ← call net.socket
    connect_with addr port nonblock fd

  -- `anetTcpConnect`
  unfoldable pub anet_tcp_connect : Bytes → ℕ → M World (Outcome ℕ)
  anet_tcp_connect addr port = anet_tcp_generic_connect addr port false

  -- `anetTcpNonBlockConnect`
  unfoldable pub anet_tcp_non_block_connect : Bytes → ℕ → M World (Outcome ℕ)
  anet_tcp_non_block_connect addr port = anet_tcp_generic_connect addr port true

  -- The address to bind; `INADDR_ANY` is 0.
  unfoldable pub bind_address : Option Bytes → Option ℕ
  bind_address none = some 0
  bind_address (some host) = net.inet_aton host

  unfoldable pub bind_and_listen : ℕ → ℕ → Option ℕ → M World (Outcome ℕ)
  unfolding or_close
  bind_and_listen s port none = or_close s address_error false (pure (ok s))
  bind_and_listen s port (some addr) = do
    bound ← call (net.bind s addr port)
    or_close s bind_error bound
        (do listening ← call (net.listen s 32); or_close s listen_error listening (pure (ok s)))

  unfoldable pub serve_with : ℕ → Option Bytes → Option ℕ → M World (Outcome ℕ)
  unfolding or_close bind_and_listen bind_address
  serve_with port bindaddr none = pure (err socket_error)
  serve_with port bindaddr (some s) = do
    set ← call (net.setsockopt s so_reuseaddr (pos 1))
    or_close s option_error set (bind_and_listen s port (bind_address bindaddr))

  -- `anetTcpServer`
  unfoldable pub anet_tcp_server : ℕ → Option Bytes → M World (Outcome ℕ)
  unfolding serve_with
  anet_tcp_server port bindaddr = do fd ← call net.socket; serve_with port bindaddr fd

  -- `anetAccept`: the descriptor, the address of the other side and its port; the loop goes on where the
  -- call is interrupted
  unfoldable pub anet_accept : ℕ → ℕ → M World (Outcome (ℕ × Bytes × ℕ))
  anet_accept zero servsock = out_of_fuel
  anet_accept (suc fuel) servsock = do
    r ← call (net.accept servsock)
    elim r [
      | accepted fd addr port ↦ pure (ok (fd, net.inet_ntoa addr, port))
      | interrupted ↦ anet_accept fuel servsock
      | failed ↦ pure (err accept_error)
    ]
