-- ===== src/Net/SocketLaws.antt =====
-- Which descriptors `anetTcpConnect`, `anetTcpNonBlockConnect` and `anetTcpServer` of redis/src/anet.c leave
-- open.
use homemade.Prelude.{
  ℕ, ◌≡◌, refl, ◌∙◌, Bool, true, false, ◌&&◌, Option, none, some, List, ◌∷◌, arith, Option-cases,
  inl, inr,
}
use homemade.Prelude.Int.{ℤ, pos, negsuc}
use homemade.Redis.Object.{Bytes}
use homemade.Net.System.{M, ◌>>=◌, pure}
use homemade.Net.Sockets.{
  Sockets, SocketOption, so_reuseaddr, Connected, connected, in_progress, refused, NetError,
  getfl_error, setfl_error, option_error, resolve_error, socket_error, connect_error, address_error,
  bind_error, listen_error, accept_error, Outcome, ok, err, anet_non_block, host_address, or_close,
  after_connect, connect_to, with_flags, flags_then, connect_found, connect_with, serve_with,
  or_by_name, on_ok, outcome_of, anet_tcp_generic_connect, bind_address, bind_and_listen,
  anet_tcp_server,
}

-- What `socket` does to the open descriptors, the last one in front.
abbrev pub Opens : List ℕ → Option ℕ → List ℕ → Type 0
Opens fds none after = after ≡ fds
Opens fds (some s) after = after ≡ s ∷ fds

-- `socket` opens a descriptor, `close` closes the last one, and the other calls neither open nor close.
pub record Descriptors {World : Type 0} (net : Sockets World) (opened : World → List ℕ)
    : Type 0 where
  pub socket_opens : (w : World) → Opens (opened w) (net.socket w).0 (opened (net.socket w).1)
  pub close_last :
      (s : ℕ) (fds : List ℕ) (w : World) → opened w ≡ s ∷ fds → opened (net.close s w) ≡ fds
  pub setsockopt_keeps :
      (s : ℕ) (o : SocketOption) (v : ℤ) (w : World) → opened (net.setsockopt s o v w).1 ≡ opened w
  pub getfl_keeps : (s : ℕ) (w : World) → opened (net.getfl s w).1 ≡ opened w
  pub setfl_keeps : (s fl : ℕ) (w : World) → opened (net.setfl_nonblock s fl w).1 ≡ opened w
  pub gethostbyname_keeps : (h : Bytes) (w : World) → opened (net.gethostbyname h w).1 ≡ opened w
  pub connect_keeps : (s a p : ℕ) (w : World) → opened (net.connect s a p w).1 ≡ opened w
  pub bind_keeps : (s a p : ℕ) (w : World) → opened (net.bind s a p w).1 ≡ opened w
  pub listen_keeps : (s n : ℕ) (w : World) → opened (net.listen s n w).1 ≡ opened w

-- The errors of `anetNonBlock`.
abbrev pub is_flags_error : NetError → Bool
is_flags_error getfl_error = true
is_flags_error setfl_error = true
is_flags_error option_error = false
is_flags_error resolve_error = false
is_flags_error socket_error = false
is_flags_error connect_error = false
is_flags_error address_error = false
is_flags_error bind_error = false
is_flags_error listen_error = false
is_flags_error accept_error = false

-- One descriptor more, or none.
abbrev pub Left : Bool → List ℕ → List ℕ → Type 0
Left true fds after = (s : ℕ) × (after ≡ s ∷ fds)
Left false fds after = after ≡ fds

-- A success leaves its descriptor open in addition; an error leaves none, or one where the flags of a
-- non-blocking socket failed.
abbrev pub Ledger : Bool → List ℕ → Outcome ℕ → List ℕ → Type 0
Ledger nonblock fds (ok s) after = after ≡ s ∷ fds
Ledger nonblock fds (err e) after = Left (nonblock && is_flags_error e) fds after

-- A run that ends, and its effect on the open descriptors.
pub record Settles {World : Type 0} (opened : World → List ℕ) (nonblock : Bool) (fds : List ℕ)
    (run : Option (Outcome ℕ × World)) : Type 0 where
  pub result : Outcome ℕ
  pub world : World
  pub ends : run ≡ some (result, world)
  pub ledger : Ledger nonblock fds result (opened world)

module _ {World : Type 0} (net : Sockets World) (opened : World → List ℕ)
    (law : Descriptors net opened) (nonblock : Bool) (fds : List ℕ) where
  opens_one : (s : ℕ) (w : World) → opened w ≡ s ∷ fds → Settles opened nonblock fds (pure (ok s) w)
  opens_one s w h = record { result = ok s; world = w; ends = refl; ledger = h }

  stays :
      (e : NetError) (w : World)
      → (nonblock && is_flags_error e) ≡ false
      → opened w ≡ fds
      → Settles opened nonblock fds (pure (err e) w)
  stays e w no_flags h = record { result = err e; world = w; ends = refl; ledger = rw no_flags h }

  or_close-Settles :
      (s : ℕ) (e : NetError) (b : Bool) (rest : M World (Outcome ℕ)) (w : World)
      → (nonblock && is_flags_error e) ≡ false
      → opened w ≡ s ∷ fds
      → (b ≡ true → Settles opened nonblock fds (rest w))
      → Settles opened nonblock fds (or_close net s e b rest w)
  unfolding or_close
  or_close-Settles s e true rest w no_flags h more = more refl
  or_close-Settles s e false rest w no_flags h more =
      stays e (net.close s w) no_flags (law.close_last s fds w h)

  no_flags_lem : (e : NetError) → is_flags_error e ≡ false → (nonblock && is_flags_error e) ≡ false
  no_flags_lem e h = rw h (ground arith)

  after_connect-Settles :
      (s : ℕ) (r : Connected) (w : World)
      → opened w ≡ s ∷ fds
      → Settles opened nonblock fds (after_connect net nonblock s r w)
  unfolding after_connect
  after_connect-Settles s connected w h = opens_one s w h
  after_connect-Settles s in_progress w h =
      or_close-Settles s connect_error nonblock (pure (ok s)) w (no_flags_lem connect_error refl) h
        (λ p. opens_one s w h)
  after_connect-Settles s refused w h =
      or_close-Settles s connect_error false (pure (ok s)) w (no_flags_lem connect_error refl) h
        (λ p. opens_one s w h)

  connect_to-Settles :
      (s a port : ℕ) (w : World)
      → opened w ≡ s ∷ fds
      → Settles opened nonblock fds (connect_to net nonblock s a port w)
  unfolding connect_to
  connect_to-Settles s a port w h =
      after_connect-Settles s (net.connect s a port w).0 (net.connect s a port w).1
        (law.connect_keeps s a port w ∙ h)

module _ {World : Type 0} (net : Sockets World) (opened : World → List ℕ)
    (law : Descriptors net opened) (fds : List ℕ) where
  -- An error of the flags leaves the socket open.
  left_open :
      (e : NetError) (s : ℕ) (w : World)
      → is_flags_error e ≡ true
      → opened w ≡ s ∷ fds
      → Settles opened true fds (pure (err e) w)
  left_open e s w flags h = record {
    result = err e;
    world = w;
    ends = refl;
    ledger = rw flags (s, h);
  }

  on_ok-Settles :
      (done : Bool) (s : ℕ) (rest : M World (Outcome ℕ)) (w : World)
      → opened w ≡ s ∷ fds
      → ((v : World) → opened v ≡ s ∷ fds → Settles opened true fds (rest v))
      → Settles opened true fds (on_ok net (outcome_of net done setfl_error) rest w)
  on_ok-Settles true s rest w h more = more w h
  on_ok-Settles false s rest w h more = left_open setfl_error s w refl h

  with_flags-Settles :
      (flags : Option ℕ) (s : ℕ) (rest : M World (Outcome ℕ)) (w : World)
      → opened w ≡ s ∷ fds
      → ((v : World) → opened v ≡ s ∷ fds → Settles opened true fds (rest v))
      → Settles opened true fds ((with_flags net s flags >>= λ r. on_ok net r rest) w)
  unfolding with_flags
  with_flags-Settles none s rest w h more = left_open getfl_error s w refl h
  with_flags-Settles (some fl) s rest w h more =
      on_ok-Settles (net.setfl_nonblock s fl w).0 s rest (net.setfl_nonblock s fl w).1
        (law.setfl_keeps s fl w ∙ h) more

  flags_then-Settles :
      (nonblock : Bool) (s : ℕ) (rest : M World (Outcome ℕ)) (w : World)
      → opened w ≡ s ∷ fds
      → ((v : World) → opened v ≡ s ∷ fds → Settles opened nonblock fds (rest v))
      → Settles opened nonblock fds (flags_then net nonblock s rest w)
  unfolding flags_then anet_non_block
  flags_then-Settles false s rest w h more = more w h
  flags_then-Settles true s rest w h more =
      with_flags-Settles (net.getfl s w).0 s rest (net.getfl s w).1 (law.getfl_keeps s w ∙ h) more

  connect_found-Settles :
      (port : ℕ) (nonblock : Bool) (s : ℕ) (host : Option ℕ) (w : World)
      → opened w ≡ s ∷ fds
      → Settles opened nonblock fds (connect_found net port nonblock s host w)
  unfolding connect_found
  connect_found-Settles port nonblock s none w h =
      or_close-Settles net opened law nonblock fds s resolve_error false (pure (ok s)) w
        (no_flags_lem net opened law nonblock fds resolve_error refl) h
        (λ p. opens_one net opened law nonblock fds s w h)
  connect_found-Settles port nonblock s (some a) w h =
      flags_then-Settles nonblock s _ w h
        (λ v k. connect_to-Settles net opened law nonblock fds s a port v k)

  connect_with-Settles :
      (addr : Bytes) (port : ℕ) (nonblock : Bool) (s : ℕ) (w : World)
      → opened w ≡ s ∷ fds
      → Settles opened nonblock fds (connect_with net addr port nonblock (some s) w)
  unfolding connect_with host_address or_by_name
  connect_with-Settles addr port nonblock s w h =
      let w' = (net.setsockopt s so_reuseaddr (negsuc 0) w).1 in
      let h' : opened w' ≡ s ∷ fds = law.setsockopt_keeps s so_reuseaddr (negsuc 0) w ∙ h in
      elim (Option-cases (net.inet_aton addr)) [
        | inl name ↦
            rw (name, or_by_name)
              (connect_found-Settles port nonblock s (net.gethostbyname addr w').0
                (net.gethostbyname addr w').1 (law.gethostbyname_keeps addr w' ∙ h'))
        | inr (a, number) ↦
            rw (number, or_by_name) (connect_found-Settles port nonblock s (some a) w' h')
      ]

  bind_and_listen-Settles :
      (s port : ℕ) (addr : Option ℕ) (w : World)
      → opened w ≡ s ∷ fds
      → Settles opened false fds (bind_and_listen net s port addr w)
  unfolding bind_and_listen
  bind_and_listen-Settles s port none w h =
      or_close-Settles net opened law false fds s address_error false (pure (ok s)) w refl h
        (λ p. opens_one net opened law false fds s w h)
  bind_and_listen-Settles s port (some a) w h =
      let w' = (net.bind s a port w).1 in
      let h' : opened w' ≡ s ∷ fds = law.bind_keeps s a port w ∙ h in
      let h'' : opened (net.listen s 32 w').1 ≡ s ∷ fds = law.listen_keeps s 32 w' ∙ h' in
      or_close-Settles net opened law false fds s bind_error (net.bind s a port w).0 _ w' refl h'
        (λ p.
          or_close-Settles net opened law false fds s listen_error (net.listen s 32 w').0
            (pure (ok s)) (net.listen s 32 w').1 refl h''
            (λ q. opens_one net opened law false fds s _ h''))

-- What a run of the program does to the open descriptors, whichever way `socket` goes.
module _ {World : Type 0} (net : Sockets World) (opened : World → List ℕ)
    (law : Descriptors net opened) where
  -- Where `socket` opens a descriptor, `close` closes the one opened last and no other call opens or closes
  -- any: `anetTcpGenericConnect` returns, and a connection leaves its socket open in addition to those
  -- before. An error leaves no socket open, with one exception: where the flags of a non-blocking socket
  -- cannot be read or set, the socket stays open.
  pub anet_tcp_generic_connect-Settles :
      (addr : Bytes) (port : ℕ) (nonblock : Bool) (w : World)
      → Settles opened nonblock (opened w) (anet_tcp_generic_connect net addr port nonblock w)
  unfolding anet_tcp_generic_connect connect_with
  anet_tcp_generic_connect-Settles addr port nonblock w = elim (Option-cases (net.socket w).0) [
    | inl refused_one ↦
        let same : opened (net.socket w).1 ≡ opened w = rw refused_one at (law.socket_opens w) in
        rw (refused_one, connect_with)
          (stays net opened law nonblock (opened w) socket_error (net.socket w).1
            (no_flags_lem net opened law nonblock (opened w) socket_error refl) same)
    | inr (s, given) ↦
        let one : opened (net.socket w).1 ≡ s ∷ opened w = rw given at (law.socket_opens w) in
        rw given
          (connect_with-Settles net opened law (opened w) addr port nonblock s (net.socket w).1 one)
  ]

  -- Under the same conditions on the calls, `anetTcpServer` returns: a success leaves the listening socket
  -- open in addition to those before, and every error leaves no socket open.
  pub anet_tcp_server-Settles :
      (port : ℕ) (bindaddr : Option Bytes) (w : World)
      → Settles opened false (opened w) (anet_tcp_server net port bindaddr w)
  unfolding anet_tcp_server serve_with
  anet_tcp_server-Settles port bindaddr w = elim (Option-cases (net.socket w).0) [
    | inl refused_one ↦
        let same : opened (net.socket w).1 ≡ opened w = rw refused_one at (law.socket_opens w) in
        rw (refused_one, serve_with)
          (stays net opened law false (opened w) socket_error (net.socket w).1 refl same)
    | inr (s, given) ↦
        let w' = (net.setsockopt s so_reuseaddr (pos 1) (net.socket w).1).1 in
        let one : opened w' ≡ s ∷ opened w =
          law.setsockopt_keeps s so_reuseaddr (pos 1) (net.socket w).1
          ∙ (rw given at (law.socket_opens w)) in
        rw (given, serve_with)
          (or_close-Settles net opened law false (opened w) s option_error
            (net.setsockopt s so_reuseaddr (pos 1) (net.socket w).1).0 _ w' refl one
            (λ p.
              bind_and_listen-Settles net opened law (opened w) s port (bind_address net bindaddr)
                w' one))
  ]
