-- ===== src/Cli/Main.antt =====
-- `cliConnect`, `readArgFromStdin` and `main` of redis/src/redis-cli.c, without the lines that trace a call.
-- `main` runs `cliSendCommand` of Cli/Send.
use homemade.Prelude.{
  ℕ, zero, suc, ◌+◌, ◌*◌, Bool, true, false, Option, none, some, List, [], ◌∷◌, ◌++◌, length,
  if◌then◌else◌, ◌==◌, leb, drop,
}
use homemade.Prelude.Int.{ℤ, pos, negsuc, pos_part}
use homemade.Redis.Object.{Bytes}
use homemade.Net.System.{M, ◌>>=◌, ◌>>◌, pure, call, out_of_fuel, Streams}
use homemade.Net.Sockets.{Sockets, returned, anet_tcp_connect, anet_tcp_no_delay}
use homemade.Cli.Options.{ClientConfig, default_config, parse_options}
use homemade.Cli.Send.{Server, Run, cli_send_command}

-- Slot `i` of `argvcopy`, of which `sizeof(char*)*argc+1` bytes are allocated.
abbrev pub fits_slot : ℕ → ℕ → Bool
fits_slot argc i = leb (8 * (i + 1)) (8 * argc + 1)

-- The arguments in `argvcopy`, with the one of the standard input behind them where that is no terminal;
-- `none` is a store out of the allocated bytes
unfoldable pub argv_copy : List Bytes → Option Bytes → Option (List Bytes)
argv_copy args none = some args
argv_copy args (some lastarg) =
    if fits_slot (length args) (length args) then some (args ++ lastarg ∷ []) else none

-- A run that ends before a command is sent.
abbrev failed_run : Run
failed_run = record { code = 1; stdout = []; sent = none }

unfoldable pub run_command : Server → Bool → Option (List Bytes) → Option Run
unfolding cli_send_command
run_command server tty none = none
run_command server tty (some []) = some failed_run
run_command server tty (some (name ∷ argv)) = cli_send_command server tty (name ∷ argv)

-- From `parseOptions` on; the server is the one that the configuration names.
unfoldable pub run_parsed :
    (ClientConfig → Server)
    → Bool
    → Option Bytes
    → List Bytes
    → Option (ℕ × ClientConfig)
    → Option Run
unfolding argv_copy run_command
run_parsed server tty lastarg argv none = some failed_run
run_parsed server tty lastarg argv (some (firstarg, config)) =
    run_command (server config) tty (argv_copy (drop firstarg argv) lastarg)

-- `main`, on `argv` with the name of the program in front; `lastarg` is what `readArgFromStdin` returns, where
-- the standard input is no terminal
unfoldable pub cli_main :
    (Bytes → Option Bytes) → (ClientConfig → Server) → Bool → Option Bytes → List Bytes → Option Run
unfolding run_parsed parse_options default_config
cli_main anet_resolve server tty lastarg argv =
    run_parsed server tty lastarg argv (parse_options anet_resolve 1 (drop 1 argv) default_config)

module _ {World : Type 0} (net : Sockets World) where
  -- The descriptor, or -1 where `anetTcpConnect` returns `ANET_ERR`, which the descriptor 1 is, too.
  unfoldable pub connected_descriptor : Bool → ℕ → M World ℤ
  connected_descriptor true fd = pure (negsuc 0)
  connected_descriptor false fd = do anet_tcp_no_delay net fd; pure (pos fd)

  -- `cliConnect`
  unfoldable pub cli_connect : ClientConfig → M World ℤ
  unfolding connected_descriptor
  cli_connect config = do
    r ← anet_tcp_connect net config.hostip (pos_part config.hostport)
    connected_descriptor (returned r == 1) (returned r)

module _ {World : Type 0} (io : Streams World) where
  -- The loop of `readArgFromStdin`; `none` is the exit where a read fails
  unfoldable pub read_arg_loop : ℕ → Bytes → M World (Option Bytes)
  read_arg_loop zero arg = out_of_fuel
  read_arg_loop (suc fuel) arg = do
    nread ← call (io.read 0 1024)
    elim nread [
      | none ↦ pure none
      | some buf ↦ if length buf == 0 then pure (some arg) else read_arg_loop fuel (arg ++ buf)
    ]

  -- `readArgFromStdin`
  unfoldable pub read_arg_from_stdin : ℕ → M World (Option Bytes)
  unfolding read_arg_loop
  read_arg_from_stdin fuel = read_arg_loop fuel []
