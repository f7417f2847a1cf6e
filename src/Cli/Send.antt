-- ===== src/Cli/Send.antt =====
-- `cliSendCommand` and `parseOptions` of redis/src/redis-cli.c. The lines that trace a call are not
-- modelled.
use homemade.Prelude.{
  ℕ, Bool, false, ◌&&◌, ◌||◌, not, Option, none, some, List, [], ◌∷◌, ◌++◌, length, if◌then◌else◌,
  ◌>>=◌, ◌==◌,
}
use homemade.Prelude.Int.{ℤ, pos, negsuc}
use homemade.Redis.Object.{Bytes, codes}
use homemade.Redis.Shared.{crlf}
use homemade.Redis.Decimal.{print_ℕ}
use homemade.Cli.Table.{
  ReplyKind, int_reply, retcode_reply, bulk_reply, multibulk_reply, singleline_reply, Command,
  lookup_command,
}
use homemade.Cli.Read.{
  Replied, cli_read_inline_reply, cli_read_bulk_reply, cli_read_multi_bulk_reply,
}

-- The loop that joins the arguments, and the bulk argument behind the line.
unfoldable pub command_line : Bool → List Bytes → Bytes
command_line bulk [] = []
command_line bulk (a ∷ []) = if bulk then print_ℕ (length a) else a
command_line bulk (a ∷ b ∷ argv) = a ++ codes " " ++ command_line bulk (b ∷ argv)

abbrev pub last_of : List Bytes → Bytes
last_of [] = []
last_of (a ∷ []) = a
last_of (a ∷ b ∷ argv) = last_of (b ∷ argv)

unfoldable pub build_command : Bool → List Bytes → Bytes
unfolding command_line
build_command bulk argv =
    command_line bulk argv ++ crlf ++ (if bulk then last_of argv ++ crlf else [])

-- Whether the number of arguments is refused: a negative arity never refuses one.
abbrev pub wrong_number : ℤ → ℕ → Bool
wrong_number (pos arity) argc = not (arity == 0) && not (argc == arity)
wrong_number (negsuc n) argc = false

unfoldable pub read_reply : Bool → Bool → ReplyKind → List ℕ → Option Replied
read_reply broken tty int_reply input = cli_read_inline_reply broken int_reply input
read_reply broken tty retcode_reply input = cli_read_inline_reply broken retcode_reply input
read_reply broken tty singleline_reply input = cli_read_inline_reply broken singleline_reply input
read_reply broken tty bulk_reply input = cli_read_bulk_reply broken tty false input
read_reply broken tty multibulk_reply input = cli_read_multi_bulk_reply broken tty input

-- A run: what is printed on the standard output, and the exit code.
pub record Run : Type 0 where
  pub code : ℕ
  pub stdout : List ℕ
  pub sent : Option Bytes

-- The server: whether it takes the connection, and what it sends back for what it gets.
pub record Server : Type 0 where
  pub accepts : Bool
  pub answers : Bytes → List ℕ
  pub broken : Bool

unfoldable pub send_found : Server → Bool → List Bytes → Command → Option Run
unfolding build_command read_reply
send_found server tty argv rc =
    let cmd = build_command rc.bulk argv in
    if wrong_number rc.arity (length argv) || not server.accepts
    then some (record { code = 1; stdout = []; sent = none })
    else read_reply server.broken tty rc.reply (server.answers cmd) >>= λ r.
        some (record { code = r.code; stdout = r.printed; sent = some cmd })

unfoldable pub send_looked_up : Server → Bool → List Bytes → Option Command → Option Run
unfolding send_found
send_looked_up server tty argv none = none
send_looked_up server tty argv (some rc) = send_found server tty argv rc

-- `cliSendCommand`; the trace of an unknown command reads through NULL before the test for it
unfoldable pub cli_send_command : Server → Bool → List Bytes → Option Run
unfolding send_looked_up
cli_send_command server tty [] = none
cli_send_command server tty (name ∷ argv) =
    send_looked_up server tty (name ∷ argv) (lookup_command name)
