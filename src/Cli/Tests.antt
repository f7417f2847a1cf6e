-- ===== src/Cli/Tests.antt =====
-- Runs of redis/src/redis-cli.c.
use homemade.Prelude.{◌≡◌, refl, true, false, none, some, [], ◌∷◌, ◌++◌}
use mathlib.Core.List.{flatten}
use homemade.Prelude.Int.{pos}
use homemade.Sds.Ops.{in_set, count_front, count_back}
use homemade.Redis.Object.{codes, memcmp_eq}
use homemade.Redis.Decimal.{atoi, print_ℕ, print_loop, read_signed, read_digits, skip_spaces}
use homemade.Redis.Shared.{wrongtypeerrbulk}
use homemade.Redis.ListLaws.{multi_bulk}
use homemade.Cli.Table.{lookup_command, lookup_in, cmd_table}
use homemade.Cli.Read.{
  cli_read_line, read_until_newline, trim_line, cli_read_bulk_reply, bulk_line, bulk_length,
  bulk_body, cli_elements, element_read, element_next, multi_bulk_line, cli_read_multi_bulk_reply,
}
use homemade.Cli.Send.{build_command, command_line, cli_send_command, send_looked_up, send_found}
use homemade.Cli.Options.{parse_options, default_config}
use homemade.Cli.Replies.{listing, cli_read_multi_bulk_reply-multi_bulk}

program : Unit {0}
unfolding cli_read_line read_until_newline trim_line cli_read_bulk_reply bulk_line bulk_length
    bulk_body cli_elements element_read element_next multi_bulk_line cli_read_multi_bulk_reply
    build_command command_line in_set count_front count_back memcmp_eq atoi read_signed read_digits
    skip_spaces print_ℕ print_loop lookup_command lookup_in cmd_table cli_send_command
    send_looked_up send_found flatten parse_options default_config
program = tt

set_run :
    build_command true (codes "set" ∷ codes "k" ∷ codes "hello" ∷ []) ≡ codes "set k 5\r\nhello\r\n"
unfolding program
set_run = refl

-- A name that the table does not have.
unknown_run :
    cli_send_command
      (record { accepts = true; answers = λ b. []; broken = false })
      true
      (codes "nope" ∷ [])
    ≡ none
unfolding program
unknown_run = refl

-- The error that the server sends in place of a multi-bulk reply keeps the client reading.
wrong_type_run : cli_read_multi_bulk_reply false true wrongtypeerrbulk ≡ none
unfolding program
wrong_type_run = refl

-- An empty bulk reply on a terminal reads the byte in front of the reply.
empty_bulk_run : cli_read_bulk_reply false true false (codes "0\r\n\r\n") ≡ none
unfolding program
empty_bulk_run = refl

cli_read_multi_bulk_reply-multi_bulk_example :
    cli_read_multi_bulk_reply false true
      (flatten (multi_bulk (codes "a" ∷ codes "bc" ∷ [])) ++ codes "+")
    ≡ some
        (record { code = 0; input = codes "+"; printed = listing 1 (codes "a" ∷ codes "bc" ∷ []) })
cli_read_multi_bulk_reply-multi_bulk_example =
    cli_read_multi_bulk_reply-multi_bulk false true (codes "a" ∷ codes "bc" ∷ []) (codes "+")

-- A port, and a last `-h` that has no host behind it.
options_run :
    parse_options (λ host. none) 1 (codes "-p" ∷ codes "7000" ∷ codes "-h" ∷ []) default_config
    ≡ some (3, record default_config { hostport = pos 7000 })
unfolding program
options_run = refl

-- A host that does not resolve.
no_host_run :
    parse_options (λ host. none) 1 (codes "-h" ∷ codes "nowhere" ∷ codes "get" ∷ []) default_config
    ≡ none
unfolding program
no_host_run = refl
