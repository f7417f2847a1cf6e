-- ===== src/Cli/MainTests.antt =====
-- Runs of `main` of redis/src/redis-cli.c.
use homemade.Prelude.{◌≡◌, refl, true, false, none, some, [], ◌∷◌}
use homemade.Redis.Object.{codes, memcmp_eq}
use homemade.Cli.Options.{ClientConfig, parse_options, default_config}
use homemade.Cli.Send.{Server}
use homemade.Cli.Main.{cli_main, run_parsed, run_command, argv_copy}

-- No server answers.
abbrev no_server : ClientConfig → Server
no_server config = record { accepts = false; answers = λ sent. []; broken = false }

-- Without an argument the usage is printed.
usage_run :
    cli_main (λ host. none) no_server true none (codes "redis-cli" ∷ [])
    ≡ some (record { code = 1; stdout = []; sent = none })
unfolding cli_main run_parsed run_command argv_copy parse_options default_config
usage_run = refl

-- An argument from a pipe is stored behind the bytes that are allocated for the arguments.
piped_run :
    cli_main (λ host. none) no_server true (some (codes "x")) (codes "redis-cli" ∷ codes "get" ∷ [])
    ≡ none
unfolding cli_main run_parsed run_command argv_copy parse_options default_config memcmp_eq
piped_run = refl
