-- ===== src/Cli/Options.antt =====
-- The options of redis/src/redis-cli.c. `anetResolve`, which asks the resolver, is a parameter; its `none` is
-- `ANET_ERR`.
use homemade.Prelude.{ℕ, ◌+◌, Option, some, List, [], ◌∷◌, ◌>>=◌, if◌then◌else◌}
use homemade.Prelude.Int.{ℤ, pos}
use homemade.Redis.Object.{Bytes, codes, memcmp_eq}
use homemade.Redis.Decimal.{atoi}

-- `config`
pub record ClientConfig : Type 0 where
  pub hostip : Bytes
  pub hostport : ℤ

-- What `main` sets first.
unfoldable pub default_config : ClientConfig
default_config = record { hostip = codes "127.0.0.1"; hostport = pos 6379 }

-- `parseOptions`, on the arguments from index `i` on: the index of the first argument that is no option, and
-- the configuration; `none` is the exit where a host does not resolve
unfoldable pub parse_options :
    (Bytes → Option Bytes) → ℕ → List Bytes → ClientConfig → Option (ℕ × ClientConfig)
parse_options anet_resolve i [] config = some (i, config)
parse_options anet_resolve i (a ∷ []) config = some (i, config)
parse_options anet_resolve i (a ∷ b ∷ args) config =
    let host = anet_resolve b >>= λ ip.
    parse_options anet_resolve (i + 2) args (record config { hostip = ip }) in
    let port = parse_options anet_resolve (i + 2) args (record config { hostport = atoi b }) in
    if memcmp_eq a (codes "-h")
    then host
    else if memcmp_eq a (codes "-p")
    then port
    else some (i, config)
