-- ===== src/Cli/Table.antt =====
-- The command table of redis/src/redis-cli.c. The `REDIS_CMD_` flags of a command are whether its last
-- argument goes out in bulk, and the kind of its reply.
use homemade.Prelude.{Bool, true, false, Option, none, some, List, [], ◌∷◌, map, if◌then◌else◌}
use homemade.Prelude.Int.{ℤ, pos, negsuc}
use homemade.Sds.Ops.{tolower}
use homemade.Redis.Object.{Bytes, codes, memcmp_eq}

pub data ReplyKind : Type 0 where
  int_reply retcode_reply bulk_reply multibulk_reply singleline_reply : ReplyKind

-- `struct redisCommand`
pub record Command : Type 0 where
  pub name : Bytes
  pub arity : ℤ
  pub bulk : Bool
  pub reply : ReplyKind

abbrev inline_command : Bytes → ℤ → ReplyKind → Command
inline_command name arity reply = record { name = name; arity = arity; bulk = false; reply = reply }

abbrev bulk_command : Bytes → ℤ → ReplyKind → Command
bulk_command name arity reply = record { name = name; arity = arity; bulk = true; reply = reply }

-- `cmdTable`
unfoldable pub cmd_table : List Command
cmd_table =
    inline_command (codes "get") (pos 2) bulk_reply
    ∷ bulk_command (codes "set") (pos 3) retcode_reply
    ∷ bulk_command (codes "setnx") (pos 3) int_reply
    ∷ inline_command (codes "del") (pos 2) int_reply
    ∷ inline_command (codes "exists") (pos 2) int_reply
    ∷ inline_command (codes "incr") (pos 2) int_reply
    ∷ inline_command (codes "decr") (pos 2) int_reply
    ∷ bulk_command (codes "rpush") (pos 3) retcode_reply
    ∷ bulk_command (codes "lpush") (pos 3) retcode_reply
    ∷ inline_command (codes "rpop") (pos 2) bulk_reply
    ∷ inline_command (codes "lpop") (pos 2) bulk_reply
    ∷ inline_command (codes "llen") (pos 2) int_reply
    ∷ inline_command (codes "lindex") (pos 3) bulk_reply
    ∷ bulk_command (codes "lset") (pos 4) retcode_reply
    ∷ inline_command (codes "lrange") (pos 4) multibulk_reply
    ∷ inline_command (codes "ltrim") (pos 4) retcode_reply
    ∷ bulk_command (codes "lrem") (pos 4) int_reply
    ∷ bulk_command (codes "sadd") (pos 3) int_reply
    ∷ bulk_command (codes "srem") (pos 3) int_reply
    ∷ bulk_command (codes "sismember") (pos 3) int_reply
    ∷ inline_command (codes "scard") (pos 2) int_reply
    ∷ inline_command (codes "sinter") (negsuc 1) multibulk_reply
    ∷ inline_command (codes "sinterstore") (negsuc 2) retcode_reply
    ∷ inline_command (codes "smembers") (pos 2) multibulk_reply
    ∷ inline_command (codes "incrby") (pos 3) int_reply
    ∷ inline_command (codes "decrby") (pos 3) int_reply
    ∷ inline_command (codes "randomkey") (pos 1) singleline_reply
    ∷ inline_command (codes "select") (pos 2) retcode_reply
    ∷ inline_command (codes "move") (pos 3) int_reply
    ∷ inline_command (codes "rename") (pos 3) retcode_reply
    ∷ inline_command (codes "renamenx") (pos 3) int_reply
    ∷ inline_command (codes "keys") (pos 2) bulk_reply
    ∷ inline_command (codes "dbsize") (pos 1) int_reply
    ∷ inline_command (codes "ping") (pos 1) retcode_reply
    ∷ bulk_command (codes "echo") (pos 2) bulk_reply
    ∷ inline_command (codes "save") (pos 1) retcode_reply
    ∷ inline_command (codes "bgsave") (pos 1) retcode_reply
    ∷ inline_command (codes "shutdown") (pos 1) retcode_reply
    ∷ inline_command (codes "lastsave") (pos 1) int_reply
    ∷ inline_command (codes "type") (pos 2) singleline_reply
    ∷ inline_command (codes "flushdb") (pos 1) retcode_reply
    ∷ inline_command (codes "flushall") (pos 1) retcode_reply
    ∷ inline_command (codes "sort") (negsuc 1) multibulk_reply
    ∷ inline_command (codes "version") (pos 1) singleline_reply
    ∷ []

-- The loop of `lookupCommand`, with `strcasecmp` on the letters of ASCII.
unfoldable pub lookup_in : Bytes → List Command → Option Command
lookup_in name [] = none
lookup_in name (c ∷ cs) =
    let rest = lookup_in name cs in
    if memcmp_eq (map tolower name) (map tolower c.name) then some c else rest

-- `lookupCommand`
unfoldable pub lookup_command : Bytes → Option Command
unfolding lookup_in cmd_table
lookup_command name = lookup_in name cmd_table
