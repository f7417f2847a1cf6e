-- ===== src/Redis/Config.antt =====
-- The configuration of redis/src/redis.c: `initServerConfig`, the save parameters and `loadServerConfig`.
-- The buffers that `fgets` fills are the lines of the file, each up to its zero; `chdir` and the test of
-- the log file are parameters, as the file system answers them.
use homemade.Prelude.{
  ℕ, ◌+◌, Bool, true, false, ◌||◌, Option, none, some, List, [], ◌∷◌, ◌++◌, map, take,
  if◌then◌else◌, ◌>>=◌, ◌==◌, get_or,
}
use homemade.Prelude.Int.{ℤ, pos, ltb_ℤ}
use homemade.Sds.Ops.{Sds, sds_newlen, sds_trim, strlen, tolower}
use homemade.Sds.Split.{sds_splitlen}
use homemade.Redis.Object.{Bytes, codes, memcmp_eq}
use homemade.Redis.Decimal.{atoi}

-- `struct saveparam`
pub record SaveParam : Type 0 where
  pub seconds : ℤ
  pub changes : ℤ

-- `REDIS_REPL_NONE`, `REDIS_REPL_CONNECT` and `REDIS_REPL_CONNECTED`
pub data ReplState : Type 0 where
  repl_none repl_connect repl_connected : ReplState

-- The configuration of `struct redisServer`.
pub record Config : Type 0 where
  pub port : ℤ
  pub verbosity : ℕ
  pub glueoutputbuf : Bool
  pub maxidletime : ℤ
  pub dbnum : ℤ
  pub daemonize : Bool
  pub saveparams : List SaveParam
  pub logfile : Option Bytes
  pub bindaddr : Option Bytes
  pub dbfilename : Bytes
  pub isslave : Bool
  pub masterhost : Option Bytes
  pub masterport : ℤ
  pub replstate : ReplState

-- `appendServerSaveParams`
unfoldable pub append_server_save_params : ℤ → ℤ → Config → Config
append_server_save_params seconds changes cf = record cf {
  saveparams = cf.saveparams ++ record { seconds = seconds; changes = changes } ∷ [];
}

-- `ResetServerSaveParams`
unfoldable pub reset_server_save_params : Config → Config
reset_server_save_params cf = record cf { saveparams = [] }

-- `initServerConfig`
unfoldable pub init_server_config : Config
unfolding append_server_save_params reset_server_save_params
init_server_config = append_server_save_params (pos 60) (pos 10000) (
    append_server_save_params (pos 300) (pos 100) (
      append_server_save_params (pos 3600) (pos 1) (
        reset_server_save_params (record {
          port = pos 6379;
          verbosity = 0;
          glueoutputbuf = true;
          maxidletime = pos 300;
          dbnum = pos 16;
          daemonize = false;
          saveparams = [];
          logfile = none;
          bindaddr = none;
          dbfilename = codes "dump.rdb";
          isslave = false;
          masterhost = none;
          masterport = pos 6379;
          replstate = repl_none;
        }))))

-- A directive: the configuration after it, the jump to `loaderr` with a message, or `exit(1)`.
pub data Directive : Type 0 where
  configured : Config → Directive
  loaderr : Bytes → Directive
  exited : Directive

-- `'yes'` or `'no'`
unfoldable pub yes_no : (Bool → Config) → Bytes → Directive
unfolding memcmp_eq
yes_no f arg =
    if memcmp_eq (map tolower arg) (codes "yes")
    then configured (f true)
    else if memcmp_eq (map tolower arg) (codes "no")
    then configured (f false)
    else loaderr (codes "argument must be 'yes' or 'no'")

unfoldable pub set_timeout : ℤ → Config → Directive
set_timeout z cf =
    if ltb_ℤ z (pos 1)
    then loaderr (codes "Invalid timeout value")
    else configured (record cf { maxidletime = z })

unfoldable pub set_port : ℤ → Config → Directive
set_port z cf =
    if ltb_ℤ z (pos 1) || ltb_ℤ (pos 65535) z
    then loaderr (codes "Invalid port")
    else configured (record cf { port = z })

unfoldable pub set_databases : ℤ → Config → Directive
set_databases z cf =
    if ltb_ℤ z (pos 1)
    then loaderr (codes "Invalid number of databases")
    else configured (record cf { dbnum = z })

unfoldable pub set_loglevel : Bytes → Config → Directive
unfolding memcmp_eq
set_loglevel arg cf =
    if memcmp_eq arg (codes "debug")
    then configured (record cf { verbosity = 0 })
    else if memcmp_eq arg (codes "notice")
    then configured (record cf { verbosity = 1 })
    else if memcmp_eq arg (codes "warning")
    then configured (record cf { verbosity = 2 })
    else loaderr (codes "Invalid log level. Must be one of debug, notice, warning")

unfoldable pub add_save : ℤ → ℤ → Config → Directive
unfolding append_server_save_params
add_save seconds changes cf =
    if ltb_ℤ seconds (pos 1) || ltb_ℤ changes (pos 0)
    then loaderr (codes "Invalid save parameters")
    else configured (append_server_save_params seconds changes cf)

-- What `loadServerConfig` ends with: the error goes with the number of its line. `faulty` is an access out
-- of the bytes of a line.
pub data ConfigLoad : Type 0 where
  loaded : Config → ConfigLoad
  failed : ℕ → Bytes → ConfigLoad
  stopped faulty : ConfigLoad

-- `chdir` and the test of the log file: whether they succeed.
module _ (chdir : Bytes → Bool) (can_open : Bytes → Bool) where
  unfoldable pub set_logfile : Bytes → Config → Directive
  unfolding memcmp_eq
  set_logfile arg cf =
      if memcmp_eq arg (codes "stdout")
      then configured (record cf { logfile = none })
      else if can_open arg
      then configured (record cf { logfile = some arg })
      else loaderr (codes "Can't open the log file: ")

  -- The directives of one argument.
  unfoldable pub directive_one : Bytes → Bytes → Config → Directive
  unfolding memcmp_eq set_timeout set_port set_loglevel set_logfile set_databases yes_no
  directive_one name arg cf =
      if memcmp_eq name (codes "timeout")
      then set_timeout (atoi arg) cf
      else if memcmp_eq name (codes "port")
      then set_port (atoi arg) cf
      else if memcmp_eq name (codes "bind")
      then configured (record cf { bindaddr = some arg })
      else if memcmp_eq name (codes "dir")
      then if chdir arg then configured cf else exited
      else if memcmp_eq name (codes "loglevel")
      then set_loglevel arg cf
      else if memcmp_eq name (codes "logfile")
      then set_logfile arg cf
      else if memcmp_eq name (codes "databases")
      then set_databases (atoi arg) cf
      else if memcmp_eq name (codes "glueoutputbuf")
      then yes_no (λ b. record cf { glueoutputbuf = b }) arg
      else if memcmp_eq name (codes "daemonize")
      then yes_no (λ b. record cf { daemonize = b }) arg
      else loaderr (codes "Bad directive or wrong number of arguments")

  -- The directives of two arguments.
  unfoldable pub directive_two : Bytes → Bytes → Bytes → Config → Directive
  unfolding memcmp_eq add_save
  directive_two name a b cf =
      if memcmp_eq name (codes "save")
      then add_save (atoi a) (atoi b) cf
      else if memcmp_eq name (codes "slaveof")
      then configured
          (record cf { masterhost = some a; masterport = atoi b; replstate = repl_connect })
      else loaderr (codes "Bad directive or wrong number of arguments")

  -- The chain of directives, on the words of a line.
  unfoldable pub directive : List Bytes → Config → Directive
  unfolding directive_one directive_two
  directive (name ∷ arg ∷ []) cf = directive_one (map tolower name) arg cf
  directive (name ∷ a ∷ b ∷ []) cf = directive_two (map tolower name) a b cf
  directive argv cf = loaderr (codes "Bad directive or wrong number of arguments")

  -- A line of the file, trimmed.
  unfoldable pub config_line : Sds → Config → Directive
  unfolding directive
  config_line line cf =
      if (get_or line.buf 0 0 == 35) || (get_or line.buf 0 0 == 0)
      then configured cf
      else directive (sds_splitlen (take line.len line.buf) (32 ∷ [])) cf

  unfoldable pub load_rest : ℕ → Directive → (Config → ConfigLoad) → ConfigLoad
  load_rest linenum (configured cf) more = more cf
  load_rest linenum (loaderr err) more = failed linenum err
  load_rest linenum exited more = stopped

  unfoldable pub with_line : Option Sds → (Sds → ConfigLoad) → ConfigLoad
  with_line none more = faulty
  with_line (some line) more = more line

  -- `sdsnew(buf)` and `sdstrim` of a buffer.
  unfoldable pub trimmed : Bytes → Option Sds
  trimmed buf = sds_newlen (buf ++ 0 ∷ []) (strlen (buf ++ 0 ∷ [])) >>= λ s.
      sds_trim (32 ∷ 9 ∷ 13 ∷ 10 ∷ []) s

  -- The loop over the lines, from line number `linenum + 1` on.
  unfoldable pub load_lines : ℕ → List Bytes → Config → ConfigLoad
  load_lines linenum [] cf = loaded cf
  load_lines linenum (buf ∷ bufs) cf = with_line (trimmed buf) (λ line.
      load_rest (linenum + 1) (config_line line cf) (λ cf'. load_lines (linenum + 1) bufs cf'))

  -- `loadServerConfig`; `none` is a file that does not open
  unfoldable pub load_server_config : Option (List Bytes) → Config → ConfigLoad
  unfolding load_lines
  load_server_config none cf = stopped
  load_server_config (some bufs) cf = load_lines 0 bufs cf

  -- The first part of `main`: with a configuration file, or without.
  unfoldable pub start_config : Option (Option (List Bytes)) → ConfigLoad
  unfolding load_server_config init_server_config reset_server_save_params
  start_config none = loaded init_server_config
  start_config (some file) = load_server_config file (reset_server_save_params init_server_config)
