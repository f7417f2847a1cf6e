-- ===== src/Redis/ConfigLaws.antt =====
-- What a configuration that redis/src/redis.c loads promises.
use homemade.Prelude.{
  ℕ, ◌+◌, ◌≤◌, ◌≡◌, refl, Bool, true, false, ◌||◌, Option, none, some, List, [], ◌∷◌, ◌++◌, arith,
  map, if◌then◌else◌, ◌>>=◌, ◌==◌, get_or, take, Bool-cases, inl, inr,
}
use homemade.Prelude.Int.{ℤ, pos, negsuc, ltb_ℤ}
use homemade.Sds.Ops.{Sds, tolower, strlen}
use homemade.Sds.Split.{sds_splitlen}
use homemade.Sds.Trim.{sds_newlen-IsSds, strlen-length, sds_trim-IsSds}
use homemade.Redis.Object.{Bytes, codes, memcmp_eq}
use homemade.Redis.Decimal.{atoi}
use homemade.Redis.Config.{
  SaveParam, Config, Directive, configured, loaderr, exited, ConfigLoad, loaded, failed, stopped,
  faulty, init_server_config, append_server_save_params, reset_server_save_params, set_timeout,
  set_port, set_databases, set_loglevel, set_logfile, add_save, yes_no, directive_one,
  directive_two, directive, config_line, with_line, trimmed, load_rest, load_lines,
  load_server_config, start_config,
}

-- A number from `low` on, and one from `low` to `high`.
abbrev pub IsFrom : ℕ → ℤ → Type 0
IsFrom low z = (n : ℕ) × (z ≡ pos n) × (low ≤ n)

abbrev pub IsBetween : ℕ → ℕ → ℤ → Type 0
IsBetween low high z = (n : ℕ) × (z ≡ pos n) × (low ≤ n) × (n ≤ high)

abbrev pub AllSound : List SaveParam → Type 0
AllSound [] = Unit
AllSound (sp ∷ sps) = IsFrom 1 sp.seconds × IsFrom 0 sp.changes × AllSound sps

-- A port that TCP has, a positive timeout, at least one database, a known log level, and save parameters
-- of at least one second and no negative count.
abbrev pub AreSound : ℤ → ℤ → ℤ → ℕ → List SaveParam → Type 0
AreSound port timeout databases verbosity saves =
    IsBetween 1 65535 port
    × IsFrom 1 timeout
    × IsFrom 1 databases
    × (verbosity ≤ 2)
    × AllSound saves

abbrev pub IsSound : Config → Type 0
IsSound cf = AreSound cf.port cf.maxidletime cf.dbnum cf.verbosity cf.saveparams

abbrev pub IsSoundDirective : Directive → Type 0
IsSoundDirective (configured cf) = IsSound cf
IsSoundDirective (loaderr err) = Unit
IsSoundDirective exited = Unit

-- The start goes on only with a sound configuration.
abbrev pub IsSoundStart : ConfigLoad → Type 0
IsSoundStart (loaded cf) = IsSound cf
IsSoundStart (failed linenum err) = Unit
IsSoundStart stopped = Unit
IsSoundStart faulty = ⊥

ltb_ℤ-IsFrom : (low : ℕ) (z : ℤ) → ltb_ℤ z (pos low) ≡ false → IsFrom low z
ltb_ℤ-IsFrom low (pos n) h = (n, refl, ground arith)
ltb_ℤ-IsFrom low (negsuc n) h = ground arith

AllSound-append : (a b : List SaveParam) → AllSound a → AllSound b → AllSound (a ++ b)
AllSound-append [] b h k = k
AllSound-append (sp ∷ a) b h k = (h.0, h.1, AllSound-append a b h.2 k)

set_timeout-IsSound : (z : ℤ) (cf : Config) → IsSound cf → IsSoundDirective (set_timeout z cf)
unfolding set_timeout
set_timeout-IsSound z cf s = elim (Bool-cases (ltb_ℤ z (pos 1))) [
  | inl e ↦ rw e tt
  | inr e ↦ rw e (s.0, ltb_ℤ-IsFrom 1 z e, s.2, s.3, s.4)
]

set_databases-IsSound : (z : ℤ) (cf : Config) → IsSound cf → IsSoundDirective (set_databases z cf)
unfolding set_databases
set_databases-IsSound z cf s = elim (Bool-cases (ltb_ℤ z (pos 1))) [
  | inl e ↦ rw e tt
  | inr e ↦ rw e (s.0, s.1, ltb_ℤ-IsFrom 1 z e, s.3, s.4)
]

ltb_ℤ-IsBetween :
    (low high : ℕ) (z : ℤ)
    → (ltb_ℤ z (pos low) || ltb_ℤ (pos high) z) ≡ false
    → IsBetween low high z
ltb_ℤ-IsBetween low high (pos n) h = (n, refl, ground arith, ground arith)
ltb_ℤ-IsBetween low high (negsuc n) h = ground arith

set_port-IsSound : (z : ℤ) (cf : Config) → IsSound cf → IsSoundDirective (set_port z cf)
unfolding set_port
set_port-IsSound z cf s = elim (Bool-cases (ltb_ℤ z (pos 1) || ltb_ℤ (pos 65535) z)) [
  | inl e ↦ rw e tt
  | inr e ↦ rw e (ltb_ℤ-IsBetween 1 65535 z e, s.1, s.2, s.3, s.4)
]

add_save-IsSound : (a b : ℤ) (cf : Config) → IsSound cf → IsSoundDirective (add_save a b cf)
unfolding add_save append_server_save_params
add_save-IsSound a b cf s = elim (Bool-cases (ltb_ℤ a (pos 1) || ltb_ℤ b (pos 0))) [
  | inl e ↦ rw e tt
  | inr e ↦ rw e (
    s.0,
    s.1,
    s.2,
    s.3,
    AllSound-append cf.saveparams (record { seconds = a; changes = b } ∷ []) s.4
        (ltb_ℤ-IsFrom 1 a (ground (arith, e)), ltb_ℤ-IsFrom 0 b (ground (arith, e)), tt),
  )
]

-- A choice between two outcomes.
if-IsSoundDirective :
    (b : Bool) (x y : Directive)
    → IsSoundDirective x
    → IsSoundDirective y
    → IsSoundDirective (if b then x else y)
if-IsSoundDirective true x y h k = h
if-IsSoundDirective false x y h k = k

set_loglevel-IsSound :
    (arg : Bytes) (cf : Config) → IsSound cf → IsSoundDirective (set_loglevel arg cf)
unfolding set_loglevel
set_loglevel-IsSound arg cf s =
    if-IsSoundDirective (memcmp_eq arg (codes "debug")) _ _ (s.0, s.1, s.2, omega arith, s.4)
      (if-IsSoundDirective (memcmp_eq arg (codes "notice")) _ _ (s.0, s.1, s.2, omega arith, s.4)
        (if-IsSoundDirective (memcmp_eq arg (codes "warning")) _ _ (s.0, s.1, s.2, omega arith, s.4)
          tt))

yes_no-IsSound :
    (f : Bool → Config) (arg : Bytes)
    → IsSound (f true)
    → IsSound (f false)
    → IsSoundDirective (yes_no f arg)
unfolding yes_no
yes_no-IsSound f arg h k =
    if-IsSoundDirective (memcmp_eq (map tolower arg) (codes "yes")) _ _ h
      (if-IsSoundDirective (memcmp_eq (map tolower arg) (codes "no")) _ _ k tt)

module _ (chdir : Bytes → Bool) (can_open : Bytes → Bool) where
  directive_one-IsSound :
      (name arg : Bytes) (cf : Config)
      → IsSound cf
      → IsSoundDirective (directive_one chdir can_open name arg cf)
  unfolding directive_one set_logfile
  directive_one-IsSound name arg cf s =
      let z = atoi arg in
      if-IsSoundDirective (memcmp_eq name (codes "timeout")) _ _ (set_timeout-IsSound z cf s) (
        if-IsSoundDirective (memcmp_eq name (codes "port")) _ _ (set_port-IsSound z cf s) (
          if-IsSoundDirective (memcmp_eq name (codes "bind")) _ _ s (
            if-IsSoundDirective (memcmp_eq name (codes "dir")) _ _
              (if-IsSoundDirective (chdir arg) _ _ s tt)
              (if-IsSoundDirective (memcmp_eq name (codes "loglevel")) _ _
                (set_loglevel-IsSound arg cf s)
                (if-IsSoundDirective (memcmp_eq name (codes "logfile")) _ _
                  (if-IsSoundDirective (memcmp_eq arg (codes "stdout")) _ _ s
                    (if-IsSoundDirective (can_open arg) _ _ s tt))
                  (if-IsSoundDirective (memcmp_eq name (codes "databases")) _ _
                    (set_databases-IsSound z cf s)
                    (if-IsSoundDirective (memcmp_eq name (codes "glueoutputbuf")) _ _
                      (yes_no-IsSound (λ b. record cf { glueoutputbuf = b }) arg s s)
                      (if-IsSoundDirective (memcmp_eq name (codes "daemonize")) _ _
                        (yes_no-IsSound (λ b. record cf { daemonize = b }) arg s s) tt))))))))

  directive-IsSound :
      (argv : List Bytes) (cf : Config)
      → IsSound cf
      → IsSoundDirective (directive chdir can_open argv cf)
  unfolding directive directive_two
  directive-IsSound [] cf s = tt
  directive-IsSound (name ∷ []) cf s = tt
  directive-IsSound (name ∷ arg ∷ []) cf s = directive_one-IsSound (map tolower name) arg cf s
  directive-IsSound (name ∷ a ∷ b ∷ []) cf s =
      if-IsSoundDirective (memcmp_eq (map tolower name) (codes "save")) _ _
        (add_save-IsSound (atoi a) (atoi b) cf s)
        (if-IsSoundDirective (memcmp_eq (map tolower name) (codes "slaveof")) _ _ s tt)
  directive-IsSound (name ∷ a ∷ b ∷ c ∷ argv) cf s = tt

  config_line-IsSound :
      (line : Sds) (cf : Config)
      → IsSound cf
      → IsSoundDirective (config_line chdir can_open line cf)
  unfolding config_line
  config_line-IsSound line cf s =
      if-IsSoundDirective ((get_or line.buf 0 0 == 35) || (get_or line.buf 0 0 == 0)) _ _ s
        (directive-IsSound (sds_splitlen (take line.len line.buf) (32 ∷ [])) cf s)

  load_rest-IsSound :
      (linenum : ℕ) (o : Directive) (more : Config → ConfigLoad)
      → IsSoundDirective o
      → ((cf : Config) → IsSound cf → IsSoundStart (more cf))
      → IsSoundStart (load_rest chdir can_open linenum o more)
  unfolding load_rest
  load_rest-IsSound linenum (configured cf) more h k = k cf h
  load_rest-IsSound linenum (loaderr err) more h k = tt
  load_rest-IsSound linenum exited more h k = tt

  load_lines-IsSound :
      (linenum : ℕ) (bufs : List Bytes) (cf : Config)
      → IsSound cf
      → IsSoundStart (load_lines chdir can_open linenum bufs cf)
  unfolding load_lines with_line trimmed
  load_lines-IsSound linenum [] cf s = s
  load_lines-IsSound linenum (buf ∷ bufs) cf s =
      let ended = buf ++ 0 ∷ [] in
      let (new, made, v, _) = sds_newlen-IsSds ended (strlen ended) (strlen-length ended) in
      let (line, run, _, _) = sds_trim-IsSds (32 ∷ 9 ∷ 13 ∷ 10 ∷ []) new v in
      rw (made, ◌>>=◌, run, with_line)
        (load_rest-IsSound (linenum + 1) (config_line chdir can_open line cf)
          (λ cf'. load_lines chdir can_open (linenum + 1) bufs cf') (config_line-IsSound line cf s)
          (λ cf' s'. load_lines-IsSound (linenum + 1) bufs cf' s'))

  -- Whatever the configuration file holds, and whatever the file system answers, the start stays within
  -- the bytes of each line and goes on only with a sound configuration: a port from 1 to 65535, a timeout
  -- of at least a second, at least one database, one of the three log levels, and save parameters of at
  -- least one second and no negative count. It goes on without a file, too.
  pub start_config-IsSound :
      (file : Option (Option (List Bytes))) → IsSoundStart (start_config chdir can_open file)
  unfolding start_config init_server_config append_server_save_params reset_server_save_params
      load_server_config
  start_config-IsSound none = (
    (6379, refl, omega arith, omega arith),
    (300, refl, omega arith),
    (16, refl, omega arith),
    omega arith,
    (
      (3600, refl, omega arith),
      (1, refl, omega arith),
      (
        (300, refl, omega arith),
        (100, refl, omega arith),
        ((60, refl, omega arith), (10000, refl, omega arith), tt),
      ),
    ),
  )
  start_config-IsSound (some none) = tt
  start_config-IsSound (some (some bufs)) = load_lines-IsSound 0 bufs _ (
    (6379, refl, omega arith, omega arith),
    (300, refl, omega arith),
    (16, refl, omega arith),
    omega arith,
    tt,
  )
