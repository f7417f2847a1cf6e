-- ===== src/Redis/Saving.antt =====
-- `saveDb` of redis/src/redis.c with its files, and the commands SAVE, BGSAVE, SHUTDOWN and LASTSAVE. The
-- files are those of the server's directory. What the system answers is a parameter.
use homemade.Prelude.{ℕ, Bool, true, false, Option, none, some, [], if◌then◌else◌}
use homemade.Redis.Object.{Bytes, codes, memcmp_eq}
use homemade.Redis.Shared
use homemade.Redis.Strings.{number_line}
use homemade.Redis.State.{State, add_reply}
use homemade.Redis.Rdb.Write.{Output, save_db}

-- The content of a file by its name.
abbrev pub Files : Type 0
Files = Bytes → Option Bytes

unfoldable pub put_file : Bytes → Option Bytes → Files → Files
put_file name content files q = if memcmp_eq q name then content else files q

pub record Saver : Type 0 where
  pub state : State
  pub files : Files
  pub lastsave : ℕ
  pub bgsaveinprogress : Bool

-- What the calls of one save answer: the name that `time` and `random` make, whether `fopen` and `rename`
-- succeed, the bytes that the device takes, and `time`. `fallthrough` is about `writeOneDBToFile`, whose
-- body ends without a `return`. `stored` is what
-- the file holds behind `fclose` of the bytes that were written: the results of `fflush`, `fsync` and `fclose`
-- are not looked at, and what is left in the buffer can be lost there.
pub record Device : Type 0 where
  pub tmpfile : Bytes
  pub opens : Bool
  pub renames : Bool
  pub room : ℕ
  pub stored : Bytes → Bytes
  pub fallthrough : Bool
  pub now : ℕ

module _ (dev : Device) where
  -- The end of `saveDb`: `rename`, or `unlink`.
  unfoldable pub move_file : Bool → Bytes → Bytes → Saver → Bool × Saver
  unfolding put_file
  move_file true filename content s = (
    true,
    record s {
      state = record s.state { dirty = 0 };
      files = put_file dev.tmpfile none (put_file filename (some content) s.files);
      lastsave = dev.now;
    },
  )
  move_file false filename content s =
      (false, record s { files = put_file dev.tmpfile none s.files })

  -- What follows the writes; `werr` unlinks the temporary file, too.
  unfoldable pub after_writes : Bytes → Option Output → Saver → Bool × Saver
  unfolding put_file move_file
  after_writes filename none s = (false, record s { files = put_file dev.tmpfile none s.files })
  after_writes filename (some fp) s = move_file dev.renames filename (dev.stored fp.written) s

  unfoldable pub save_opened : Bool → Bytes → Saver → Bool × Saver
  unfolding after_writes
  save_opened false filename s = (false, s)
  save_opened true filename s =
      after_writes filename
        (save_db dev.fallthrough s.state.dicts (record { written = []; room = dev.room })) s

  -- `saveDb`, whether it returns REDIS_OK
  unfoldable pub save_db_file : Bytes → Saver → Bool × Saver
  unfolding save_opened
  save_db_file filename s = save_opened dev.opens filename s

  abbrev replied : Bytes → Saver → Saver
  replied r s = record s { state = add_reply r s.state }

  -- `saveCommand`
  unfoldable pub save_command : Bytes → Saver → Saver
  unfolding save_db_file
  save_command dbfilename s =
      let r = save_db_file dbfilename s in replied (if r.0 then Shared.ok else Shared.err) r.1

  -- `shutdownCommand`: the server exits, `none`, once the database is saved
  unfoldable pub shutdown_command : Bytes → Saver → Option Saver
  unfolding save_db_file
  shutdown_command dbfilename s =
      let r = save_db_file dbfilename s in
      if r.0 then none else some (replied (codes "-RR can't quit, problems saving the DB\r\n") r.1)

  -- `saveDbBackground` in the child that `fork` makes, on its copy of the memory: its exit code, and the
  -- files that it leaves
  unfoldable pub child_save : Bytes → Saver → ℕ × Files
  unfolding save_db_file
  child_save filename s = let r = save_db_file filename s in (if r.0 then 0 else 1, r.1.files)

abbrev pub background : Bool → Saver → Bool × Saver
background true s = (false, s)
background false s = (true, record s { bgsaveinprogress = true })

-- `saveDbBackground` in the parent, whether it returns REDIS_OK; a `fork` that fails is not noticed
unfoldable pub save_db_background : Saver → Bool × Saver
save_db_background s = background s.bgsaveinprogress s

-- `bgsaveCommand`
unfoldable pub bgsave_command : Saver → Saver
unfolding save_db_background
bgsave_command s =
    let r = save_db_background s in
    if s.bgsaveinprogress
    then record s {
      state = add_reply (codes "-ERR background save already in progress\r\n") s.state;
    }
    else record r.1 { state = add_reply (if r.0 then Shared.ok else Shared.err) r.1.state }

-- `lastsaveCommand`; the line reaches `addReply` as an `sds`
unfoldable pub lastsave_command : Saver → Saver
lastsave_command s = record s { state = add_reply (number_line s.lastsave) s.state }
