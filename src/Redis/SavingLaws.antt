-- ===== src/Redis/SavingLaws.antt =====
-- Saving replaces the dump file at once or not at all.
use homemade.Prelude.{◌≡◌, refl, ap, Bool, true, false, none, some, [], inl, inr, Option-cases}
use homemade.Redis.Object.{Bytes, memcmp_eq, memcmp_eq_iff}
use homemade.Redis.Rdb.Write.{Output, save_db}
use homemade.Redis.Saving.{
  Files, put_file, Saver, Device, move_file, after_writes, save_opened, save_db_file,
}

-- All files but two are as they were.
abbrev pub KeepsFiles : Bytes → Bytes → Files → Files → Type 0
KeepsFiles a b before after =
    (q : Bytes) → memcmp_eq q a ≡ false → memcmp_eq q b ≡ false → after q ≡ before q

-- A save that succeeded: the file is the whole dump, and the server counts from now on.
pub record IsSaved (dev : Device) (filename : Bytes) (s t : Saver) : Type 0 where
  pub output : Output
  pub dumped :
      save_db dev.fallthrough s.state.dicts (record { written = []; room = dev.room }) ≡ some output
  pub content : t.files filename ≡ some output.written
  pub clean : t.state.dirty ≡ 0
  pub lastsave : t.lastsave ≡ dev.now

-- A save that failed: the file is as it was, and so are the counters.
pub record IsUnsaved (filename : Bytes) (s t : Saver) : Type 0 where
  pub content : t.files filename ≡ s.files filename
  pub dirty : t.state.dirty ≡ s.state.dirty
  pub lastsave : t.lastsave ≡ s.lastsave

abbrev pub SaveResult : Device → Bytes → Saver → Bool × Saver → Type 0
SaveResult dev filename s (true, t) = IsSaved dev filename s t
SaveResult dev filename s (false, t) = IsUnsaved filename s t

module _ (dev : Device) (filename : Bytes) (apart : memcmp_eq filename dev.tmpfile ≡ false)
    (flushed : (b : Bytes) → dev.stored b ≡ b) where
  same_name : memcmp_eq filename filename ≡ true
  same_name = (memcmp_eq_iff filename filename).1 refl

  unlinked :
      (s : Saver) → IsUnsaved filename s (record s { files = put_file dev.tmpfile none s.files })
  unfolding put_file
  unlinked s = record { content = rw apart refl; dirty = refl; lastsave = refl }

  move_file-SaveResult :
      (b : Bool) (output : Output) (s : Saver)
      → save_db dev.fallthrough s.state.dicts (record { written = []; room = dev.room })
        ≡ some output
      → SaveResult dev filename s (move_file dev b filename (dev.stored output.written) s)
  unfolding move_file put_file
  move_file-SaveResult false output s dumped = unlinked s
  move_file-SaveResult true output s dumped = record {
    output = output;
    dumped = dumped;
    content = rw (apart, same_name) (ap some (flushed output.written));
    clean = refl;
    lastsave = refl;
  }

  save_opened-SaveResult :
      (b : Bool) (s : Saver) → SaveResult dev filename s (save_opened dev b filename s)
  unfolding save_opened after_writes
  save_opened-SaveResult false s = record { content = refl; dirty = refl; lastsave = refl }
  save_opened-SaveResult true s =
      elim (Option-cases
        (save_db dev.fallthrough s.state.dicts (record { written = []; room = dev.room }))) [
          | inl failed ↦ rw (failed, after_writes) (unlinked s)
          | inr (output, dumped) ↦
              rw (dumped, after_writes) (move_file-SaveResult dev.renames output s dumped)
        ]

  unlinked_others :
      (s : Saver) (files : Files)
      → KeepsFiles filename dev.tmpfile s.files files
      → KeepsFiles filename dev.tmpfile s.files (put_file dev.tmpfile none files)
  unfolding put_file
  unlinked_others s files keeps q a b = rw b (keeps q a b)

  moved :
      (b : Bool) (output : Output) (s : Saver)
      → KeepsFiles filename dev.tmpfile s.files
          (move_file dev b filename (dev.stored output.written) s).1.files
  unfolding move_file put_file
  moved false output s = unlinked_others s s.files (λ q a b. refl)
  moved true output s =
      unlinked_others s (put_file filename (some (dev.stored output.written)) s.files)
        (λ q a b. rw a refl)

  save_opened-KeepsFiles :
      (b : Bool) (s : Saver)
      → KeepsFiles filename dev.tmpfile s.files (save_opened dev b filename s).1.files
  unfolding save_opened after_writes
  save_opened-KeepsFiles false s = λ q a b. refl
  save_opened-KeepsFiles true s =
      elim (Option-cases
        (save_db dev.fallthrough s.state.dicts (record { written = []; room = dev.room }))) [
          | inl failed ↦ rw (failed, after_writes) (unlinked_others s s.files (λ q a b. refl))
          | inr (output, dumped) ↦ rw (dumped, after_writes) (moved dev.renames output s)
        ]

  -- For a temporary file with another name than the dump, on a device that at `fclose` holds all the bytes
  -- written, which the code does not test: `saveDb` replaces the dump by a whole one, and
  -- the server counts changes from there, or it fails and leaves the dump and the counters as they were. It
  -- changes no other file but its temporary one.
  pub save_db_file-IsAtomic :
      (s : Saver)
      → SaveResult dev filename s (save_db_file dev filename s)
        × KeepsFiles filename dev.tmpfile s.files (save_db_file dev filename s).1.files
  unfolding save_db_file
  save_db_file-IsAtomic s = (save_opened-SaveResult dev.opens s, save_opened-KeepsFiles dev.opens s)
