-- ===== src/Redis/Rdb/Write.antt =====
-- `writeSdsToFile`, `writeListToFile`, `writeSetToFile`, `writeOneDBToFile` and the writes of `saveDb` in
-- redis/src/redis.c. A file is the bytes written so far and the bytes that the device still takes.
use homemade.Prelude.{
  ℕ, ◌+◌, ◌-◌, ◌/◌, ◌%◌, Bool, Option, none, some, List, [], ◌∷◌, ◌++◌, map, length, if◌then◌else◌,
  ◌>>=◌, ltb, leb, ◌==◌,
}
use homemade.Dict.Types.{Dict, Entry}
use homemade.Dict.Iterator.{visit, get_iterator}
use homemade.Redis.Object.{Bytes, codes, Obj, string, list, set_obj}
use homemade.Redis.State.{Db}

-- `htonl`, as the bytes that it leaves in memory
abbrev pub htonl : ℕ → Bytes
htonl n = (n / 16777216) % 256 ∷ (n / 65536) % 256 ∷ (n / 256) % 256 ∷ n % 256 ∷ []

pub record Output : Type 0 where
  pub written : Bytes
  pub room : ℕ

-- `fwrite(buf, n, 1, fp)`: `none` is the result 0, which it gives where it cannot write all or `n` is 0
unfoldable pub fwrite : Bytes → Output → Option Output
fwrite [] fp = none
fwrite (b ∷ bs) fp =
    if leb (length (b ∷ bs)) fp.room
    then some (record { written = fp.written ++ b ∷ bs; room = fp.room - length (b ∷ bs) })
    else none

-- `writeSdsToFile`
unfoldable pub write_sds_to_file : Bytes → Output → Option Output
unfolding fwrite
write_sds_to_file sval fp =
    fwrite (htonl (length sval)) fp >>= λ f. if ltb 0 (length sval) then fwrite sval f else some f

-- The loop of `writeListToFile` and of `writeSetToFile`, whose body is that of `writeSdsToFile`.
unfoldable pub write_elements : List Bytes → Output → Option Output
unfolding write_sds_to_file
write_elements [] fp = some fp
write_elements (x ∷ xs) fp = write_sds_to_file x fp >>= λ f. write_elements xs f

-- `writeListToFile`
unfoldable pub write_list_to_file : List Bytes → Output → Option Output
unfolding write_elements
write_list_to_file xs fp = fwrite (htonl (length xs)) fp >>= λ f. write_elements xs f

-- The entries that a `dictNext` loop sees; its fuel is enough, by `visit_all_but_last`.
abbrev pub seen : {V : Type 0} → Dict Bytes V → Option (List (Entry Bytes V))
seen d = visit (d.used + 1) (d.size + 1) d get_iterator

-- `writeSetToFile`
unfoldable pub write_set_to_file : Dict Bytes (Unit {0}) → Output → Option Output
unfolding write_elements
write_set_to_file d fp =
    fwrite (htonl d.used) fp >>= λ f. seen d >>= λ es. write_elements (map (λ e. e.key) es) f

abbrev pub type_byte : Obj → ℕ
type_byte (string b) = 0
type_byte (list xs) = 1
type_byte (set_obj d) = 2

unfoldable pub write_value : Obj → Output → Option Output
unfolding write_sds_to_file write_list_to_file write_set_to_file
write_value (string b) fp = write_sds_to_file b fp
write_value (list xs) fp = write_list_to_file xs fp
write_value (set_obj d) fp = write_set_to_file d fp

-- A round of `writeOneDBToFile`; the key is written without a test for the empty key.
unfoldable pub write_entry : Entry Bytes Obj → Output → Option Output
unfolding write_value
write_entry e fp = fwrite (type_byte e.val ∷ []) fp >>= λ f.
    fwrite (htonl (length e.key)) f >>= λ g. fwrite e.key g >>= λ h. write_value e.val h

unfoldable pub write_entries : List (Entry Bytes Obj) → Output → Option Output
unfolding write_entry
write_entries [] fp = some fp
write_entries (e ∷ es) fp = write_entry e fp >>= λ f. write_entries es f

-- `writeOneDBToFile`: `none` is REDIS_ERR, `some` the end of the body, which has no `return`
unfoldable pub write_one_db_to_file : Db → Output → Option Output
unfolding write_entries
write_one_db_to_file d fp = seen d >>= λ es. write_entries es fp

-- The loop of `saveDb`, from database `i` on. `fallthrough` tells whether what the caller reads where
-- `writeOneDBToFile` ends without a `return` is REDIS_OK.
unfoldable pub save_dbs : Bool → ℕ → List Db → Output → Option Output
unfolding write_one_db_to_file
save_dbs fallthrough i [] fp = some fp
save_dbs fallthrough i (d ∷ ds) fp =
    let rest = save_dbs fallthrough (i + 1) ds in
    if d.used == 0
    then rest fp
    else (fwrite (254 ∷ []) fp >>= λ f. fwrite (htonl i) f >>= λ g.
        write_one_db_to_file d g >>= λ h. if fallthrough then rest h else none)

-- `saveDb` on the temporary file: `none` is its `werr`
unfoldable pub save_db : Bool → List Db → Output → Option Output
unfolding save_dbs
save_db fallthrough dbs fp =
    fwrite (codes "REDIS0000") fp >>= λ f. save_dbs fallthrough 0 dbs f >>= λ g. fwrite (255 ∷ []) g
