-- ===== src/Redis/Rdb/RoundTrip.antt =====
-- The entries of a database in a dump: what `writeOneDBToFile` writes, and what `loadOneDbFromFile` makes of
-- that.
use homemade.Prelude.{
  ℕ, zero, suc, ◌+◌, ◌≤◌, ◌<◌, ◌≡◌, refl, sym, ap, ◌∙◌, true, false, ◌||◌, Option, none, some, List,
  [], ◌∷◌, ◌++◌, arith, length, if◌then◌else◌, >>=-eq-some, ◌==◌, length-append, append_assoc,
  append-nil,
}
use homemade.Dict.Types.{Entry, dict_ok, value_of, compare_hash_keys, set_hash_val}
use homemade.Dict.Ops.{find, add}
use homemade.Dict.Grow.{IsValid}
use homemade.Dict.Add.{max_size, IsAdded, add-IsAdded}
use homemade.Redis.Object.{
  Bytes, Obj, string, list, set_obj, hash_dict_type, hash_dict_type-IsLawful,
}
use homemade.Redis.State.{Db}
use homemade.Redis.Rdb.Write.{
  htonl, Output, fwrite, type_byte, write_value, write_entry, write_entries,
}
use homemade.Redis.Rdb.Load.{
  done, ◌then◌, read_value, insert_value, read_entry, status, go_on, load_entries,
}
use homemade.Redis.Rdb.Laws.{
  Gains, Gains-trans, fwrite-eq, write_sds_to_file-Gains, write_list_to_file-Gains, read_list_bytes,
  read_sds_bytes, sds_bytes, list_bytes, AllShort,
}

abbrev pub DbEntry : Type 0
DbEntry = Entry Bytes Obj

-- A string or a list whose lengths fit 32 bits.
abbrev pub IsPlain : Obj → Type 0
IsPlain (string b) = length b < 4294967296
IsPlain (list xs) = (length xs < 4294967296) × AllShort xs
IsPlain (set_obj d) = ⊥

abbrev value_bytes : Obj → Bytes
value_bytes (string b) = sds_bytes b
value_bytes (list xs) = list_bytes xs
value_bytes (set_obj d) = []

abbrev entry_bytes : DbEntry → Bytes
entry_bytes e = type_byte e.val ∷ (sds_bytes e.key ++ value_bytes e.val)

abbrev pub entries_bytes : List DbEntry → Bytes
entries_bytes [] = []
entries_bytes (e ∷ es) = entry_bytes e ++ entries_bytes es

write_value-Gains :
    (o : Obj) (fp fp' : Output)
    → IsPlain o
    → write_value o fp ≡ some fp'
    → Gains fp fp' (value_bytes o)
unfolding write_value
write_value-Gains (string b) fp fp' plain run = write_sds_to_file-Gains b fp fp' run
write_value-Gains (list xs) fp fp' plain run = write_list_to_file-Gains xs fp fp' run
write_value-Gains (set_obj d) fp fp' plain run = absurd plain

write_entry-Gains :
    (e : DbEntry) (fp fp' : Output)
    → IsPlain e.val
    → write_entry e fp ≡ some fp'
    → Gains fp fp' (entry_bytes e)
unfolding write_entry
write_entry-Gains e fp fp' plain run =
    let (f, p, run') = >>=-eq-some (fwrite (type_byte e.val ∷ []) fp) _ run in
    let (g, q, run'') = >>=-eq-some (fwrite (htonl (length e.key)) f) _ run' in
    let (h, r, last) = >>=-eq-some (fwrite e.key g) _ run'' in
    let key =
      Gains-trans f g h (htonl (length e.key)) e.key (fwrite-eq (htonl (length e.key)) f g q)
        (fwrite-eq e.key g h r) in
    let body =
      Gains-trans f h fp' (sds_bytes e.key) (value_bytes e.val) key
        (write_value-Gains e.val h fp' plain last) in
    Gains-trans fp f fp' (type_byte e.val ∷ []) (sds_bytes e.key ++ value_bytes e.val)
      (fwrite-eq (type_byte e.val ∷ []) fp f p) body

abbrev pub AllPlain : List DbEntry → Type 0
AllPlain [] = Unit
AllPlain (e ∷ es) = (length e.key < 4294967296) × IsPlain e.val × AllPlain es

pub write_entries-Gains :
    (es : List DbEntry) (fp fp' : Output)
    → AllPlain es
    → write_entries es fp ≡ some fp'
    → Gains fp fp' (entries_bytes es)
unfolding write_entries
write_entries-Gains [] fp fp' plain run =
    let e : fp ≡ fp' = cc in rw (sym e) (sym (append-nil fp.written))
write_entries-Gains (e ∷ es) fp fp' (_, plain, plains) run =
    let (f, p, q) = >>=-eq-some (write_entry e fp) _ run in
    Gains-trans fp f fp' (entry_bytes e) (entries_bytes es) (write_entry-Gains e fp f plain p)
      (write_entries-Gains es f fp' plains q)

read_value_bytes :
    (o : Obj) (rest : Bytes)
    → IsPlain o
    → read_value (type_byte o) (value_bytes o ++ rest) ≡ done o rest
unfolding read_value
read_value_bytes (string b) rest plain = rw (read_sds_bytes b rest plain) refl
read_value_bytes (list xs) rest (few, short) = rw (read_list_bytes xs rest few short) refl
read_value_bytes (set_obj d) rest plain = absurd plain

type_byte_lem : (o : Obj) → IsPlain o → ((type_byte o == 254) || (type_byte o == 255)) ≡ false
type_byte_lem (string b) plain = refl
type_byte_lem (list xs) plain = refl
type_byte_lem (set_obj d) plain = absurd plain

-- No two entries have the same key.
abbrev pub AllOther : Bytes → List DbEntry → Type 0
AllOther k [] = Unit
AllOther k (e ∷ es) = (compare_hash_keys hash_dict_type e.key k ≡ false) × AllOther k es

abbrev pub Distinct : List DbEntry → Type 0
Distinct [] = Unit
Distinct (e ∷ es) = AllOther e.key es × Distinct es

-- The database holds none of the keys.
abbrev pub AllMissing : Db → List DbEntry → Type 0
AllMissing d [] = Unit
AllMissing d (e ∷ es) = (find hash_dict_type d e.key ≡ none) × AllMissing d es

-- What a key holds after the entries were stored one after the other.
abbrev pub recall : Bytes → List DbEntry → Option Obj → Option Obj
recall q [] o = o
recall q (e ∷ es) o =
    recall q es (if compare_hash_keys hash_dict_type q e.key then some e.val else o)

AllMissing-add :
    (d n : Db) (k : Bytes) (o : Obj) (es : List DbEntry)
    → IsAdded hash_dict_type-IsLawful d n k o
    → AllOther k es
    → AllMissing d es
    → AllMissing n es
AllMissing-add d n k o [] a others missing = tt
AllMissing-add d n k o (e ∷ es) a (other, others) (gone, missing) =
    (a.finds e.key ∙ rw other gone, AllMissing-add d n k o es a others missing)

-- The entries of the file, stored in a table that does not hold their keys.
pub record IsLoaded (d n : Db) (es : List DbEntry) : Type 0 where
  pub valid : IsValid hash_dict_type n
  pub used : n.used ≡ d.used + length es
  pub values :
      (q : Bytes)
      → value_of (find hash_dict_type n q) ≡ recall q es (value_of (find hash_dict_type d q))

read_entry-bytes :
    (e : DbEntry) (d n : Db) (rest : Bytes)
    → length e.key < 4294967296
    → IsPlain e.val
    → add hash_dict_type d e.key e.val ≡ some (n, dict_ok)
    → read_entry (type_byte e.val) d ((sds_bytes e.key ++ value_bytes e.val) ++ rest) ≡ done n rest
unfolding read_entry insert_value
read_entry-bytes e d n rest short plain run =
    ap (λ w. read_entry (type_byte e.val) d w)
      (append_assoc (sds_bytes e.key) (value_bytes e.val) rest)
    ∙ rw
        (
          read_sds_bytes e.key (value_bytes e.val ++ rest) short,
          read_value_bytes e.val rest plain,
          run,
        )
        refl

-- One round of the loop, which reads an entry.
load_entries-step :
    (fuel type : ℕ) (d n : Db) (fp rest : Bytes)
    → ((type == 254) || (type == 255)) ≡ false
    → read_entry type d fp ≡ done n rest
    → load_entries (suc fuel) d (type ∷ fp) ≡ load_entries fuel n rest
unfolding load_entries go_on
load_entries-step fuel type d n fp rest entry run = rw (entry, run) refl

pub load_entries-bytes :
    (fuel type : ℕ) (es : List DbEntry) (d : Db) (rest : Bytes)
    → ((type == 254) || (type == 255)) ≡ true
    → length es < fuel
    → AllPlain es
    → Distinct es
    → AllMissing d es
    → IsValid hash_dict_type d
    → d.used + length es ≤ max_size
    → (n : Db) × (load_entries fuel d (entries_bytes es ++ type ∷ rest) ≡ status type n rest)
      × IsLoaded d n es
unfolding load_entries set_hash_val hash_dict_type
load_entries-bytes zero type es d rest ends enough plain distinct missing valid room =
    absurd (omega arith)
load_entries-bytes (suc fuel) type [] d rest ends enough plain distinct missing valid room =
    (d, rw ends refl, record { valid = valid; used = omega arith; values = λ q. refl })
load_entries-bytes (suc fuel) type (e ∷ es) d rest ends enough (short, plain, plains)
      (others, distinct) (gone, missing) valid room =
    let (n, run, a) = add-IsAdded hash_dict_type-IsLawful d e.key e.val valid (omega arith) gone in
    let (m, run', l) =
      load_entries-bytes fuel type es n rest ends (omega arith) plains distinct
        (AllMissing-add d n e.key e.val es a others missing) a.valid
        (omega (arith, a.used, room)) in
    (
      m,
      ap (λ w. load_entries (suc fuel) d w)
            (append_assoc (entry_bytes e) (entries_bytes es) (type ∷ rest))
          ∙ load_entries-step fuel (type_byte e.val) d n _ (entries_bytes es ++ type ∷ rest)
              (type_byte_lem e.val plain)
              (read_entry-bytes e d n (entries_bytes es ++ type ∷ rest) short plain run)
          ∙ run',
      record {
        valid = l.valid;
        used = omega (arith, l.used, a.used);
        values = λ q. l.values q ∙ ap (λ o. recall q es o) (ap value_of (a.finds q) ∙ ground arith);
      },
    )

pub length-entries_bytes : (es : List DbEntry) → length es ≤ length (entries_bytes es)
length-entries_bytes [] = omega arith
length-entries_bytes (e ∷ es) =
    omega (arith, length-entries_bytes es, length-append (entry_bytes e) (entries_bytes es))
