-- ===== src/Redis/Rdb/Load.antt =====
-- `deserializeStringObject`, `deserializeList`, `deserializeSet`, `loadOneDbFromFile` and `loadDb` of
-- redis/src/redis.c. A file is the bytes that are left to read.
use homemade.Prelude.{
  ℕ, zero, suc, ◌+◌, ◌*◌, ◌%◌, ◌||◌, Option, none, some, List, [], ◌∷◌, ◌++◌, length, if◌then◌else◌,
  ltb, leb, ◌==◌, take, drop, get_or, set,
}
use homemade.Dict.Types.{Dict, Status, dict_ok, dict_err}
use homemade.Dict.Table.{create}
use homemade.Dict.Ops.{add}
use homemade.Redis.Object.{
  Bytes, codes, memcmp_eq, Obj, string, list, set_obj, hash_dict_type, set_dict_type,
}
use homemade.Redis.State.{Db}

-- What a reader comes to: a value and the rest of the file, NULL, or the end of the process, by the code or
-- by a fault.
pub data Outcome (A : Type 0) : Type 0 where
  done : A → Bytes → Outcome A
  null : Outcome A
  abort : Outcome A

infixl 5 ◌then◌
abbrev pub ◌then◌ : {A B : Type 0} → Outcome A → (A → Bytes → Outcome B) → Outcome B
done a fp then f = f a fp
null then f = null
abort then f = abort

-- `fread(buf, n, 1, fp)`: NULL is the result 0
unfoldable pub fread : ℕ → Bytes → Outcome Bytes
fread n fp = if leb n (length fp) then done (take n fp) (drop n fp) else null

-- `ntohl` of four bytes in memory
abbrev pub ntohl : Bytes → ℕ
ntohl [] = 0
ntohl (a ∷ []) = 0
ntohl (a ∷ b ∷ []) = 0
ntohl (a ∷ b ∷ c ∷ []) = 0
ntohl (a ∷ b ∷ c ∷ d ∷ x) = ((a * 256 + b) * 256 + c) * 256 + d

unfoldable pub read_length : Bytes → Outcome ℕ
unfolding fread
read_length fp = fread 4 fp then λ b rest. done (ntohl b) rest

-- `deserializeStringObject`
unfoldable pub deserialize_string_object : Bytes → Outcome Bytes
unfolding read_length
deserialize_string_object fp =
    read_length fp then λ len rest. if ltb 0 len then fread len rest else done [] rest

unfoldable pub read_elements : ℕ → List Bytes → Bytes → Outcome (List Bytes)
unfolding deserialize_string_object
read_elements zero xs fp = done xs fp
read_elements (suc n) xs fp =
    deserialize_string_object fp then λ ele rest. read_elements n (xs ++ ele ∷ []) rest

-- `deserializeList`
unfoldable pub deserialize_list : Bytes → Outcome (List Bytes)
unfolding read_elements
deserialize_list fp = read_length fp then λ listlen rest. read_elements listlen [] rest

-- `dictAdd` was compared with NULL: DICT_OK, which is 0, takes the way to `oom`.
unfoldable pub after_add :
    Option (Dict Bytes (Unit {0}) × Status) → Bytes → Outcome (Dict Bytes (Unit {0}))
after_add none rest = abort
after_add (some (d, dict_ok)) rest = abort
after_add (some (d, dict_err)) rest = done d rest

unfoldable pub read_members : ℕ → Dict Bytes (Unit {0}) → Bytes → Outcome (Dict Bytes (Unit {0}))
unfolding after_add deserialize_string_object
read_members zero d fp = done d fp
read_members (suc n) d fp = deserialize_string_object fp then λ ele rest.
    after_add (add set_dict_type d ele tt) rest then λ d' rest'. read_members n d' rest'

-- `deserializeSet`
unfoldable pub deserialize_set : Bytes → Outcome (Dict Bytes (Unit {0}))
unfolding read_members
deserialize_set fp = read_length fp then λ setlen rest. read_members setlen create rest

-- The switch of `loadOneDbFromFile`; another type fails an assertion.
unfoldable pub read_value : ℕ → Bytes → Outcome Obj
unfolding deserialize_string_object deserialize_list deserialize_set
read_value zero fp = deserialize_string_object fp then λ b rest. done (string b) rest
read_value (suc zero) fp = deserialize_list fp then λ xs rest. done (list xs) rest
read_value (suc (suc zero)) fp = deserialize_set fp then λ d rest. done (set_obj d) rest
read_value (suc (suc (suc type))) fp = abort

-- A duplicated key ends the process, as a fault of the table does here.
unfoldable pub insert_value : Option (Db × Status) → Bytes → Outcome Db
insert_value none rest = abort
insert_value (some (d, dict_ok)) rest = done d rest
insert_value (some (d, dict_err)) rest = abort

unfoldable pub read_entry : ℕ → Db → Bytes → Outcome Db
unfolding insert_value read_value
read_entry type d fp = deserialize_string_object fp then λ key rest.
    read_value type rest then λ o rest'. insert_value (add hash_dict_type d key o) rest'

-- What `loadOneDbFromFile` returns, and what it did to the database by then; REDIS_ERR is -1.
pub data Loaded : Type 0 where
  status : ℕ → Db → Bytes → Loaded
  redis_err : Db → Loaded
  exited : Loaded

unfoldable pub go_on : Db → Outcome Db → (Db → Bytes → Loaded) → Loaded
go_on d (done d' rest) again = again d' rest
go_on d null again = redis_err d
go_on d abort again = exited

-- The loop of `loadOneDbFromFile`; a round reads at least one byte, so the number of bytes is enough fuel.
unfoldable pub load_entries : ℕ → Db → Bytes → Loaded
unfolding read_entry go_on
load_entries fuel d [] = redis_err d
load_entries zero d (type ∷ fp) = exited
load_entries (suc fuel) d (type ∷ fp) =
    let again = load_entries fuel in
    let onward = go_on d (read_entry type d fp) again in
    if type == 254 || type == 255 then status type d fp else onward

-- `loadDb` keeps the result of `loadOneDbFromFile` in a `uint8_t`: REDIS_ERR becomes 255, REDIS_EOF.
unfoldable pub kept : List Db → ℕ → Loaded → Outcome (ℕ × List Db)
kept dbs i (status type d rest) = done (type, set dbs i d) rest
kept dbs i (redis_err d) = done (255, set dbs i d) []
kept dbs i exited = abort

-- `loadOneDbFromFile` behind its parameter.
unfoldable pub load_selected : List Db → Bytes → Outcome (ℕ × List Db)
unfolding load_entries kept
load_selected dbs fp =
    let short : Outcome (ℕ × List Db) = done (255, dbs) [] in
    let body = λ (dbid : ℕ) (rest : Bytes).
      if leb (length dbs) dbid
      then abort
      else kept dbs dbid (load_entries (length rest) (get_or dbs dbid create) rest) in
    elim (read_length fp) [ done dbid rest ↦ body dbid rest | null ↦ short | abort ↦ abort ]

-- A pointer of 64 bits that is passed as an `int`, and taken for a pointer again.
abbrev pub through_int : ℕ → ℕ
through_int p =
    let low = p % 4294967296 in if ltb low 2147483648 then low else low + 18446744069414584320

-- `loadOneDbFromFile`, `loadDb` and the readers they call; `stream` is the pointer that `fopen` returned
module _ (stream : ℕ) where
  -- `loadOneDbFromFile` takes the stream as an `int`, as its readers do: reading through another pointer than
  -- that of the stream is a fault.
  unfoldable pub load_one_db_from_file : List Db → Bytes → Outcome (ℕ × List Db)
  unfolding load_selected
  load_one_db_from_file dbs fp =
      if through_int stream == stream then load_selected dbs fp else abort

  -- The loop of `loadDb` and its test; `null` is the exit at `eoferr`.
  unfoldable pub load_dbs : ℕ → ℕ → List Db → Bytes → Outcome (List Db)
  unfolding load_one_db_from_file
  load_dbs zero type dbs fp = abort
  load_dbs (suc fuel) type dbs fp =
      let again = λ (r : ℕ × List Db) (rest : Bytes). load_dbs fuel r.0 r.1 rest in
      if type == 254
      then load_one_db_from_file dbs fp
      then again
      else if type == 255
      then done dbs fp
      else null

  -- What `loadDb` returns: REDIS_OK with the databases, REDIS_ERR for a wrong signature, or the exit.
  unfoldable pub load_db : List Db → Bytes → Outcome (Option (List Db))
  unfolding load_dbs
  load_db dbs fp = fread 9 fp then λ buf rest.
      if memcmp_eq buf (codes "REDIS0000")
      then (fread 1 rest then λ type rest'.
          load_dbs (length rest' + 2) (get_or type 0 0) dbs rest' then λ dbs' end.
          done (some dbs') end)
      else done none rest
