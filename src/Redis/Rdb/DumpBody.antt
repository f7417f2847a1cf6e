-- ===== src/Redis/Rdb/DumpBody.antt =====
-- `loadOneDbFromFile` on the bytes of a database that was saved.
use homemade.Prelude.{
  ℕ, ◌+◌, ◌<◌, ◌≡◌, refl, true, false, ◌||◌, List, [], ◌∷◌, ◌++◌, arith, length, ◌==◌, leb,
  length-append, Bool-cases, inl, inr, get_or, set,
}
use homemade.Dict.Table.{create}
use homemade.Dict.Ops.{find}
use homemade.Dict.Grow.{create-IsValid}
use homemade.Redis.Object.{Bytes, hash_dict_type}
use homemade.Redis.State.{Db}
use homemade.Redis.Rdb.Write.{htonl}
use homemade.Redis.Rdb.Load.{
  read_length, done, null, Outcome, status, kept, load_entries, load_one_db_from_file, load_dbs,
  load_selected, through_int,
}
use homemade.Redis.Rdb.Laws.{read_length-htonl}
use homemade.Redis.Rdb.RoundTrip.{
  DbEntry, AllMissing, IsLoaded, entries_bytes, load_entries-bytes, length-entries_bytes,
}
use homemade.Redis.Rdb.DumpBytes.{dumped, dbs_bytes, IsSaved}

AllMissing-create : (es : List DbEntry) → AllMissing create es
unfolding find create
AllMissing-create [] = tt
AllMissing-create (e ∷ es) = (refl, AllMissing-create es)

abbrev pub Ends : ℕ → Type 0
Ends type = ((type == 254) || (type == 255)) ≡ true

-- A pointer below 2 ^ 31 survives.
through_int_low : (p : ℕ) → p < 2147483648 → (through_int p == p) ≡ true
through_int_low p h = ground arith

leb_past : (n i : ℕ) → i < n → leb n i ≡ false
leb_past n i h = ground arith

module _ (stream : ℕ) (low : stream < 2147483648) where
  load_one_db_from_file-step :
      (dbs : List Db) (i type : ℕ) (n : Db) (fp body rest : Bytes)
      → read_length fp ≡ done i body
      → i < length dbs
      → load_entries (length body) (get_or dbs i create) body ≡ status type n rest
      → load_one_db_from_file stream dbs fp ≡ done (type, set dbs i n) rest
  unfolding load_one_db_from_file load_selected kept
  load_one_db_from_file-step dbs i type n fp body rest number inside run =
      rw
        (
          load_one_db_from_file,
          through_int_low stream low,
          load_selected,
          number,
          leb_past (length dbs) i inside,
          run,
        )
        refl

  -- What `loadOneDbFromFile` does with a database that the dump holds.
  pub load_one_db_from_file-bytes :
      (i type : ℕ) (d : Db) (dbs : List Db) (rest : Bytes)
      → Ends type
      → i < length dbs
      → i < 4294967296
      → get_or dbs i create ≡ create
      → IsSaved d
      → (n : Db) × (load_one_db_from_file stream dbs
            (htonl i ++ (entries_bytes (dumped d) ++ type ∷ rest))
          ≡ done (type, set dbs i n) rest)
        × IsLoaded create n (dumped d)
  unfolding create
  load_one_db_from_file-bytes i type d dbs rest ends inside few fresh (plain, distinct, room) =
      let es = dumped d in
      let fuel = length (entries_bytes es ++ type ∷ rest) in
      let (n, run, loaded) =
        load_entries-bytes fuel type es create rest ends
          (omega (arith, length-entries_bytes es, length-append (entries_bytes es) (type ∷ rest)))
          plain distinct (AllMissing-create es) (create-IsValid hash_dict_type)
          (omega (arith, room)) in
      let body = entries_bytes es ++ type ∷ rest in
      (
        n,
        load_one_db_from_file-step dbs i type n (htonl i ++ body) body rest
            (read_length-htonl i body few) inside (rw fresh run),
        loaded,
      )

-- What comes behind the entries of a database begins with a byte that ends them.
pub dbs_bytes-Ends :
    (i : ℕ) (ds : List Db) (rest : Bytes)
    → (type : ℕ) × (tail : Bytes) × (dbs_bytes i ds ++ 255 ∷ rest ≡ type ∷ tail) × Ends type
dbs_bytes-Ends i [] rest = (255, rest, refl, refl)
dbs_bytes-Ends i (d ∷ ds) rest = elim (Bool-cases (d.used == 0)) [
  | inl empty ↦ rw empty (dbs_bytes-Ends (i + 1) ds rest)
  | inr full ↦ rw full (254, _, refl, refl)
]

-- The loop of `loadDb` from its first byte on.
abbrev pub load_typed : ℕ → ℕ → List Db → Bytes → Outcome (List Db)
load_typed stream fuel dbs [] = null
load_typed stream fuel dbs (type ∷ fp) = load_dbs stream fuel type dbs fp
