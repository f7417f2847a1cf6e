-- ===== src/Redis/Rdb/DumpBytes.antt =====
-- The bytes that `saveDb` of redis/src/redis.c writes for databases.
use homemade.Prelude.{
  ℕ, ◌+◌, ◌≤◌, ◌≡◌, refl, sym, true, false, Option, none, some, List, [], ◌∷◌, ◌++◌, length,
  if◌then◌else◌, >>=-eq-some, ◌==◌, append-nil, Bool-cases, inl, inr,
}
use homemade.Dict.Add.{max_size}
use homemade.Redis.Object.{Bytes, codes}
use homemade.Redis.State.{Db}
use homemade.Redis.Rdb.Write.{htonl, Output, fwrite, seen, write_one_db_to_file, save_dbs, save_db}
use homemade.Redis.Rdb.Load.{◌then◌}
use homemade.Redis.Rdb.Laws.{Gains, Gains-trans, fwrite-eq}
use homemade.Redis.Rdb.RoundTrip.{DbEntry, AllPlain, Distinct, entries_bytes, write_entries-Gains}

abbrev entries_seen : Option (List DbEntry) → List DbEntry
entries_seen none = []
entries_seen (some es) = es

-- The entries of a database that a dump holds: those that `dictNext` finds, where it is not empty.
unfoldable pub dumped : Db → List DbEntry
dumped d = if d.used == 0 then [] else entries_seen (seen d)

-- The bytes of the databases from number `i` on.
abbrev pub dbs_bytes : ℕ → List Db → Bytes
dbs_bytes i [] = []
dbs_bytes i (d ∷ ds) =
    let rest = dbs_bytes (i + 1) ds in
    if d.used == 0 then rest else (254 ∷ (htonl i ++ entries_bytes (dumped d))) ++ rest

-- Strings and lists, with distinct keys, no more than a table holds.
abbrev pub IsSaved : Db → Type 0
IsSaved d = AllPlain (dumped d) × Distinct (dumped d) × (length (dumped d) ≤ max_size)

abbrev pub AllSaved : List Db → Type 0
AllSaved [] = Unit {0}
AllSaved (d ∷ ds) = IsSaved d × AllSaved ds

write_one_db_to_file-Gains :
    (d : Db) (fp fp' : Output)
    → (d.used == 0) ≡ false
    → AllPlain (dumped d)
    → write_one_db_to_file d fp ≡ some fp'
    → Gains fp fp' (entries_bytes (dumped d))
unfolding write_one_db_to_file dumped
write_one_db_to_file-Gains d fp fp' full plain run =
    let (es, p, q) = >>=-eq-some (seen d) _ run in
    let same : dumped d ≡ es = rw (full, p) refl in
    rw same (write_entries-Gains es fp fp' (rw same at plain) q)

save_dbs-Gains :
    (i : ℕ) (ds : List Db) (fp fp' : Output)
    → AllSaved ds
    → save_dbs true i ds fp ≡ some fp'
    → Gains fp fp' (dbs_bytes i ds)
unfolding save_dbs
save_dbs-Gains i [] fp fp' saved run =
    let e : fp ≡ fp' = cc in rw (sym e) (sym (append-nil fp.written))
save_dbs-Gains i (d ∷ ds) fp fp' (saved, more) run = elim (Bool-cases (d.used == 0)) [
  | inl empty ↦ rw empty (save_dbs-Gains (i + 1) ds fp fp' more (rw empty at run))
  | inr full ↦
      let run' = rw full at run in
      let (f, p, run'') = >>=-eq-some (fwrite (254 ∷ []) fp) _ run' in
      let (g, q, run3) = >>=-eq-some (fwrite (htonl i) f) _ run'' in
      let (h, r, last) = >>=-eq-some (write_one_db_to_file d g) _ run3 in
      let es = entries_bytes (dumped d) in
      let number =
        Gains-trans fp f g (254 ∷ []) (htonl i) (fwrite-eq (254 ∷ []) fp f p)
          (fwrite-eq (htonl i) f g q) in
      let body =
        Gains-trans fp g h (254 ∷ htonl i) es number
          (write_one_db_to_file-Gains d g h full saved.0 r) in
      rw full (
        Gains-trans fp h fp' ((254 ∷ htonl i) ++ es) (dbs_bytes (i + 1) ds) body
          (save_dbs-Gains (i + 1) ds h fp' more last))
]

-- The bytes in front of a dump.
abbrev pub signature : Bytes
signature = codes "REDIS0000"

pub save_db-Gains :
    (dbs : List Db) (fp fp' : Output)
    → AllSaved dbs
    → save_db true dbs fp ≡ some fp'
    → Gains fp fp' (signature ++ (dbs_bytes 0 dbs ++ 255 ∷ []))
unfolding save_db
save_db-Gains dbs fp fp' saved run =
    let (f, p, run') = >>=-eq-some (fwrite signature fp) _ run in
    let (g, q, last) = >>=-eq-some (save_dbs true 0 dbs f) _ run' in
    Gains-trans fp f fp' signature (dbs_bytes 0 dbs ++ 255 ∷ []) (fwrite-eq signature fp f p) (
      Gains-trans f g fp' (dbs_bytes 0 dbs) (255 ∷ []) (save_dbs-Gains 0 dbs f g saved q)
        (fwrite-eq (255 ∷ []) g fp' last))
