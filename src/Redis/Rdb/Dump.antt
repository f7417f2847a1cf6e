-- ===== src/Redis/Rdb/Dump.antt =====
-- Loading a whole dump that was saved: `saveDb` against `loadDb`.
use homemade.Prelude.{
  ℕ, zero, suc, ◌+◌, ◌<◌, ◌≡◌, refl, sym, ap, ◌∙◌, true, some, List, [], ◌∷◌, ◌++◌, arith, length,
  length-append, get_or, replicate, length-replicate,
}
use homemade.Dict.Table.{create}
use homemade.Redis.Object.{Bytes, memcmp_eq}
use homemade.Redis.State.{Db}
use homemade.Redis.Rdb.Write.{Output, save_db}
use homemade.Redis.Rdb.Load.{done, load_dbs, load_db}
use homemade.Redis.Rdb.Laws.{fread-front}
use homemade.Redis.Rdb.RoundTrip.{IsLoaded}
use homemade.Redis.Rdb.DumpBytes.{dumped, dbs_bytes, AllSaved, signature, save_db-Gains}
use homemade.Redis.Rdb.DumpBody.{dbs_bytes-Ends, load_typed}
use homemade.Redis.Rdb.DumpLoop.{load_typed-dbs_bytes}

load_db-step :
    (stream : ℕ) (dbs r : List Db) (type : ℕ) (tail end : Bytes)
    → load_dbs stream (length tail + 2) type dbs tail ≡ done r end
    → load_db stream dbs (signature ++ (type ∷ tail)) ≡ done (some r) end
unfolding load_db memcmp_eq
load_db-step stream dbs r type tail end run =
    rw (load_db, fread-front signature (type ∷ tail), fread-front (type ∷ []) tail, run) refl

zero_add : (k : ℕ) → 0 + k ≡ k
zero_add k = omega arith

get_or-replicate : (n j : ℕ) (d : Db) → get_or (replicate n d) j d ≡ d
get_or-replicate zero j d = refl
get_or-replicate (suc n) zero d = refl
get_or-replicate (suc n) (suc j) d = get_or-replicate n j d

-- A dump is loaded as it was saved: where the end of `writeOneDBToFile` counts as REDIS_OK, the pointer of the
-- stream is below 2 ^ 31, so that it survives as an `int`, and for databases, fewer than 2 ^ 32, whose saved
-- entries are strings and lists of lengths below 2 ^ 32 with distinct keys, no more than a table holds: what
-- `saveDb` wrote into an empty file, `loadDb` reads to its end into as many empty databases, and each of
-- them holds for every key what the dump's entries say.
pub load_db-save_db :
    (stream : ℕ) (dbs : List Db) (room : ℕ) (fp : Output)
    → stream < 2147483648
    → AllSaved dbs
    → length dbs < 4294967296
    → save_db true dbs (record { written = []; room = room }) ≡ some fp
    → (r : List Db) × (load_db stream (replicate (length dbs) create) fp.written ≡ done (some r) [])
      × (length r ≡ length dbs)
      × ((k : ℕ)
          → k < length dbs
          → IsLoaded create (get_or r k create) (dumped (get_or dbs k create)))
load_db-save_db stream dbs room fp low saved few run =
    let body = dbs_bytes 0 dbs ++ 255 ∷ [] in
    let (type, tail, split, ends) = dbs_bytes-Ends 0 dbs [] in
    let empties = replicate (length dbs) create in
    let size : length empties ≡ length dbs = length-replicate (length dbs) create in
    let tail_length : length body ≡ suc (length tail) = ap length split in
    let (r, loaded, restored) =
      load_typed-dbs_bytes stream low (length tail + 2) 0 dbs empties []
        (omega (arith, tail_length, length-append (dbs_bytes 0 dbs) (255 ∷ [])))
        (omega (arith, size)) (omega (arith, size, few))
        (λ j later. get_or-replicate (length dbs) j create) saved in
    let typed : load_dbs stream (length tail + 2) type empties tail ≡ done r [] =
      sym (ap (λ w. load_typed stream (length tail + 2) empties w) split) ∙ loaded in
    (
      r,
      ap (load_db stream empties)
            (save_db-Gains dbs (record { written = []; room = room }) fp saved run)
          ∙ ap (λ w. load_db stream empties (signature ++ w)) split
          ∙ load_db-step stream empties r type tail [] typed,
      restored.size ∙ size,
      λ k inside. let e = zero_add k in rw e at (restored.loaded k inside),
    )
