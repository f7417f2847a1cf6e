-- ===== src/Redis/Rdb/DumpLoop.antt =====
-- The loop of `loadDb` on the bytes of a dump.
use homemade.Prelude.{
  ℕ, zero, suc, ◌+◌, ◌≤◌, ◌<◌, ◌≡◌, refl, sym, ap, ◌∙◌, true, false, List, [], ◌∷◌, ◌++◌, arith,
  length, ◌==◌, length-append, append_assoc, Bool-cases, inl, inr, get_or, set, length-set,
}
use homemade.Dict.Table.{create}
use homemade.Dict.Grow.{create-IsValid}
use homemade.Dict.Placed.{get_or-set}
use homemade.Redis.Object.{Bytes, hash_dict_type}
use homemade.Redis.State.{Db}
use homemade.Redis.Rdb.Write.{htonl}
use homemade.Redis.Rdb.Load.{done, load_one_db_from_file, load_dbs}
use homemade.Redis.Rdb.RoundTrip.{IsLoaded, entries_bytes}
use homemade.Redis.Rdb.DumpBytes.{dumped, dbs_bytes, IsSaved, AllSaved}
use homemade.Redis.Rdb.DumpBody.{load_one_db_from_file-bytes, dbs_bytes-Ends, load_typed}

-- The databases `r` are `dbs` up to number `i`, and then hold the entries of `ds`.
pub record Restores (i : ℕ) (ds dbs r : List Db) : Type 0 where
  pub size : length r ≡ length dbs
  pub before : (j : ℕ) → j < i → get_or r j create ≡ get_or dbs j create
  pub loaded :
      (k : ℕ)
      → k < length ds
      → IsLoaded create (get_or r (i + k) create) (dumped (get_or ds k create))

Restores-IsLoaded :
    (i : ℕ) (d : Db) (ds dbs r : List Db)
    → IsLoaded create (get_or dbs i create) (dumped d)
    → Restores (i + 1) ds dbs r
    → (k : ℕ) → k < length (d ∷ ds)
    → IsLoaded create (get_or r (i + k) create) (dumped (get_or (d ∷ ds) k create))
Restores-IsLoaded i d ds dbs r loaded rest zero inside =
    let here : i + 0 ≡ i = omega arith in rw (here, rest.before i (omega arith)) loaded
Restores-IsLoaded i d ds dbs r loaded rest (suc k) inside =
    let there : i + suc k ≡ (i + 1) + k = omega arith in rw there (rest.loaded k (omega arith))

Restores-cons :
    (i : ℕ) (d : Db) (ds dbs dbs' r : List Db)
    → length dbs' ≡ length dbs
    → ((j : ℕ) → j < i → get_or dbs' j create ≡ get_or dbs j create)
    → IsLoaded create (get_or dbs' i create) (dumped d)
    → Restores (i + 1) ds dbs' r
    → Restores i (d ∷ ds) dbs r
Restores-cons i d ds dbs dbs' r same agree loaded rest = record {
  size = rest.size ∙ same;
  before = λ j below. rest.before j (omega arith) ∙ agree j below;
  loaded = Restores-IsLoaded i d ds dbs' r loaded rest;
}

-- The databases from number `i` on are still as `initServer` made them.
abbrev pub Fresh : ℕ → List Db → Type 0
Fresh i dbs = (j : ℕ) → i ≤ j → get_or dbs j create ≡ create

Fresh-set :
    (i : ℕ) (dbs : List Db) (n : Db) → i < length dbs → Fresh i dbs → Fresh (i + 1) (set dbs i n)
Fresh-set i dbs n inside fresh j later =
    let other : (j == i) ≡ false = ground arith in
    get_or-set dbs j i n create inside ∙ rw other (fresh j (omega arith))

get_or-set_before :
    (i j : ℕ) (dbs : List Db) (n : Db)
    → i < length dbs
    → j < i
    → get_or (set dbs i n) j create ≡ get_or dbs j create
get_or-set_before i j dbs n inside below =
    let other : (j == i) ≡ false = ground arith in
    get_or-set dbs j i n create inside ∙ rw other refl

get_or-set_at :
    (i : ℕ) (dbs : List Db) (n : Db) → i < length dbs → get_or (set dbs i n) i create ≡ n
get_or-set_at i dbs n inside =
    let same : (i == i) ≡ true = ground arith in get_or-set dbs i i n create inside ∙ rw same refl

-- A database that is not in the dump is left empty.
create-IsLoaded : (d n : Db) → (d.used == 0) ≡ true → n ≡ create → IsLoaded create n (dumped d)
unfolding dumped create
create-IsLoaded d n empty e =
    rw (empty, e)
      (record { valid = create-IsValid hash_dict_type; used = omega arith; values = λ q. refl })

module _ (stream : ℕ) (low : stream < 2147483648) where
  -- The state of the loop of `loadDb` in front of the bytes of the databases from number `i` on.
  abbrev pub Loads : ℕ → ℕ → List Db → List Db → Bytes → Type 0
  Loads fuel i ds dbs rest =
      (r : List Db) × (load_typed stream fuel dbs (dbs_bytes i ds ++ 255 ∷ rest) ≡ done r rest)
      × Restores i ds dbs r

  load_dbs-again :
      (fuel : ℕ) (dbs dbs' : List Db) (fp rest : Bytes) (type : ℕ)
      → load_one_db_from_file stream dbs fp ≡ done (type, dbs') rest
      → load_dbs stream (suc fuel) 254 dbs fp ≡ load_dbs stream fuel type dbs' rest
  unfolding load_dbs
  load_dbs-again fuel dbs dbs' fp rest type run = rw run refl

  load_dbs-end :
      (fuel : ℕ) (dbs : List Db) (rest : Bytes)
      → load_dbs stream (suc fuel) 255 dbs rest ≡ done dbs rest
  unfolding load_dbs
  load_dbs-end fuel dbs rest = refl

  -- A round of the loop, and then the rest of the dump.
  Loads-full :
      (fuel i : ℕ) (d : Db) (ds dbs : List Db) (rest : Bytes)
      → (d.used == 0) ≡ false
      → i < length dbs
      → i < 4294967296
      → Fresh i dbs
      → IsSaved d
      → ((n : Db) → Loads fuel (i + 1) ds (set dbs i n) rest)
      → Loads (suc fuel) i (d ∷ ds) dbs rest
  Loads-full fuel i d ds dbs rest full inside few fresh saved again =
      let (type, tail, split, ends) = dbs_bytes-Ends (i + 1) ds rest in
      let (n, run, loaded) =
        load_one_db_from_file-bytes stream low i type d dbs tail ends inside few
          (fresh i (omega arith)) saved in
      let (r, run', restored) = again n in
      let es = entries_bytes (dumped d) in
      let more = dbs_bytes (i + 1) ds in
      let parts =
        ap (λ w. htonl i ++ w) (append_assoc es more (255 ∷ rest))
        ∙ ap (λ w. htonl i ++ (es ++ w)) split in
      (
        r,
        rw full (
            ap (λ w. load_dbs stream (suc fuel) 254 dbs w) parts
            ∙ load_dbs-again fuel dbs (set dbs i n) _ tail type run
            ∙ sym (ap (λ w. load_typed stream fuel (set dbs i n) w) split)
            ∙ run'),
        Restores-cons i d ds dbs (set dbs i n) r (length-set dbs i n)
            (λ j below. get_or-set_before i j dbs n inside below)
            (rw (get_or-set_at i dbs n inside) loaded) restored,
      )

  pub load_typed-dbs_bytes :
      (fuel i : ℕ) (ds dbs : List Db) (rest : Bytes)
      → length (dbs_bytes i ds) < fuel
      → i + length ds ≤ length dbs
      → length dbs < 4294967296
      → Fresh i dbs
      → AllSaved ds
      → Loads fuel i ds dbs rest
  load_typed-dbs_bytes zero i ds dbs rest enough inside few fresh saved = absurd (omega arith)
  load_typed-dbs_bytes (suc fuel) i [] dbs rest enough inside few fresh saved = (
    dbs,
    load_dbs-end fuel dbs rest,
    record { size = refl; before = λ j below. refl; loaded = λ k outside. absurd (omega arith) },
  )
  load_typed-dbs_bytes (suc fuel) i (d ∷ ds) dbs rest enough inside few fresh (saved, more) =
      elim (Bool-cases (d.used == 0)) [
        | inl empty ↦
            let (r, run, restored) =
              load_typed-dbs_bytes (suc fuel) (i + 1) ds dbs rest (rw empty at enough) (omega arith)
                few (λ j later. fresh j (omega arith)) more in
            (
              r,
              rw empty run,
              Restores-cons i d ds dbs dbs r refl (λ j below. refl)
                  (create-IsLoaded d (get_or dbs i create) empty (fresh i (omega arith))) restored,
            )
        | inr full ↦
            Loads-full fuel i d ds dbs rest full (omega arith) (omega arith) fresh saved (λ n.
              load_typed-dbs_bytes fuel (i + 1) ds (set dbs i n) rest
                (omega (
                  arith,
                  rw full at enough,
                  length-append (254 ∷ (htonl i ++ entries_bytes (dumped d)))
                      (dbs_bytes (i + 1) ds),
                ))
                (omega (arith, length-set dbs i n)) (omega (arith, length-set dbs i n))
                (Fresh-set i dbs n (omega arith) fresh) more)
      ]
