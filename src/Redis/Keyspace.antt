-- ===== src/Redis/Keyspace.antt =====
-- The steps on the selected database that several commands of redis/src/redis.c share.
use homemade.Prelude.{
  ℕ, ◌≡◌, refl, sym, ap, ◌∙◌, false, Option, none, some, List, [], arith, get_or, set, length-set,
  if◌then◌else◌, ◌>>=◌, Option-cases, inl, inr,
}
use homemade.Dict.Types.{
  Entry, Status, Freed, dict_ok, dict_err, compare_hash_keys, value_of, set_hash_val, slot_of,
}
use homemade.Dict.Ops.{find, add, replace, delete}
use homemade.Dict.Chain.{find_entry, write_val}
use homemade.Dict.Slot.{write_val-HomeChain, find_entry-write_val, length-write_val}
use homemade.Dict.Grow.{IsValid, find-find_in}
use homemade.Dict.Add.{add-IsAdded, add-present}
use homemade.Dict.Change.{
  replace-IsReplaced, find→slots, home_chain, home_chain-HomeChain, set-IsValid, set-finds,
  delete-IsDeleted, delete_absent,
}
use homemade.Redis.Object.{Bytes, Obj, hash_dict_type, hash_dict_type-IsLawful}
use homemade.Redis.State.{
  Db, State, db, with_db, holds, IsOpen, IsReady, Writes, Keeps, db-with_db, others-with_db,
}

unfoldable pub settle : Bytes → Obj → State → Status → Option State
settle k o st dict_ok = some st
settle k o st dict_err = replace hash_dict_type (db st) k o >>= λ r. some (with_db r.0 st)

-- `dictAdd`, and `dictReplace` where it refuses the key
unfoldable pub put : Bytes → Obj → State → Option State
unfolding settle
put k o st = add hash_dict_type (db st) k o >>= λ r. settle k o (with_db r.0 st) r.1

-- A change of the object that an entry of the selected database points at.
unfoldable pub mutate : Bytes → Obj → State → State
mutate k o st =
    let d = db st in
    let slot = slot_of hash_dict_type k d.sizemask in
    with_db
      (record d {
        table = set d.table slot (write_val hash_dict_type k o (get_or d.table slot []));
      })
      st

-- `dictDelete`, with its status
unfoldable pub remove : Bytes → State → State × Status
remove k st = let r = delete hash_dict_type (db st) k in (with_db r.0 st, r.1)

module _ (k : Bytes) (s : State) (opened : IsOpen s) where
  Writes-with_db :
      (d : Db) (o : Option Obj)
      → IsValid hash_dict_type d
      → ((q : Bytes)
          → value_of (find hash_dict_type d q)
            ≡ (if compare_hash_keys hash_dict_type q k then o else holds s q))
      → Writes s (with_db d s) k o
  Writes-with_db d o valid values =
      let e = db-with_db d s opened.selected in
      record {
        opened = record {
          valid = rw e valid;
          selected = omega (arith, opened.selected, length-set s.dicts s.dictid d);
        };
        values = λ q. rw e (values q);
        others = λ i ne. others-with_db d s i opened.selected ne;
        dictid = refl;
      }

  Keeps-with_db :
      (d : Db)
      → IsValid hash_dict_type d
      → ((q : Bytes) → find hash_dict_type d q ≡ find hash_dict_type (db s) q)
      → Keeps s (with_db d s)
  Keeps-with_db d valid finds =
      let e = db-with_db d s opened.selected in
      record {
        opened = record {
          valid = rw e valid;
          selected = omega (arith, opened.selected, length-set s.dicts s.dictid d);
        };
        values = λ q. rw e (ap value_of (finds q));
        others = λ i ne. others-with_db d s i opened.selected ne;
        dictid = refl;
      }

  -- `dictDelete` of a key that the database holds, and of one that it does not.
  pub remove-Writes :
      (e : Entry Bytes Obj)
      → find hash_dict_type (db s) k ≡ some e
      → (t : State) × (remove k s ≡ (t, dict_ok))
        × Writes s t k none
        × (t.dirty ≡ s.dirty)
        × (t.reply ≡ s.reply)
  unfolding remove delete
  remove-Writes e present =
      let (d, run, x) =
        delete-IsDeleted hash_dict_type-IsLawful (db s) k false e opened.valid present in
      (
        with_db d s,
        rw run,
        Writes-with_db d none x.valid (λ q. ground (arith, x.finds q)),
        refl,
        refl,
      )

  pub remove_absent :
      find hash_dict_type (db s) k ≡ none → remove k s ≡ (with_db (db s) s, dict_err)
  unfolding remove delete
  remove_absent absent =
      rw (delete_absent hash_dict_type-IsLawful (db s) k false opened.valid absent)

  pub with_db_self-Keeps : Keeps s (with_db (db s) s)
  with_db_self-Keeps = Keeps-with_db (db s) opened.valid (λ q. refl)

  -- A change of an object in place.
  pub mutate-Writes :
      (o : Obj) (e : Entry Bytes Obj)
      → find hash_dict_type (db s) k ≡ some e
      → Writes s (mutate k o s) k (some o)
  unfolding mutate
  mutate-Writes o e present =
      let L = hash_dict_type-IsLawful in
      let v = opened.valid in
      let slots = find→slots L (db s) k e present in
      let chain = home_chain L (db s) v k slots in
      let there : find_entry hash_dict_type k chain ≡ some e =
        sym (find-find_in L (db s) v k) ∙ present in
      Writes-with_db _ (some o)
        (set-IsValid L (db s) v k slots _ (db s).used
          (write_val-HomeChain L (db s).sizemask _ k o _ (home_chain-HomeChain L (db s) v k slots))
          (omega (arith, length-write_val L k o chain)) v.room)
        (λ q.
          ap value_of (
            set-finds L (db s) v k slots (write_val hash_dict_type k o chain) (db s).used
              (some (record e { val = o })) (λ q'. find_entry-write_val L q' k o chain e there) q)
          ∙ ground arith)

module _ (k : Bytes) (s : State) (ready : IsReady s) where
  -- `dictAdd` of a key that the database does not hold.
  pub add-Writes :
      (o : Obj)
      → find hash_dict_type (db s) k ≡ none
      → (d : Db) × (add hash_dict_type (db s) k o ≡ some (d, dict_ok))
        × Writes s (with_db d s) k (some o)
  unfolding set_hash_val hash_dict_type
  add-Writes o absent =
      let (d, run, a) =
        add-IsAdded hash_dict_type-IsLawful (db s) k o ready.valid ready.room absent in
      (d, run, Writes-with_db k s ready.opened d (some o) a.valid (λ q. ground (arith, a.finds q)))

  -- `dictAdd` of a key that the database holds.
  pub add-Keeps :
      (o : Obj) (e : Entry Bytes Obj)
      → find hash_dict_type (db s) k ≡ some e
      → (d : Db) × (add hash_dict_type (db s) k o ≡ some (d, dict_err))
        × Keeps s (with_db d s)
        × IsReady (with_db d s)
  add-Keeps o e present =
      let (d, run, r) =
        add-present hash_dict_type-IsLawful (db s) k o e ready.valid ready.room present in
      let eq = db-with_db d s ready.selected in
      (
        d,
        run,
        Keeps-with_db k s ready.opened d r.valid r.finds,
        record {
          opened = (Keeps-with_db k s ready.opened d r.valid r.finds).opened;
          room = rw eq (omega (arith, r.used, ready.room));
        },
      )

  -- `dictReplace`
  pub replace-Writes :
      (o : Obj)
      → (d : Db) × (freed : List (Freed Bytes Obj)) × (replace hash_dict_type (db s) k o
          ≡ some (d, freed))
        × Writes s (with_db d s) k (some o)
  unfolding set_hash_val hash_dict_type
  replace-Writes o =
      let (d, freed, run, x) =
        replace-IsReplaced hash_dict_type-IsLawful (db s) k o ready.valid ready.room in
      (d, freed, run, Writes-with_db k s ready.opened d (some o) x.valid (λ q. x.values q))

-- A write after a step that kept every database.
pub Writes-trans :
    {s t u : State} {k : Bytes} {o : Option Obj} → Keeps s t → Writes t u k o → Writes s u k o
Writes-trans a b = record {
  opened = b.opened;
  values = λ q. rw (b.values q, a.values q);
  others = λ i ne. b.others i (λ e. ne (e ∙ a.dictid)) ∙ a.others i ne;
  dictid = b.dictid ∙ a.dictid;
}

-- `dictAdd` with `dictReplace` behind it stores the object, whether or not the key is there.
pub put-Writes :
    (k : Bytes) (o : Obj) (s : State)
    → IsReady s
    → (t : State) × (put k o s ≡ some t)
      × Writes s t k (some o)
      × (t.dirty ≡ s.dirty)
      × (t.reply ≡ s.reply)
unfolding put
put-Writes k o s ready = elim (Option-cases (find hash_dict_type (db s) k)) [
  | inl absent ↦
      let (d, run, w) = add-Writes k s ready o absent in
      (with_db d s, rw (run, ◌>>=◌), w, refl, refl)
  | inr (e, present) ↦
      let (d, run, keeps, ready') = add-Keeps k s ready o e present in
      let (d', freed, run', w) = replace-Writes k (with_db d s) ready' o in
      (with_db d' (with_db d s), rw (run, ◌>>=◌, run'), Writes-trans keeps w, refl, refl)
]

-- Counting a change and queueing a reply leave the databases alone.
module _ {s t : State} (n : ℕ) (r : List Bytes) where
  pub Writes-answered :
      {k : Bytes} {o : Option Obj}
      → Writes s t k o
      → Writes s (record t { dirty = n; reply = r }) k o
  Writes-answered w = record {
    opened = record { valid = w.valid; selected = w.selected };
    values = w.values;
    others = w.others;
    dictid = w.dictid;
  }

  pub Keeps-answered : Keeps s t → Keeps s (record t { dirty = n; reply = r })
  Keeps-answered w = record {
    opened = record { valid = w.valid; selected = w.selected };
    values = w.values;
    others = w.others;
    dictid = w.dictid;
  }
