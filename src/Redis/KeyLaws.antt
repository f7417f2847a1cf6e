-- ===== src/Redis/KeyLaws.antt =====
-- What the commands on keys do.
use homemade.Prelude.{
  ◌+◌, ◌≡◌, ◌≢◌, refl, sym, ap, ◌∙◌, false, Option, none, some, List, [], ◌∷◌, ◌++◌, arith,
  if◌then◌else◌, ◌>>=◌, Option-cases, inl, inr, ◌⊎◌, Bool-cases,
}
use homemade.Dict.Types.{Entry, value_of, compare_hash_keys}
use homemade.Dict.Ops.{find}
use homemade.Redis.Object.{Bytes, codes, memcmp_eq, Obj, hash_dict_type}
use homemade.Redis.Shared
use homemade.Redis.State.{
  State, db, with_db, touch, add_reply, holds, IsOpen, IsReady, Writes, Keeps,
}
use homemade.Redis.Keyspace.{
  remove, remove-Writes, remove_absent, with_db_self-Keeps, add-Writes, add-Keeps, replace-Writes,
  Writes-trans, Writes-answered, Keeps-answered,
}
use homemade.Redis.Keys.{
  del_command, rename_command, rename_generic_command, rename_found, rename_after,
}

find_of_value :
    {V : Type 0} (x : Option (Entry Bytes V)) (o : V)
    → value_of x ≡ some o
    → (e : Entry Bytes V) × (x ≡ some e)
find_of_value none o h = cc
find_of_value (some e) o h = (e, refl)

-- Where the selected database is a valid table, DEL removes a key that the database holds, counts a
-- change and replies 1; where the key is missing it keeps every database, counts nothing and replies 0.
pub del_command-Writes :
    (k : Bytes) (s : State)
    → IsOpen s
    → (holds s k ≢ none)
        × Writes s (del_command k s) k none
        × ((del_command k s).dirty ≡ s.dirty + 1)
        × ((del_command k s).reply ≡ s.reply ++ Shared.one ∷ [])
      ⊎ (holds s k ≡ none)
        × Keeps s (del_command k s)
        × ((del_command k s).dirty ≡ s.dirty)
        × ((del_command k s).reply ≡ s.reply ++ Shared.zero ∷ [])
unfolding del_command
del_command-Writes k s opened = elim (Option-cases (find hash_dict_type (db s) k)) [
  | inl absent ↦ inr (
    ap value_of absent,
    rw (remove_absent k s opened absent) (Keeps-answered _ _ (with_db_self-Keeps k s opened)),
    rw (remove_absent k s opened absent),
    rw (remove_absent k s opened absent),
  )
  | inr (e, present) ↦
      let (t, run, w, d, r) = remove-Writes k s opened e present in
      inl (
        λ h. let h' : some e.val ≡ none = ap value_of (sym present) ∙ h in cc,
        rw run (Writes-answered _ _ w),
        rw run (rw d refl),
        rw run (rw r refl),
      )
]

-- What RENAME does to the selected database: `to` holds the object, `from` is gone.
pub record IsRenamed (s t : State) (from to : Bytes) (o : Obj) : Type 0 where
  pub opened : IsOpen t
  pub values :
      (q : Bytes)
      → holds t q ≡ (
          if compare_hash_keys hash_dict_type q from
          then none
          else if compare_hash_keys hash_dict_type q to
          then some o
          else holds s q)
  pub dirty : t.dirty ≡ s.dirty + 1

-- After the object was stored under `to`, `from` still holds `o` and is deleted.
rename-remove :
    (from to : Bytes) (o : Obj) (s u : State) (r : List Bytes)
    → Writes s u to (some o)
    → holds s from ≡ some o
    → u.dirty ≡ s.dirty
    → IsRenamed s
        (record (remove from u).0 { dirty = (remove from u).0.dirty + 1; reply = r })
        from
        to
        o
rename-remove from to o s u r w source dirty =
    let there : holds u from ≡ some o = w.values from ∙ ground arith in
    let (e, present) = find_of_value (find hash_dict_type (db u) from) o there in
    let (t, run, x, d, _) = remove-Writes from u w.opened e present in
    rw run (record {
      opened = record { valid = x.valid; selected = x.selected };
      values = λ q. rw (x.values q, w.values q);
      dirty = omega (arith, d);
    })

-- `renameGenericCommand` once the source was found, and whatever was replied so far.
rename_found-IsRenamed :
    (from to : Bytes) (o : Obj) (s : State)
    → IsReady s
    → holds s from ≡ some o
    → (t : State) × (rename_found from to false s (some o) ≡ some t) × IsRenamed s t from to o
unfolding rename_found rename_after remove
rename_found-IsRenamed from to o s ready source =
    elim (Option-cases (find hash_dict_type (db s) to)) [
      | inl absent ↦
          let (d, run, w) = add-Writes to s ready o absent in
          (
            add_reply Shared.ok (touch (remove from (with_db d s)).0),
            rw (run, ◌>>=◌),
            rename-remove from to o s (with_db d s) (s.reply ++ Shared.ok ∷ []) w source refl,
          )
      | inr (e, present) ↦
          let (d, run, keeps, ready') = add-Keeps to s ready o e present in
          let (d', freed, run', w) = replace-Writes to (with_db d s) ready' o in
          (
            add_reply Shared.ok (touch (remove from (with_db d' (with_db d s))).0),
            rw (run, ◌>>=◌, run'),
            rename-remove from to o s (with_db d' (with_db d s)) (s.reply ++ Shared.ok ∷ [])
                (Writes-trans keeps w) source refl,
          )
    ]

-- An earlier reply does not show in what RENAME does.
IsRenamed-replied :
    (from to : Bytes) (o : Obj) (s t : State) (r : List Bytes)
    → IsRenamed (record s { reply = r }) t from to o
    → IsRenamed s t from to o
IsRenamed-replied from to o s t r x = record {
  opened = x.opened;
  values = x.values;
  dirty = x.dirty;
}

-- Where the selected database is a valid table with room for a key, RENAME of a key that the database
-- holds to another name, or to itself: the object moves to the new name, whatever that held, and the
-- old name is deleted, with one change counted and the other keys of the database kept. So RENAME of a
-- key to itself deletes the key.
pub rename_command-IsRenamed :
    (from to : Bytes) (o : Obj) (s : State)
    → IsReady s
    → holds s from ≡ some o
    → (t : State) × (rename_command from to s ≡ some t) × IsRenamed s t from to o
unfolding rename_command rename_generic_command
rename_command-IsRenamed from to o s ready source = elim (Bool-cases (memcmp_eq from to)) [
  | inl same ↦
      let s' = add_reply (codes "-ERR src and dest are the same\r\n") s in
      let ready' : IsReady s' = record {
        opened = record { valid = ready.valid; selected = ready.selected };
        room = ready.room;
      } in
      let (t, run, x) = rename_found-IsRenamed from to o s' ready' source in
      (t, rw (same, source) run, IsRenamed-replied from to o s t _ x)
  | inr other ↦
      let (t, run, x) = rename_found-IsRenamed from to o s ready source in
      (t, rw (other, source) run, x)
]
