-- ===== src/Redis/InterStore.antt =====
-- What SINTERSTORE of redis/src/redis.c stores.
use homemade.Prelude.{
  ◌+◌, ◌≤◌, ◌<◌, ◌≡◌, refl, ap, ◌∙◌, false, ◌||◌, Option, none, some, List, [], ◌∷◌, ◌++◌, arith,
  length, ◌>>=◌, Bool-cases, Option-cases, inl, inr,
}
use mathlib.Core.List.{Permᴰ}
use homemade.Dict.Types.{Entry, value_of, compare_hash_keys}
use homemade.Dict.Table.{create}
use homemade.Dict.Ops.{find}
use homemade.Dict.Grow.{IsValid, create-IsValid}
use homemade.Dict.Add.{max_size}
use homemade.Redis.Object.{
  Bytes, set_obj, hash_dict_type, hash_dict_type-IsLawful, set_dict_type, same-hash_dict_type_iff,
}
use homemade.Redis.Shared
use homemade.Redis.State.{State, db, with_db, holds, add_reply, IsOpen, IsReady, Writes}
use homemade.Redis.Keyspace.{
  remove, remove-Writes, remove_absent, with_db_self-Keeps, mutate, add-Writes, Writes-answered,
}
use homemade.Redis.ListLaws.{mutate-Writes_holding}
use homemade.Redis.SetLaws.{Writes-overwrite}
use homemade.Redis.Members.{Members, has, add-IsWith}
use homemade.Redis.Inter.{
  among, sinter_store, store_loop, sinter_gathered, sinter_generic_command, sinterstore_command,
}
use homemade.Redis.InterLaws.{HoldsSets, gather-sets, IsIntersection, walk_first-IsIntersection}

-- `dictDelete` leaves the key without a value, whether it had one or not.
remove_any-Writes :
    (k : Bytes) (s : State)
    → IsOpen s
    → Writes s (remove k s).0 k none
      × ((remove k s).0.dirty ≡ s.dirty)
      × ((remove k s).0.reply ≡ s.reply)
remove_any-Writes k s opened = elim (Option-cases (find hash_dict_type (db s) k)) [
  | inl absent ↦
      let w = with_db_self-Keeps k s opened in
      rw (remove_absent k s opened absent) (
        record {
          opened = w.opened;
          values = λ q. elim (Bool-cases (compare_hash_keys hash_dict_type q k)) [
            | inl same ↦ rw same (
                w.values q
                ∙ ap (λ p. holds s p) ((same-hash_dict_type_iff q k).0 same)
                ∙ ap value_of absent)
            | inr other ↦ rw other (w.values q)
          ];
          others = w.others;
          dictid = w.dictid;
        },
        refl,
        refl,
      )
  | inr (e, present) ↦
      let (t, run, w, d, r) = remove-Writes k s opened e present in rw run (w, d, r)
]

store_loop-IsValid :
    (xs : List Bytes) (d : Members)
    → IsValid set_dict_type d
    → d.used + length xs ≤ max_size
    → (d' : Members) × (store_loop xs d ≡ some d')
      × IsValid set_dict_type d'
      × ((x : Bytes) → has d' x ≡ (has d x || among x xs))
unfolding store_loop compare_hash_keys set_dict_type
store_loop-IsValid [] d v room = (d, refl, v, λ x. ground arith)
store_loop-IsValid (y ∷ ys) d v room =
    let (d₁, run, w) = add-IsWith d y v (omega arith) in
    let (d₂, rest, v₂, m) = store_loop-IsValid ys d₁ w.valid (ground (arith, w.used)) in
    (d₂, rw (run, ◌>>=◌, rest), v₂, λ x. ground (arith, m x, w.members x))

store_loop-create :
    (xs : List Bytes)
    → length xs ≤ max_size
    → (m : Members) × (store_loop xs create ≡ some m) × ((x : Bytes) → has m x ≡ among x xs)
unfolding create find
store_loop-create xs few =
    let (m, run, _, members) =
      store_loop-IsValid xs create (create-IsValid set_dict_type) (omega arith) in
    (m, run, members)

find-none : {V : Type 0} (o : Option (Entry Bytes V)) → value_of o ≡ none → o ≡ none
find-none none h = refl
find-none (some e) h = cc

-- Where the keys hold the sets `ds`, none of the keys is the destination, the first set in the order that
-- `qsort` puts them in is a valid table with slots, and the open database has room for one more key once
-- the destination is gone: SINTERSTORE replies OK and makes the destination hold a set. A member of that
-- set is in every source, and a value that is in every source is a member or an entry of the last slot of
-- the first set's table. No other key changes, and neither does the counter of changes.
pub sinterstore_command-IsIntersection :
    (qsort : List Members → List Members) (st : State) (dst : Bytes) (ks : List Bytes)
    (ds : List Members) (d : Members) (others : List Members)
    → HoldsSets st ks ds
    → among dst ks ≡ false
    → Permᴰ (qsort ds) ds
    → qsort ds ≡ d ∷ others
    → IsValid set_dict_type d
    → 0 < d.size
    → IsOpen st
    → (db (remove dst st).0).used < max_size
    → (t : State) × (m : Members) × (xs : List Bytes) × (sinterstore_command qsort dst ks st
        ≡ some t)
      × Writes st t dst (some (set_obj m))
      × ((x : Bytes) → has m x ≡ among x xs)
      × IsIntersection ds d xs
      × (t.dirty ≡ st.dirty)
      × (t.reply ≡ st.reply ++ Shared.ok ∷ [])
unfolding sinterstore_command sinter_generic_command sinter_gathered sinter_store mutate
sinterstore_command-IsIntersection qsort st dst ks ds d others held apart perm first v slots opened
      room =
    let (w, dirty, reply) = remove_any-Writes dst st opened in
    let t = (remove dst st).0 in
    let gone : holds t dst ≡ none =
      w.values dst ∙ rw (hash_dict_type-IsLawful.same_refl dst) refl in
    let ready : IsReady t = record { opened = w.opened; room = room } in
    let (n, run, w₂) =
      add-Writes dst t ready (set_obj create) (find-none (find hash_dict_type (db t) dst) gone) in
    let there : holds (with_db n t) dst ≡ some (set_obj create) =
      w₂.values dst ∙ rw (hash_dict_type-IsLawful.same_refl dst) refl in
    let (xs, walked, x, few) = walk_first-IsIntersection d others perm first v slots in
    let (m, stored, has_m) = store_loop-create xs (omega (arith, few, v.room, v.bound)) in
    let w₃ = mutate-Writes_holding dst (with_db n t) (set_obj create) (set_obj m) w₂.opened there in
    (
      add_reply Shared.ok (mutate dst (set_obj m) (with_db n t)),
      m,
      xs,
      rw (gather-sets st ks ds held, apart, run, walked, stored, ◌>>=◌) refl,
      Writes-answered _ _ (Writes-overwrite w (Writes-overwrite w₂ w₃)),
      has_m,
      x,
      dirty,
      ap (λ r. r ++ Shared.ok ∷ []) reply,
    )
