-- ===== src/Redis/SetLaws.antt =====
-- What the set commands do to the database, the change counter and the reply.
use homemade.Prelude.{
  ◌+◌, ◌<◌, ◌≡◌, refl, ◌∙◌, ◌||◌, Option, none, some, [], ◌∷◌, ◌++◌, arith, if◌then◌else◌, ◌>>=◌,
  inl, inr, Bool-cases,
}
use homemade.Dict.Types.{compare_hash_keys}
use homemade.Dict.Table.{create}
use homemade.Dict.Ops.{find}
use homemade.Dict.Grow.{IsValid, create-IsValid}
use homemade.Dict.Add.{max_size}
use homemade.Redis.Object.{
  Bytes, Obj, set_obj, hash_dict_type, set_dict_type, hash_dict_type-IsLawful,
}
use homemade.Redis.Shared
use homemade.Redis.State.{State, db, with_db, touch, add_reply, holds, IsOpen, IsReady, Writes}
use homemade.Redis.Keyspace.{mutate, Writes-answered, add-Writes}
use homemade.Redis.Strings.{number_line}
use homemade.Redis.ListLaws.{mutate-Writes_holding}
use homemade.Redis.Sets.{
  sadd_command, sadd_found, sadd_member, sadd_reply, srem_command, srem_found, sismember_command,
  sismember_found, scard_command, scard_found,
}
use homemade.Redis.Members.{Members, has, IsWith, IsWithout, add-IsWith, delete-IsWithout}

-- A second write to a key hides the first.
pub Writes-overwrite :
    {s t u : State} {k : Bytes} {o o' : Option Obj}
    → Writes s t k o
    → Writes t u k o'
    → Writes s u k o'
Writes-overwrite a b = record {
  opened = b.opened;
  values = λ q. rw (b.values q, a.values q) (ground arith);
  others = λ i ne. b.others i (λ e. ne (e ∙ a.dictid)) ∙ a.others i ne;
  dictid = b.dictid ∙ a.dictid;
}

sadd_member-IsWith :
    (k v : Bytes) (d : Members) (s : State)
    → IsOpen s
    → holds s k ≡ some (set_obj d)
    → IsValid set_dict_type d
    → d.used < max_size
    → (t : State) × (d' : Members) × (sadd_member k v d s ≡ some t)
      × IsWith d d' v
      × Writes s t k (some (set_obj d'))
      × (t.dirty ≡ s.dirty + (if has d v then 0 else 1))
      × (t.reply ≡ s.reply ++ (if has d v then Shared.zero else Shared.one) ∷ [])
unfolding sadd_member sadd_reply mutate
sadd_member-IsWith k v d s opened there valid room =
    let (d', run, x) = add-IsWith d v valid room in
    let w = mutate-Writes_holding k s (set_obj d) (set_obj d') opened there in
    elim (Bool-cases (has d v)) [
      | inl old ↦ (
        add_reply Shared.zero (mutate k (set_obj d') s),
        d',
        rw (run, old, ◌>>=◌),
        x,
        Writes-answered _ _ w,
        rw old (omega arith),
        rw old refl,
      )
      | inr new ↦ (
        add_reply Shared.one (touch (mutate k (set_obj d') s)),
        d',
        rw (run, new, ◌>>=◌),
        x,
        Writes-answered _ _ w,
        rw new refl,
        rw new refl,
      )
    ]

-- Where the selected database is a valid table, SADD to a key that holds a valid set with room: the set
-- gets the member, with the others kept and the count right, and nothing else changes; 1 is replied and
-- one change counted where the member is new, 0 and none where it is not.
pub sadd_command-IsWith :
    (k v : Bytes) (d : Members) (s : State)
    → IsOpen s
    → holds s k ≡ some (set_obj d)
    → IsValid set_dict_type d
    → d.used < max_size
    → (t : State) × (d' : Members) × (sadd_command k v s ≡ some t)
      × IsWith d d' v
      × Writes s t k (some (set_obj d'))
      × (t.dirty ≡ s.dirty + (if has d v then 0 else 1))
      × (t.reply ≡ s.reply ++ (if has d v then Shared.zero else Shared.one) ∷ [])
unfolding sadd_command sadd_found
sadd_command-IsWith k v d s opened there valid room =
    let (t, d', run, x, w, dirty, reply) = sadd_member-IsWith k v d s opened there valid room in
    (t, d', rw there run, x, w, dirty, reply)

-- Where the selected database is a valid table with room for a key, SADD to a key that is missing makes
-- it a set of the one member; one change is counted, 1 is replied and nothing else changes.
pub sadd_command_missing :
    (k v : Bytes) (s : State)
    → IsReady s
    → find hash_dict_type (db s) k ≡ none
    → (t : State) × (d' : Members) × (sadd_command k v s ≡ some t)
      × IsWith create d' v
      × Writes s t k (some (set_obj d'))
      × (t.dirty ≡ s.dirty + 1)
      × (t.reply ≡ s.reply ++ Shared.one ∷ [])
unfolding sadd_command sadd_found find create
sadd_command_missing k v s ready absent =
    let (n, run, w) = add-Writes k s ready (set_obj create) absent in
    let there : holds (with_db n s) k ≡ some (set_obj create) =
      w.values k ∙ rw (hash_dict_type-IsLawful.same_refl k) refl in
    let (t, d', run', x, w', dirty, reply) =
      sadd_member-IsWith k v create (with_db n s) w.opened there (create-IsValid set_dict_type)
        (omega arith) in
    (t, d', rw (absent, run, ◌>>=◌) run', x, Writes-overwrite w w', dirty, reply)

-- Where the selected database is a valid table, SREM from a key that holds a valid set: the set loses
-- the member, with the others kept and the count right, and nothing else changes; 1 is replied and one
-- change counted where the member was there, 0 and none where it was not.
pub srem_command-IsWithout :
    (k v : Bytes) (d : Members) (s : State)
    → IsOpen s
    → holds s k ≡ some (set_obj d)
    → IsValid set_dict_type d
    → (d' : Members) × IsWithout d d' v
      × Writes s (srem_command k v s) k (some (set_obj d'))
      × ((srem_command k v s).dirty ≡ s.dirty + (if has d v then 1 else 0))
      × ((srem_command k v s).reply ≡ s.reply ++ (if has d v then Shared.one else Shared.zero) ∷ [])
unfolding srem_command srem_found sadd_reply mutate
srem_command-IsWithout k v d s opened there valid =
    let (d', run, status, x) = delete-IsWithout d v valid in
    let w = mutate-Writes_holding k s (set_obj d) (set_obj d') opened there in
    elim (Bool-cases (has d v)) [
      | inl old ↦ (
        d',
        x,
        rw (there, run, status, old) (Writes-answered _ _ w),
        rw (there, run, status, old) refl,
        rw (there, run, status, old) refl,
      )
      | inr new ↦ (
        d',
        x,
        rw (there, run, status, new) (Writes-answered _ _ w),
        rw (there, run, status, new) (omega arith),
        rw (there, run, status, new) refl,
      )
    ]

-- Where the selected database is a valid table, after SADD of `v` to a key that holds a valid set with
-- room, SISMEMBER replies 1 for `v` and for every member from before, 0 for the rest, and SCARD replies
-- the number from before, and one where `v` was new.
pub sismember_command-sadd_command :
    (k v x : Bytes) (d : Members) (s t : State)
    → IsOpen s
    → holds s k ≡ some (set_obj d)
    → IsValid set_dict_type d
    → d.used < max_size
    → sadd_command k v s ≡ some t
    → (sismember_command k x t
        ≡ add_reply
            (if compare_hash_keys set_dict_type x v || has d x then Shared.one else Shared.zero)
            t)
      × (scard_command k t ≡ add_reply (number_line (if has d v then d.used else d.used + 1)) t)
unfolding sismember_command sismember_found scard_command scard_found
sismember_command-sadd_command k v x d s t opened there valid room run =
    let (t', d', run', y, w, _, _) = sadd_command-IsWith k v d s opened there valid room in
    let e : t ≡ t' = cc in
    let here : holds t' k ≡ some (set_obj d') =
      w.values k ∙ rw (hash_dict_type-IsLawful.same_refl k) refl in
    (rw (e, here, y.members x) (ground arith), rw (e, here, y.used) refl)
