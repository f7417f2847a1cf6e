-- ===== src/Redis/CronLaws.antt =====
-- What `serverCron` of redis/src/redis.c does to the databases, the clients and the saves.
use homemade.Prelude.{
  ◌≤◌, ◌<◌, suc, ◌⊎◌, ℕ, ◌+◌, ◌%◌, ◌≡◌, refl, ap, ◌∙◌, Bool, true, false, ◌||◌, ◌&&◌, Option, none,
  some, List, [], ◌∷◌, arith, if◌then◌else◌, ◌>>=◌, ◌==◌, Bool-cases, inl, inr, not, is_some, ltb,
  ◌*◌, ◌/◌,
}
use homemade.Prelude.Int.{ℤ, pos, negsuc, ltb_ℤ, ◌-ℤ◌}
use homemade.Dict.Ops.{find}
use homemade.Dict.Grow.{IsValid, resize-IsGrown}
use homemade.Redis.Object.{Bytes, hash_dict_type, hash_dict_type-IsLawful}
use homemade.Redis.State.{Db}
use homemade.Redis.Config.{SaveParam, repl_none}
use homemade.Redis.Cron.{
  Client, Cron, resize_sparse, redis_db_resize, close_timeout_loop, close_timeout_clients,
  save_db_background, save_due, bgsave_if_need, wait_bgsave_finish, Surroundings, save_step,
  sync_step, after_resize, server_cron,
}

-- A valid table with the entries and the answers of another.
pub record IsSame (d d' : Db) : Type 0 where
  pub valid : IsValid hash_dict_type d'
  pub used : d'.used ≡ d.used
  pub finds : (q : Bytes) → find hash_dict_type d' q ≡ find hash_dict_type d q

abbrev pub AllValid : List Db → Type 0
AllValid [] = Unit
AllValid (d ∷ ds) = IsValid hash_dict_type d × AllValid ds

abbrev pub AllSame : List Db → List Db → Type 0
AllSame [] [] = Unit
AllSame [] (d' ∷ ds') = ⊥
AllSame (d ∷ ds) [] = ⊥
AllSame (d ∷ ds) (d' ∷ ds') = IsSame d d' × AllSame ds ds'

resize_sparse-IsSame :
    (d : Db) → IsValid hash_dict_type d → (d' : Db) × (resize_sparse d ≡ some d') × IsSame d d'
unfolding resize_sparse
resize_sparse-IsSame d v =
    let (n, run, g) = resize-IsGrown hash_dict_type-IsLawful d v in
    elim (Bool-cases
      (ltb 0 d.size && ltb 0 d.used && ltb 16384 d.size && ltb (d.used * 100 / d.size) 10)) [
        | inl sparse ↦ (
          n,
          rw (sparse, run, ◌>>=◌) refl,
          record { valid = g.valid; used = g.used; finds = g.finds },
        )
        | inr dense ↦ (d, rw dense refl, record { valid = v; used = refl; finds = λ q. refl })
      ]

-- `redisDbResize` of valid tables never fails, and every table keeps its entries and answers.
redis_db_resize-AllSame :
    (ds : List Db)
    → AllValid ds
    → (ds' : List Db) × (redis_db_resize ds ≡ some ds') × AllSame ds ds'
unfolding redis_db_resize
redis_db_resize-AllSame [] v = ([], refl, tt)
redis_db_resize-AllSame (d ∷ ds) v =
    let (d', run, s) = resize_sparse-IsSame d v.0 in
    let (ds', rest, ss) = redis_db_resize-AllSame ds v.1 in
    (d' ∷ ds', rw (run, rest, ◌>>=◌) refl, (s, ss))

abbrev pub NoSlaves : List Client → Type 0
NoSlaves [] = Unit
NoSlaves (c ∷ cs) = (c.slave ≡ false) × NoSlaves cs

close_timeout_loop-NoSlaves :
    (now : ℕ) (maxidletime : ℤ) (cs : List Client) (s : Cron)
    → NoSlaves cs
    → close_timeout_loop now maxidletime cs s ≡ some s
unfolding close_timeout_loop
close_timeout_loop-NoSlaves now maxidletime [] s h = refl
close_timeout_loop-NoSlaves now maxidletime (c ∷ cs) s h =
    rw h.0 (close_timeout_loop-NoSlaves now maxidletime cs s h.1)

-- There are as many changes as a save parameter says.
abbrev pub Changed : ℕ → ℤ → Type 0
Changed dirty (pos n) = n ≤ dirty
Changed dirty (negsuc n) = Unit

-- More seconds went by since the last save than a save parameter says.
abbrev pub Elapsed : ℕ → ℕ → ℤ → Type 0
Elapsed now lastsave (pos n) = lastsave + n < now
Elapsed now lastsave (negsuc n) = lastsave < now + suc n

-- Some save parameter is met.
abbrev pub AnyMet : ℕ → ℕ → ℕ → List SaveParam → Type 0
AnyMet now dirty lastsave [] = ⊥
AnyMet now dirty lastsave (sp ∷ sps) =
    Changed dirty sp.changes × Elapsed now lastsave sp.seconds ⊎ AnyMet now dirty lastsave sps

abbrev any_due : ℕ → ℕ → ℕ → List SaveParam → Bool
any_due now dirty lastsave [] = false
any_due now dirty lastsave (sp ∷ sps) =
    save_due now dirty lastsave sp || any_due now dirty lastsave sps

Changed-ltb :
    (dirty : ℕ) (z : ℤ)
    → (Changed dirty z → ltb_ℤ (pos dirty) z ≡ false)
      × (ltb_ℤ (pos dirty) z ≡ false → Changed dirty z)
Changed-ltb dirty (pos n) = (λ h. ground arith, λ h. ground arith)
Changed-ltb dirty (negsuc n) = (λ h. ground arith, λ h. tt)

Elapsed-ltb :
    (now lastsave : ℕ) (z : ℤ)
    → (Elapsed now lastsave z → ltb_ℤ z (pos now -ℤ pos lastsave) ≡ true)
      × (ltb_ℤ z (pos now -ℤ pos lastsave) ≡ true → Elapsed now lastsave z)
Elapsed-ltb now lastsave (pos n) = (λ h. ground arith, λ h. ground arith)
Elapsed-ltb now lastsave (negsuc n) = (λ h. ground arith, λ h. ground arith)

any_due-AnyMet :
    (now dirty lastsave : ℕ) (sps : List SaveParam)
    → any_due now dirty lastsave sps ≡ true
    → AnyMet now dirty lastsave sps
any_due-AnyMet now dirty lastsave [] h = absurd (ground (arith, h))
any_due-AnyMet now dirty lastsave (sp ∷ sps) h =
    elim (Bool-cases (save_due now dirty lastsave sp)) [
      | inl due ↦ inl (
        (Changed-ltb dirty sp.changes).1 (ground (arith, due)),
        (Elapsed-ltb now lastsave sp.seconds).1 (ground (arith, due)),
      )
      | inr other ↦ inr (any_due-AnyMet now dirty lastsave sps (ground (arith, other, h)))
    ]

AnyMet-any_due :
    (now dirty lastsave : ℕ) (sps : List SaveParam)
    → AnyMet now dirty lastsave sps
    → any_due now dirty lastsave sps ≡ true
AnyMet-any_due now dirty lastsave [] h = absurd h
AnyMet-any_due now dirty lastsave (sp ∷ sps) (inl (changed, elapsed)) =
    rw ((Changed-ltb dirty sp.changes).0 changed, (Elapsed-ltb now lastsave sp.seconds).0 elapsed)
      refl
AnyMet-any_due now dirty lastsave (sp ∷ sps) (inr more) =
    let h = AnyMet-any_due now dirty lastsave sps more in ground (arith, h)

none_met :
    (now dirty lastsave : ℕ) (sps : List SaveParam)
    → ¬ AnyMet now dirty lastsave sps
    → any_due now dirty lastsave sps ≡ false
none_met now dirty lastsave sps h = elim (Bool-cases (any_due now dirty lastsave sps)) [
  | inl due ↦ absurd (h (any_due-AnyMet now dirty lastsave sps due))
  | inr other ↦ other
]

-- Whether `wait4` reported a status with exit code 0.
abbrev pub is_saved : Option ℕ → Bool
is_saved none = false
is_saved (some statloc) = (statloc / 256) % 256 == 0

-- `t` is `s` after a step of saving: the databases and the clients are the same, a running save ends when
-- `wait4` reports something, and an exit code of 0 resets the counter of changes and notes the time; without a running save, one
-- starts exactly where a save parameter is met.
pub record IsSaving (e : Surroundings) (sps : List SaveParam) (s t : Cron) : Type 0 where
  pub dicts : t.dicts ≡ s.dicts
  pub clients : t.clients ≡ s.clients
  pub replstate : t.replstate ≡ s.replstate
  pub ends : s.bgsaveinprogress ≡ true → t.bgsaveinprogress ≡ not (is_some e.ended)
  pub starts :
      s.bgsaveinprogress ≡ false → AnyMet e.now s.dirty s.lastsave sps → t.bgsaveinprogress ≡ true
  pub rests :
      s.bgsaveinprogress ≡ false
      → ¬ AnyMet e.now s.dirty s.lastsave sps
      → t.bgsaveinprogress ≡ false
  pub dirty : t.dirty ≡ (if s.bgsaveinprogress && is_saved e.ended then 0 else s.dirty)
  pub lastsave : t.lastsave ≡ (if s.bgsaveinprogress && is_saved e.ended then e.now else s.lastsave)

-- The two branches.
wait_bgsave_finish_fields :
    (now : ℕ) (o : Option ℕ) (s : Cron)
    → let t = wait_bgsave_finish now o s in
      (t.dicts ≡ s.dicts)
      × (t.clients ≡ s.clients)
      × (t.replstate ≡ s.replstate)
      × (t.bgsaveinprogress ≡ (if is_some o then false else s.bgsaveinprogress))
      × (t.dirty ≡ (if is_saved o then 0 else s.dirty))
      × (t.lastsave ≡ (if is_saved o then now else s.lastsave))
unfolding wait_bgsave_finish
wait_bgsave_finish_fields now none s = (refl, refl, refl, refl, refl, refl)
wait_bgsave_finish_fields now (some statloc) s = elim (Bool-cases ((statloc / 256) % 256 == 0)) [
  | inl good ↦ rw good (refl, refl, refl, refl, refl, refl)
  | inr bad ↦ rw bad (refl, refl, refl, refl, refl, refl)
]

bgsave_if_need_fields :
    (now : ℕ) (sps : List SaveParam) (s : Cron)
    → let t = bgsave_if_need now sps s in
      (t.dicts ≡ s.dicts)
      × (t.clients ≡ s.clients)
      × (t.replstate ≡ s.replstate)
      × (t.bgsaveinprogress
          ≡ (if any_due now s.dirty s.lastsave sps then true else s.bgsaveinprogress))
      × (t.dirty ≡ s.dirty)
      × (t.lastsave ≡ s.lastsave)
unfolding bgsave_if_need save_db_background
bgsave_if_need_fields now [] s = (refl, refl, refl, refl, refl, refl)
bgsave_if_need_fields now (sp ∷ sps) s = elim (Bool-cases (save_due now s.dirty s.lastsave sp)) [
  | inl due ↦ rw due (refl, refl, refl, refl, refl, refl)
  | inr other ↦ rw other (bgsave_if_need_fields now sps s)
]

save_step-IsSaving :
    (e : Surroundings) (sps : List SaveParam) (s : Cron) → IsSaving e sps s (save_step e sps s)
unfolding save_step
save_step-IsSaving e sps s = elim (Bool-cases s.bgsaveinprogress) [
  | inl busy ↦
      let (dicts, clients, replstate, saving, dirty, lastsave) =
        wait_bgsave_finish_fields e.now e.ended s in
      record {
        dicts = ground (arith, dicts);
        clients = ground (arith, clients);
        replstate = ground (arith, replstate);
        ends = λ b. ground (arith, saving);
        starts = λ b met. cc;
        rests = λ b unmet. cc;
        dirty = ground (arith, dirty);
        lastsave = ground (arith, lastsave);
      }
  | inr free ↦
      let (dicts, clients, replstate, saving, dirty, lastsave) =
        bgsave_if_need_fields e.now sps s in
      record {
        dicts = ground (arith, dicts);
        clients = ground (arith, clients);
        replstate = ground (arith, replstate);
        ends = λ b. cc;
        starts = λ b met.
            let due = AnyMet-any_due e.now s.dirty s.lastsave sps met in
            ground (arith, saving, due);
        rests = λ b unmet.
            let idle = none_met e.now s.dirty s.lastsave sps unmet in ground (arith, saving, idle);
        dirty = ground (arith, dirty);
        lastsave = ground (arith, lastsave);
      }
]

if_same : (b : Bool) (o : Option Cron) → (if b then o else o) ≡ o
if_same true o = refl
if_same false o = refl

-- With valid tables, no client that is a slave, and no replication to start: `serverCron` ends, however
-- long the clients were idle. Every database keeps its entries and answers, and no client is closed. A
-- running save counts as ended when `wait4` does not return 0, and an exit code of 0 in what it reports
-- resets the counter of changes and notes the time. Without a running save one starts exactly where, for
-- some save parameter, there are at least as many changes as it says and more seconds have passed since the
-- last save than it says.
pub server_cron-IsSaving :
    (e : Surroundings) (maxidletime : ℤ) (sps : List SaveParam) (s : Cron)
    → AllValid s.dicts
    → NoSlaves s.clients
    → s.replstate ≡ repl_none
    → (ds : List Db) × (t : Cron) × (server_cron e maxidletime sps s ≡ some t)
      × AllSame s.dicts ds
      × IsSaving e sps (record s { dicts = ds }) t
unfolding server_cron after_resize close_timeout_clients sync_step
server_cron-IsSaving e maxidletime sps s valid ordinary alone =
    let (ds, run, same) = redis_db_resize-AllSame s.dicts valid in
    let u = record s { dicts = ds; cronloops = s.cronloops + 1; usedmemory = e.used_memory } in
    let x = save_step-IsSaving e sps u in
    (
      ds,
      save_step e sps u,
      rw (run, ◌>>=◌, close_timeout_loop-NoSlaves e.now maxidletime s.clients u ordinary)
          (ap (λ o. o >>= λ t. some (sync_step e (save_step e sps t).replstate (save_step e sps t)))
              (if_same (s.cronloops % 10 == 0) (some u))
            ∙ ap (λ r. some (sync_step e r (save_step e sps u))) (x.replstate ∙ alone)),
      same,
      record {
        dicts = x.dicts;
        clients = x.clients;
        replstate = x.replstate;
        ends = x.ends;
        starts = x.starts;
        rests = x.rests;
        dirty = x.dirty;
        lastsave = x.lastsave;
      },
    )
