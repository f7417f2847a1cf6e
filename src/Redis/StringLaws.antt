-- ===== src/Redis/StringLaws.antt =====
-- What the string commands do to the database, the change counter and the reply.
use homemade.Prelude.{
  ◌&&◌, Bool-cases, arith, ◌+◌, ◌≡◌, ◌≢◌, refl, sym, ap, ◌∙◌, Option, none, some, [], ◌∷◌, ◌++◌,
  length, ◌>>=◌, Option-cases, inl, inr, ◌⊎◌, append_assoc,
}
use homemade.Prelude.Int.{ℤ, pos, negsuc, ◌+ℤ◌, ◌-ℤ◌}
use homemade.Dict.Types.{value_of}
use homemade.Dict.Ops.{find}
use homemade.Redis.Object.{
  Bytes, Obj, string, list, set_obj, hash_dict_type, hash_dict_type-IsLawful,
}
use homemade.Redis.Decimal.{
  print_ℤ, IsLlong, strtoll-print_ℤ, atoi, IsInt, is_int, is_llong, IsInt-is_int, is_int-IsInt,
  IsLlong-is_llong, is_llong-IsLlong,
}
use homemade.Redis.Shared
use homemade.Redis.State.{State, db, with_db, touch, add_reply, holds, IsReady, Writes, Keeps}
use homemade.Redis.Keyspace.{
  put-Writes, add-Writes, add-Keeps, replace-Writes, Writes-trans, Writes-answered, Keeps-answered,
}
use homemade.Redis.Strings.{
  number_line, set_command, setnx_command, get_command, get_reply, entry_value_to_ll,
  incr_decr_command, incr_command, decr_command, incrby_command, decrby_command,
}

zero_value : (o : Option Obj) → ((b : Bytes) → o ≢ some (string b)) → entry_value_to_ll o ≡ pos 0
unfolding entry_value_to_ll
zero_value none h = refl
zero_value (some (string b)) h = absurd (h b refl)
zero_value (some (list xs)) h = refl
zero_value (some (set_obj d)) h = refl

-- Where the selected database is a valid table with room for a key, SET stores the value under the key,
-- whatever the key held: the other keys and databases keep what they hold, the table stays valid, one
-- change is counted and the reply is +OK.
pub set_command-Writes :
    (k v : Bytes) (s : State)
    → IsReady s
    → (t : State) × (set_command k v s ≡ some t)
      × Writes s t k (some (string v))
      × (t.dirty ≡ s.dirty + 1)
      × (t.reply ≡ s.reply ++ Shared.ok ∷ [])
unfolding set_command
set_command-Writes k v s ready = elim (Option-cases (find hash_dict_type (db s) k)) [
  | inl absent ↦
      let (d, run, w) = add-Writes k s ready (string v) absent in
      (
        add_reply Shared.ok (touch (with_db d s)),
        rw (run, ◌>>=◌),
        Writes-answered _ _ w,
        refl,
        refl,
      )
  | inr (e, present) ↦
      let (d, run, keeps, ready') = add-Keeps k s ready (string v) e present in
      let (d', freed, run', w) = replace-Writes k (with_db d s) ready' (string v) in
      (
        add_reply Shared.ok (touch (with_db d' (with_db d s))),
        rw (run, ◌>>=◌, run'),
        Writes-answered _ _ (Writes-trans keeps w),
        refl,
        refl,
      )
]

-- Where the selected database is a valid table with room for a key, SETNX stores the value, counts a
-- change and replies 1 where the key is missing; where the database holds the key it keeps every
-- database, counts nothing and replies 0.
pub setnx_command-Writes :
    (k v : Bytes) (s : State)
    → IsReady s
    → (t : State) × (setnx_command k v s ≡ some t)
      × ((holds s k ≡ none)
            × Writes s t k (some (string v))
            × (t.dirty ≡ s.dirty + 1)
            × (t.reply ≡ s.reply ++ Shared.one ∷ [])
          ⊎ (holds s k ≢ none)
            × Keeps s t
            × (t.dirty ≡ s.dirty)
            × (t.reply ≡ s.reply ++ Shared.zero ∷ []))
unfolding setnx_command
setnx_command-Writes k v s ready = elim (Option-cases (find hash_dict_type (db s) k)) [
  | inl absent ↦
      let (d, run, w) = add-Writes k s ready (string v) absent in
      (
        add_reply Shared.one (touch (with_db d s)),
        rw (run, ◌>>=◌),
        inl (ap value_of absent, Writes-answered _ _ w, refl, refl),
      )
  | inr (e, present) ↦
      let (d, run, keeps, ready') = add-Keeps k s ready (string v) e present in
      (
        add_reply Shared.zero (with_db d s),
        rw (run, ◌>>=◌),
        inr (
          λ h. let h' : some e.val ≡ none = ap value_of (sym present) ∙ h in cc,
          Keeps-answered _ _ keeps,
          refl,
          refl,
        ),
      )
]

-- Where the selected database is a valid table with room for a key, GET after SET replies with the
-- value in bulk: the number of its bytes, the bytes, and CRLF, whatever the key held before.
pub get_command-set_command :
    (k v : Bytes) (s t : State)
    → IsReady s
    → set_command k v s ≡ some t
    → (get_command k t).reply ≡ s.reply ++ Shared.ok ∷ number_line (length v) ∷ v ∷ Shared.crlf ∷ []
unfolding get_command
get_command-set_command k v s t ready run =
    let (t', run', w, d, r) = set_command-Writes k v s ready in
    let e : t ≡ t' = cc in
    let here : holds t' k ≡ some (string v) =
      w.values k ∙ rw (hash_dict_type-IsLawful.same_refl k) refl in
    rw (e, here, get_reply) (rw r (simp append_assoc))

-- `z + delta` is stored and sent in decimal, and one change is counted.
pub record IsCounted (s : State) (k : Bytes) (z delta : ℤ) (t : State) : Type 0 where
  pub writes : Writes s t k (some (string (print_ℤ (z +ℤ delta))))
  pub dirty : t.dirty ≡ s.dirty + 1
  pub reply : t.reply ≡ (s.reply ++ print_ℤ (z +ℤ delta) ∷ []) ++ Shared.crlf ∷ []

-- The sum is counted where `delta` is an `int` and the sum a `long long`; else there is no result.
abbrev pub Counts : State → Bytes → ℤ → ℤ → Option State → Type 0
Counts s k z delta run =
    IsInt delta × IsLlong (z +ℤ delta) × ((t : State) × (run ≡ some t) × IsCounted s k z delta t)
    ⊎ (¬ (IsInt delta × IsLlong (z +ℤ delta))) × (run ≡ none)

incr_decr_command-Counts :
    (k : Bytes) (z delta : ℤ) (s : State)
    → IsReady s
    → holds s k ≡ some (string (print_ℤ z))
    → IsLlong z
    → Counts s k z delta (incr_decr_command k delta s)
unfolding incr_decr_command entry_value_to_ll
incr_decr_command-Counts k z delta s ready there fits =
    let (t, run, w, d, r) = put-Writes k (string (print_ℤ (z +ℤ delta))) s ready in
    elim (Bool-cases (is_int delta && is_llong (z +ℤ delta))) [
      | inl good ↦ inl (
        IsInt-is_int delta (ground (arith, good)),
        IsLlong-is_llong (z +ℤ delta) (ground (arith, good)),
        (
          add_reply Shared.crlf (add_reply (print_ℤ (z +ℤ delta)) (touch t)),
          rw (there, strtoll-print_ℤ z fits, good, run, ◌>>=◌) refl,
          record { writes = Writes-answered _ _ w; dirty = rw d refl; reply = rw r refl },
        ),
      )
      | inr bad ↦ inr (
        λ h.
            let a = is_int-IsInt delta h.0 in
            let b = is_llong-IsLlong (z +ℤ delta) h.1 in ground (arith, a, b, bad),
        rw (there, strtoll-print_ℤ z fits, bad) refl,
      )
    ]

-- Where the selected database is a valid table with room for a key that holds a `long long` in decimal: INCR
-- adds 1 to it, DECR subtracts 1, INCRBY adds its argument, read by `atoi`, and DECRBY subtracts it. If the
-- sum is a `long long` and what is added an `int`, the sum is stored and sent in decimal, one change is
-- counted, and nothing else changes; if not, the model has no result, as C leaves it undefined.
pub incr_commands-Count :
    (k by : Bytes) (z : ℤ) (s : State)
    → IsReady s
    → holds s k ≡ some (string (print_ℤ z))
    → IsLlong z
    → Counts s k z (pos 1) (incr_command k s)
      × Counts s k z (negsuc 0) (decr_command k s)
      × Counts s k z (atoi by) (incrby_command k by s)
      × Counts s k z (pos 0 -ℤ atoi by) (decrby_command k by s)
unfolding incr_command decr_command incrby_command decrby_command
incr_commands-Count k by z s ready there fits = (
  incr_decr_command-Counts k z (pos 1) s ready there fits,
  incr_decr_command-Counts k z (negsuc 0) s ready there fits,
  incr_decr_command-Counts k z (atoi by) s ready there fits,
  incr_decr_command-Counts k z (pos 0 -ℤ atoi by) s ready there fits,
)
