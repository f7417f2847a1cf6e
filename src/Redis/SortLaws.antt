-- ===== src/Redis/SortLaws.antt =====
-- What `sortCommand` of redis/src/redis.c replies.
use homemade.Prelude.{
  ℕ, zero, suc, ◌+◌, ◌-◌, ◌≤◌, ◌<◌, ◌≡◌, refl, ap, ◌∙◌, Bool, true, some, List, [], ◌∷◌, ◌++◌,
  arith, length, ◌>>=◌, ◌==◌, take, drop, append_assoc, append-nil,
}
use homemade.Prelude.Int.{ℤ, pos, negsuc, pos_part}
use homemade.Redis.Object.{Bytes, list}
use homemade.Redis.State.{State, add_reply, holds}
use homemade.Redis.Strings.{number_line, bulk, bulks}
use homemade.Redis.SortSyntax.{limit_range, limit_fits, SortOptions, sort_options, sort_defaults}
use homemade.Redis.Sort.{
  SortObject, vector_at, output_loop, run_operations, sorted_vector, sort_command, sort_found,
  sort_parsed, elements_of, sort_reply,
}
use homemade.Redis.SortRange.{asked, limit_range-Covers}

limit_fits-true :
    (start : ℕ) (count : ℤ) → start + pos_part count ≤ 2147483647 → limit_fits start count ≡ true
unfolding limit_fits
limit_fits-true start (pos count) h = ground arith
limit_fits-true start (negsuc count) h = refl

module _ {Score : Type 0} (zero_score : Score) (strtod : Bytes → Score)
    (less : Score → Score → Bool) (strcoll : Bytes → Bytes → ℤ) where
  abbrev pub Vector : Type 0
  Vector = List (SortObject zero_score strtod less strcoll)

  abbrev pub objects_of : Vector → List Bytes
  objects_of [] = []
  objects_of (x ∷ v) = x.obj ∷ objects_of v

  vector_at-drop :
      (v : Vector) (j : ℕ)
      → j < length v
      → (x : SortObject zero_score strtod less strcoll) × (vector_at zero_score strtod less strcoll
            v j
          ≡ some x)
        × (drop j v ≡ x ∷ drop (j + 1) v)
  unfolding vector_at
  vector_at-drop [] j h = absurd (omega arith)
  vector_at-drop (x ∷ v) zero h = (x, refl, refl)
  vector_at-drop (x ∷ v) (suc j) h =
      let (y, there, cut) = vector_at-drop v j (omega arith) in
      let e : suc j + 1 ≡ suc (j + 1) = omega arith in (y, there, rw e cut)

  output_loop-bulks :
      (o : SortOptions) (v : Vector) (n j : ℕ) (st : State)
      → o.operations ≡ []
      → o.getop ≡ 0
      → j + n ≤ length v
      → output_loop zero_score strtod less strcoll o v n j st
        ≡ some (record st { reply = st.reply ++ bulks (objects_of (take n (drop j v))) })
  unfolding output_loop run_operations
  output_loop-bulks o v zero j st no_ops no_get h = rw (append-nil st.reply) refl
  output_loop-bulks o v (suc n) j st no_ops no_get h =
      let (x, there, cut) = vector_at-drop v j (omega arith) in
      let alone : (o.getop == 0) ≡ true = ground (arith, no_get) in
      rw (there, ◌>>=◌, no_ops, alone, cut)
        (output_loop-bulks o v n (j + 1) (bulk x.obj st) no_ops no_get (omega arith)
          ∙ ap (λ r. some (record st { reply = r })) (simp append_assoc))

  module _
      (qsort : (SortObject zero_score strtod less strcoll
          → SortObject zero_score strtod less strcoll
          → ℤ)
        → Vector
        → Vector) where
    take-drop_first :
        (v : Vector) (n a b : ℕ) → (0 < n → a ≡ b) → take n (drop a v) ≡ take n (drop b v)
    take-drop_first v zero a b h = refl
    take-drop_first v (suc n) a b h = ap (λ i. take (suc n) (drop i v)) (h (omega arith))

    sort_reply-bulks :
        (st : State) (o : SortOptions) (v : Vector)
        → o.operations ≡ []
        → o.getop ≡ 0
        → pos_part o.limit_start + pos_part o.limit_count ≤ 2147483647
        → let n = asked o.limit_count (length v - pos_part o.limit_start) in
          sort_reply zero_score strtod less strcoll qsort st o v
          ≡ some (record st {
            reply =
                st.reply
                ++ number_line n ∷ []
                ++ bulks (objects_of (take n (drop (pos_part o.limit_start) v)));
          })
    unfolding sort_reply
    sort_reply-bulks st o v no_ops no_get small =
        let n = asked o.limit_count (length v - pos_part o.limit_start) in
        let c = limit_range-Covers o.limit_start o.limit_count (length v) in
        let alone : (o.getop == 0) ≡ true = ground (arith, no_get) in
        let r = limit_range o.limit_start o.limit_count (length v) in
        rw (limit_fits-true (pos_part o.limit_start) o.limit_count small, alone, c.rounds)
          (output_loop-bulks o v n (pos_part r.0) (add_reply (number_line n) st) no_ops no_get
              c.within
            ∙ ap
                (λ w.
                  some
                    (record st { reply = st.reply ++ number_line n ∷ [] ++ bulks (objects_of w) }))
                (take-drop_first v n (pos_part r.0) (pos_part o.limit_start) c.first))

    -- SORT without GET, DEL and INCR replies with the sorted vector in the range that LIMIT asks for.
    pub sort_command-sorted_vector :
        (k : Bytes) (args xs : List Bytes) (o : SortOptions) (st : State)
        → holds st k ≡ some (list xs)
        → sort_options args sort_defaults ≡ some o
        → o.operations ≡ []
        → o.getop ≡ 0
        → pos_part o.limit_start + pos_part o.limit_count ≤ 2147483647
        → length (sorted_vector zero_score strtod less strcoll qsort st o xs) ≡ length xs
        → let v = sorted_vector zero_score strtod less strcoll qsort st o xs in
          let n = asked o.limit_count (length xs - pos_part o.limit_start) in
          sort_command zero_score strtod less strcoll qsort k args st
          ≡ some (record st {
            reply =
                st.reply
                ++ number_line n ∷ []
                ++ bulks (objects_of (take n (drop (pos_part o.limit_start) v)));
          })
    unfolding sort_command sort_found sort_parsed elements_of
    sort_command-sorted_vector k args xs o st there parsed no_ops no_get small same =
        let v = sorted_vector zero_score strtod less strcoll qsort st o xs in
        rw (there, parsed, ◌>>=◌, sort_reply-bulks st o v no_ops no_get small, same) refl
