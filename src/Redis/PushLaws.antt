-- ===== src/Redis/PushLaws.antt =====
-- What RPUSH, LPUSH, RPOP and LLEN do to the database, the change counter and the reply.
use homemade.Prelude.{
  ◌+◌, ◌≡◌, refl, sym, ap, ◌∙◌, none, some, List, [], ◌∷◌, ◌++◌, arith, length, ◌>>=◌, inl, inr,
  ◌⊎◌, append_assoc, Bool-cases, length-append,
}
use homemade.Dict.Types.{compare_hash_keys}
use homemade.Dict.Ops.{find}
use homemade.Redis.Object.{
  Bytes, list, hash_dict_type, hash_dict_type-IsLawful, same-hash_dict_type_iff,
}
use homemade.Redis.Shared
use homemade.Redis.State.{State, db, with_db, touch, add_reply, holds, IsReady, Writes}
use homemade.Redis.Keyspace.{mutate, add-Writes, Writes-answered}
use homemade.Redis.Strings.{number_line}
use homemade.Redis.Lists.{
  redis_tail, add_to_list, rpush_command, lpush_command, push_found, llen_command, llen_reply,
}
use homemade.Redis.ListRanges.{end_node, rpop_command, pop_found, pop_node}
use homemade.Redis.ListLaws.{mutate-Writes_holding}

-- Where the selected database is a valid table with room for a key, RPUSH appends to the list that the
-- key holds, or makes it a list of the one element where the key is missing; one change is counted, the
-- reply is +OK, and nothing else changes.
pub rpush_command-Writes :
    (k v : Bytes) (xs : List Bytes) (s : State)
    → IsReady s
    → (holds s k ≡ some (list xs)) ⊎ (find hash_dict_type (db s) k ≡ none) × (xs ≡ [])
    → (t : State) × (rpush_command k v s ≡ some t)
      × Writes s t k (some (list (xs ++ v ∷ [])))
      × (t.dirty ≡ s.dirty + 1)
      × (t.reply ≡ s.reply ++ Shared.ok ∷ [])
unfolding rpush_command push_found add_to_list mutate
rpush_command-Writes k v xs s ready (inl there) = (
  touch (add_reply Shared.ok (mutate k (list (xs ++ v ∷ [])) s)),
  rw (there, ◌>>=◌),
  Writes-answered _ _
      (mutate-Writes_holding k s (list xs) (list (xs ++ v ∷ [])) ready.opened there),
  refl,
  refl,
)
rpush_command-Writes k v xs s ready (inr (absent, empty)) =
    let (d, run, w) = add-Writes k s ready (list (v ∷ [])) absent in
    (
      add_reply Shared.ok (touch (with_db d s)),
      rw (absent, ◌>>=◌, run),
      rw empty (Writes-answered _ _ w),
      refl,
      refl,
    )

-- LPUSH of a key that holds a list or that is missing aborts the server.
pub lpush_command-aborts :
    (k v : Bytes) (s : State)
    → (holds s k ≡ none) ⊎ ((xs : List Bytes) × (holds s k ≡ some (list xs)))
    → lpush_command k v s ≡ none
unfolding lpush_command push_found add_to_list
lpush_command-aborts k v s (inl absent) = rw (absent, ◌>>=◌) refl
lpush_command-aborts k v s (inr (xs, there)) = rw (there, ◌>>=◌) refl

end_node-append : (v : Bytes) (xs : List Bytes) → end_node redis_tail (xs ++ v ∷ []) ≡ some (v, xs)
unfolding end_node
end_node-append v [] = refl
end_node-append v (x ∷ []) = refl
end_node-append v (x ∷ y ∷ ys) = rw (end_node-append v (y ∷ ys)) refl

-- Where the selected database is a valid table with room for a key, RPOP undoes RPUSH: after RPUSH to a
-- key that holds a list, RPOP sends the element in bulk, counts a change, and leaves under the key, and
-- under every other, what was there before; between the two, LLEN tells one more than the elements of
-- the list.
pub rpop_command-rpush_command :
    (k v : Bytes) (xs : List Bytes) (s t : State)
    → IsReady s
    → holds s k ≡ some (list xs)
    → rpush_command k v s ≡ some t
    → (llen_command k t ≡ add_reply (number_line (length xs + 1)) t)
      × Writes t (rpop_command k t) k (some (list xs))
      × ((q : Bytes) → holds (rpop_command k t) q ≡ holds s q)
      × ((rpop_command k t).reply
          ≡ s.reply ++ Shared.ok ∷ number_line (length v) ∷ v ∷ Shared.crlf ∷ [])
      × ((rpop_command k t).dirty ≡ s.dirty + 2)
unfolding llen_command llen_reply rpop_command pop_found pop_node mutate
rpop_command-rpush_command k v xs s t ready there run =
    let (t', run', w, d, r) = rpush_command-Writes k v xs s ready (inl there) in
    let e : t ≡ t' = cc in
    let here : holds t' k ≡ some (list (xs ++ v ∷ [])) =
      w.values k ∙ rw (hash_dict_type-IsLawful.same_refl k) refl in
    let back = mutate-Writes_holding k t' _ (list xs) w.opened here in
    let values : (q : Bytes) → holds (mutate k (list xs) t') q ≡ holds s q = λ q.
      elim (Bool-cases (compare_hash_keys hash_dict_type q k)) [
        | inl same ↦
            back.values q
            ∙ rw same (sym there ∙ ap (λ p. holds s p) (sym ((same-hash_dict_type_iff q k).0 same)))
        | inr other ↦ back.values q ∙ rw (other, w.values q, other) refl
      ] in
    rw (e, here, end_node-append v xs)
      (
        rw (length-append xs (v ∷ [])) refl,
        Writes-answered _ _ back,
        values,
        rw r (simp append_assoc),
        omega (arith, d),
      )
