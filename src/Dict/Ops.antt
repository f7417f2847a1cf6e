-- ===== src/Dict/Ops.antt =====
-- The client operations of redis/src/dict.c. `none` is a fault: a failed `assert`, a NULL dereference,
-- or a loop that is still running when its input is spent.
use homemade.Prelude.{
  ℕ, zero, suc, ◌*◌, ◌%◌, Bool, true, false, Option, none, some, is_some, List, [], ◌∷◌, ◌++◌, ltb,
  ◌==◌, if◌then◌else◌, length, get_or, set, inc32, dec32, ◌>>=◌, bit_and,
}
use homemade.Dict.Types.{
  Entry, DictType, Status, dict_ok, dict_err, Freed, Chain, Dict, initial_size, set_hash_key,
  set_hash_val, free_entry_key, free_entry_val, slot_of,
}
use homemade.Dict.Chain.{find_entry, unlink, write_val}
use homemade.Dict.Table.{reset, expand}

unfoldable pub nth_entry {ℓ} : {A : Type ℓ} → List A → ℕ → Option A
nth_entry [] i = none
nth_entry (e ∷ c) zero = some e
nth_entry (e ∷ c) (suc i) = nth_entry c i

module _ {K V : Type 0} (T : DictType K V) where
  -- `_dictExpandIfNeeded`; the doubled size is an `unsigned int`
  unfoldable pub expand_if_needed : Dict K V → Option (Dict K V × Status)
  expand_if_needed ht =
      if ht.size == 0
      then expand T ht initial_size
      else if ht.used == ht.size
      then expand T ht ((ht.size * 2) % 4294967296)
      else some (ht, dict_ok)

  unfoldable pub free_slot : K → Dict K V → Status → Option ℕ
  free_slot k ht dict_err = none
  free_slot k ht dict_ok =
      let slot = slot_of T k ht.sizemask in
      if is_some (find_entry T k (get_or ht.table slot [])) then none else some slot

  -- `_dictKeyIndex`; -1 is `none`
  unfoldable pub key_index : K → Dict K V → Option (Dict K V × Option ℕ)
  unfolding free_slot
  key_index k ht = do (ht', status) ← expand_if_needed ht; some (ht', free_slot k ht' status)

  unfoldable pub insert_at : K → V → Dict K V → Option ℕ → Dict K V × Status
  insert_at k v ht none = (ht, dict_err)
  insert_at k v ht (some index) = (
    record ht {
      table =
          set ht.table index
            (record { key = set_hash_key T k; val = set_hash_val T v } ∷ get_or ht.table index []);
      used = inc32 ht.used;
    },
    dict_ok,
  )

  -- `dictAdd`
  unfoldable pub add : Dict K V → K → V → Option (Dict K V × Status)
  unfolding insert_at
  add ht k v = do (ht', index) ← key_index k ht; some (insert_at k v ht' index)

  -- `dictFind`
  unfoldable pub find : Dict K V → K → Option (Entry K V)
  find ht k =
      if ht.size == 0 then none else find_entry T k (get_or ht.table (slot_of T k ht.sizemask) [])

  -- The end of `dictReplace`, when `dictAdd` has refused the key.
  unfoldable pub overwrite : Dict K V → K → V → Option (Dict K V × List (Freed K V))
  overwrite ht k v = do
    entry ← find ht k
    let slot = slot_of T k ht.sizemask
    some (
      record ht {
        table = set ht.table slot (write_val T k (set_hash_val T v) (get_or ht.table slot []));
      },
      free_entry_val T entry,
    )

  unfoldable pub replace_after : K → V → Dict K V × Status → Option (Dict K V × List (Freed K V))
  unfolding overwrite
  replace_after k v (ht, dict_ok) = some (ht, [])
  replace_after k v (ht, dict_err) = overwrite ht k v

  -- `dictReplace`, which always answers `DICT_OK`
  unfoldable pub replace : Dict K V → K → V → Option (Dict K V × List (Freed K V))
  unfolding replace_after
  replace ht k v = add ht k v >>= replace_after k v

  -- `dictGenericDelete`
  unfoldable pub generic_delete : Dict K V → K → Bool → Dict K V × Status × List (Freed K V)
  generic_delete ht k nofree =
      let slot = slot_of T k ht.sizemask in
      let chain = get_or ht.table slot [] in
      if ht.size == 0 then (ht, dict_err, []) else elim (find_entry T k chain) [
        | none ↦ (ht, dict_err, [])
        | some e ↦ (
          record ht { table = set ht.table slot (unlink T k chain); used = dec32 ht.used },
          dict_ok,
          if nofree then [] else free_entry_key T e ++ free_entry_val T e,
        )
      ]

  -- `dictDelete`
  unfoldable pub delete : Dict K V → K → Dict K V × Status × List (Freed K V)
  unfolding generic_delete
  delete ht k = generic_delete ht k false

  -- `dictDeleteNoFree`
  unfoldable pub delete_no_free : Dict K V → K → Dict K V × Status × List (Freed K V)
  unfolding generic_delete
  delete_no_free ht k = generic_delete ht k true

  -- The inner loop of `_dictClear`.
  unfoldable pub clear_chain : ℕ → Chain K V → ℕ × List (Freed K V)
  clear_chain used [] = (used, [])
  clear_chain used (e ∷ c) =
      let (used', freed) = clear_chain (dec32 used) c in
      (used', free_entry_key T e ++ free_entry_val T e ++ freed)

  -- Its outer loop.
  unfoldable pub clear_table : ℕ → List (Chain K V) → List (Freed K V)
  clear_table used [] = []
  clear_table used (c ∷ cs) =
      let (used', freed) = clear_chain used c in
      let rest = freed ++ clear_table used' cs in if ltb 0 used then rest else []

  -- `_dictClear`, which `dictEmpty` and `dictRelease` call
  unfoldable pub clear : Dict K V → Dict K V × List (Freed K V)
  unfolding reset clear_table clear_chain
  clear ht = (reset, clear_table ht.used ht.table)

  -- `dictGetRandomKey` draws from the numbers that `random()` returns. The first loop draws slots
  -- until one is occupied; `none` means that every number was drawn.
  unfoldable pub draw_slot : List ℕ → Dict K V → Option (Chain K V × List ℕ)
  draw_slot [] ht = none
  draw_slot (r ∷ random) ht =
      let rest = draw_slot random ht in
      elim (get_or ht.table (bit_and r ht.sizemask) []) [ [] ↦ rest | e ∷ c ↦ some (e ∷ c, random) ]

  unfoldable pub draw_entry : Chain K V × List ℕ → Option (Option (Entry K V))
  draw_entry (chain, []) = none
  draw_entry (chain, r ∷ random) = some (nth_entry chain (r % length chain))

  unfoldable pub get_random_key : List ℕ → Dict K V → Option (Option (Entry K V))
  unfolding draw_slot draw_entry nth_entry
  get_random_key random ht = if ht.size == 0 then some none else draw_slot random ht >>= draw_entry
