-- ===== src/Dict/Change.antt =====
-- `dictGenericDelete` and `dictReplace`.
use homemade.Prelude.{
  ℕ, ◌+◌, ◌≤◌, ◌<◌, ◌≡◌, refl, sym, ◌∙◌, Bool, false, Option, none, some, List, [], ◌++◌, arith,
  ◌==◌, if◌then◌else◌, length, get_or, set, length-set, Bool-cases, inl, inr, ◌>>=◌, is_some,
  Option-cases, dec32,
}
use homemade.Dict.Types.{
  Entry, DictType, Chain, Dict, dict_ok, dict_err, Freed, compare_hash_keys, slot_of, set_hash_val,
  value_of, free_entry_key, free_entry_val,
}
use homemade.Dict.Chain.{find_entry, unlink, write_val, IsLawful}
use homemade.Dict.Ops.{find, overwrite, replace_after, replace, generic_delete}
use homemade.Dict.Placed.{total-set, slot_of-le, HomeChain, Homes-get_or, Homes-set}
use homemade.Dict.Slot.{
  unlink-HomeChain, find_entry-unlink, length-unlink, write_val-HomeChain, find_entry-write_val,
  length-write_val, find_in-set,
}
use homemade.Dict.Grow.{IsValid, find-find_in, find-slots}
use homemade.Dict.Add.{max_size, IsRoomy, add-IsAdded, add-present}

module _ {K V : Type 0} {T : DictType K V} (L : IsLawful T) where
  -- An entry is found only where there are slots.
  pub find→slots :
      (ht : Dict K V) (k : K) (e : Entry K V) → find T ht k ≡ some e → (ht.size == 0) ≡ false
  unfolding find
  find→slots ht k e h = ground arith

  -- A table that differs from a valid one in the home slot of `k` alone.
  module _ (ht : Dict K V) (v : IsValid T ht) (k : K) (slots : (ht.size == 0) ≡ false) where
    abbrev pub home_chain : Chain K V
    home_chain = get_or ht.table (slot_of T k ht.sizemask) []

    pub home_chain-HomeChain : HomeChain T ht.sizemask (slot_of T k ht.sizemask) home_chain
    home_chain-HomeChain = Homes-get_or T ht.sizemask 0 _ _ ht.table (omega arith) v.homes

    pub positive : 0 < ht.size
    positive = ground arith

    slot-lt : slot_of T k ht.sizemask < length ht.table
    slot-lt = omega (arith, slot_of-le T k ht.sizemask, v.width, v.mask, positive)

    pub set-IsValid :
        (c : Chain K V) (n : ℕ)
        → HomeChain T ht.sizemask (slot_of T k ht.sizemask) c
        → n + length home_chain ≡ ht.used + length c
        → n ≤ ht.size
        → IsValid T (record ht { table = set ht.table (slot_of T k ht.sizemask) c; used = n })
    set-IsValid c n h count room = record {
      width = length-set ht.table _ _ ∙ v.width;
      mask = v.mask;
      homes = Homes-set T ht.sizemask 0 _ _ ht.table c (omega arith) v.homes h;
      counted = omega (arith, total-set ht.table (slot_of T k ht.sizemask) c slot-lt, v.counted);
      room = room;
      bound = v.bound;
    }

    pub set-finds :
        (c : Chain K V) (n : ℕ) (r : Option (Entry K V))
        → ((q : K)
            → find_entry T q c ≡ (if compare_hash_keys T q k then r else find_entry T q home_chain))
        → (q : K)
        → find T (record ht { table = set ht.table (slot_of T k ht.sizemask) c; used = n }) q
          ≡ (if compare_hash_keys T q k then r else find T ht q)
    set-finds c n r reads q =
        find-slots T _ q positive
        ∙ find_in-set L ht.sizemask ht.table k c r (omega (arith, v.width, v.mask, positive)) reads
            q
        ∙ rw (find-find_in L ht v q) refl

  -- What a deletion does to the map.
  pub record IsDeleted (ht n : Dict K V) (k : K) : Type 0 where
    pub valid : IsValid T n
    pub used : n.used + 1 ≡ ht.used
    pub finds : (q : K) → find T n q ≡ (if compare_hash_keys T q k then none else find T ht q)

  -- With lawful callbacks, deleting a key that a valid table holds removes it alone, counts one entry less, and calls the destructors of
  -- its key and value, in this order, unless `nofree` is set.
  pub delete-IsDeleted :
      (ht : Dict K V) (k : K) (nofree : Bool) (e : Entry K V)
      → IsValid T ht
      → find T ht k ≡ some e
      → (n : Dict K V) × (generic_delete T ht k nofree
          ≡ (n, dict_ok, if nofree then [] else free_entry_key T e ++ free_entry_val T e))
        × IsDeleted ht n k
  unfolding generic_delete
  delete-IsDeleted ht k nofree e v present =
      let slots = find→slots ht k e present in
      let there : find_entry T k (home_chain ht v k slots) ≡ some e =
        sym (find-find_in L ht v k) ∙ present in
      let shorter = length-unlink L k (home_chain ht v k slots) e there in
      let counted = total-set ht.table (slot_of T k ht.sizemask) [] (slot-lt ht v k slots) in
      let n : Dict K V = record ht {
        table = set ht.table (slot_of T k ht.sizemask) (unlink T k (home_chain ht v k slots));
        used = dec32 ht.used;
      } in
      (
        n,
        rw (slots, there),
        record {
          valid =
              set-IsValid ht v k slots _ _
                (unlink-HomeChain L ht.sizemask _ k _ (home_chain-HomeChain ht v k slots))
                (omega (arith, shorter, counted, v.counted, v.room, v.bound))
                (omega (arith, shorter, counted, v.counted, v.room, v.bound));
          used = omega (arith, shorter, counted, v.counted, v.room, v.bound);
          finds =
              set-finds ht v k slots _ _ none
                (λ q. find_entry-unlink L ht.sizemask _ q k _ (home_chain-HomeChain ht v k slots));
        },
      )

  -- Deleting a key that is not there changes nothing.
  pub delete_absent :
      (ht : Dict K V) (k : K) (nofree : Bool)
      → IsValid T ht
      → find T ht k ≡ none
      → generic_delete T ht k nofree ≡ (ht, dict_err, [])
  unfolding generic_delete
  delete_absent ht k nofree v absent = elim (Bool-cases (ht.size == 0)) [
    | inl empty ↦ rw empty
    | inr slots ↦ rw (slots, sym (find-find_in L ht v k) ∙ absent)
  ]

  abbrev pub freed_value : Option (Entry K V) → List (Freed K V)
  freed_value none = []
  freed_value (some e) = free_entry_val T e

  -- What `dictReplace` does to the map; `freed` are the destructor calls.
  pub record IsReplaced (ht n : Dict K V) (k : K) (x : V) (freed : List (Freed K V)) : Type 0 where
    pub valid : IsValid T n
    pub used : n.used ≡ (if is_some (find T ht k) then ht.used else ht.used + 1)
    pub values :
        (q : K)
        → value_of (find T n q)
          ≡ (if compare_hash_keys T q k then some (set_hash_val T x) else value_of (find T ht q))
    pub frees : freed ≡ freed_value (find T ht k)

  overwrite-IsReplaced :
      (ht n : Dict K V) (k : K) (x : V) (e : Entry K V)
      → IsRoomy L ht n
      → find T ht k ≡ some e
      → (m : Dict K V) × (overwrite T n k x ≡ some (m, free_entry_val T e))
        × IsReplaced ht m k x (free_entry_val T e)
  unfolding overwrite
  overwrite-IsReplaced ht n k x e r present =
      let found : find T n k ≡ some e = r.finds k ∙ present in
      let slots = find→slots n k e found in
      let chain = home_chain n r.valid k slots in
      let there : find_entry T k chain ≡ some e = sym (find-find_in L n r.valid k) ∙ found in
      let y = set_hash_val T x in
      let m : Dict K V = record n {
        table = set n.table (slot_of T k n.sizemask) (write_val T k y chain);
        used = n.used;
      } in
      (
        m,
        rw found,
        record {
          valid =
              set-IsValid n r.valid k slots _ n.used
                (write_val-HomeChain L n.sizemask _ k y _ (home_chain-HomeChain n r.valid k slots))
                (omega (arith, length-write_val L k y chain)) r.valid.room;
          used = rw present r.used;
          values = λ q. ground (
            arith,
            set-finds n r.valid k slots (write_val T k y chain) n.used (some (record e { val = y }))
                (λ q'. find_entry-write_val L q' k y chain e there) q,
            r.finds q,
          );
          frees = rw present;
        },
      )

  -- With lawful callbacks `dictReplace` succeeds on a valid table with room. Afterwards the key has the new value, every
  -- other key what it had, and the destructor was called on the value that was there, if any.
  pub replace-IsReplaced :
      (ht : Dict K V) (k : K) (x : V)
      → IsValid T ht
      → ht.used < max_size
      → (n : Dict K V) × (freed : List (Freed K V)) × (replace T ht k x ≡ some (n, freed))
        × IsReplaced ht n k x freed
  unfolding replace replace_after
  replace-IsReplaced ht k x v lt = elim (Option-cases (find T ht k)) [
    | inl absent ↦
        let (n, run, a) = add-IsAdded L ht k x v lt absent in
        (
          n,
          [],
          rw (run, ◌>>=◌),
          record {
            valid = a.valid;
            used = rw absent a.used;
            values = λ q. ground (arith, a.finds q);
            frees = rw absent;
          },
        )
    | inr (e, present) ↦
        let (n, run, r) = add-present L ht k x e v lt present in
        let (m, done, s) = overwrite-IsReplaced ht n k x e r present in
        (m, free_entry_val T e, rw (run, ◌>>=◌) done, s)
  ]
