-- ===== src/Dict/Add.antt =====
-- `_dictExpandIfNeeded`, `_dictKeyIndex` and `dictAdd`.
use homemade.Prelude.{
  ◌≤◌, ◌⊎◌, ℕ, ◌+◌, ◌*◌, ◌%◌, ◌<◌, ◌≡◌, refl, sym, ◌∙◌, true, none, some, [], arith, ◌==◌,
  if◌then◌else◌, get_or, length-set, Bool-cases, inl, inr, ◌>>=◌, ==_iff,
}
use homemade.Dict.Types.{
  Entry, DictType, Dict, dict_ok, dict_err, initial_size, compare_hash_keys, slot_of, set_hash_key,
  set_hash_val,
}
use homemade.Dict.Chain.{find_entry, IsLawful}
use homemade.Dict.Table.{expand}
use homemade.Dict.Ops.{find, expand_if_needed, free_slot, key_index, insert_at, add}
use homemade.Dict.Placed.{same_congr, slot_of_congr, find_entry_congr}
use homemade.Dict.Rehash.{Holds, push_head-Holds}
use homemade.Dict.Grow.{IsValid, find-find_in, find-slots, expand-IsGrown}

-- The most entries that a table takes: the bytes of more slots do not fit the `int` of their allocation.
abbrev pub max_size : ℕ
max_size = 134217728

-- A full table with room doubles to no more slots than a table may have.
doubled :
    (n : ℕ) → n < max_size → (n ≤ 67108864) ⊎ (n ≡ 134217728) → (n * 2) % 4294967296 ≤ max_size
doubled n few bound = omega arith

module _ {K V : Type 0} {T : DictType K V} (L : IsLawful T) where
  -- The same map, in a table with a slot to spare.
  pub record IsRoomy (ht n : Dict K V) : Type 0 where
    pub valid : IsValid T n
    pub used : n.used ≡ ht.used
    pub spare : n.used < n.size
    pub finds : (q : K) → find T n q ≡ find T ht q

  module _ (ht : Dict K V) (v : IsValid T ht) where
    grown-IsRoomy :
        (size : ℕ)
        → ht.used < size
        → size ≤ max_size
        → (n : Dict K V) × (expand T ht size ≡ some (n, dict_ok)) × IsRoomy ht n
    grown-IsRoomy size lt few =
        let (n, run, g) = expand-IsGrown L ht v size (omega arith) few in
        (
          n,
          run,
          record {
            valid = g.valid;
            used = g.used;
            spare = omega (arith, g.used, g.power.covers);
            finds = g.finds;
          },
        )

    pub expand_if_needed-IsRoomy :
        ht.used < max_size
        → (n : Dict K V) × (expand_if_needed T ht ≡ some (n, dict_ok)) × IsRoomy ht n
    unfolding expand_if_needed
    expand_if_needed-IsRoomy lt = elim (Bool-cases (ht.size == 0)) [
      | inl empty ↦ rw empty (grown-IsRoomy initial_size (ground (arith, v.room)) (omega arith))
      | inr slots ↦ elim (Bool-cases (ht.used == ht.size)) [
        | inl full ↦
            let eq : ht.used ≡ ht.size = (==_iff ht.used ht.size).0 full in
            rw (slots, full)
              (grown-IsRoomy _ (ground arith) (doubled ht.size (omega (arith, eq, lt)) v.bound))
        | inr spare ↦ (
          ht,
          rw (slots, spare),
          record { valid = v; used = refl; spare = ground (arith, v.room); finds = λ q. refl },
        )
      ]
    ]

  -- What `dictAdd` does to the map when it accepts the key.
  pub record IsAdded (ht n : Dict K V) (k : K) (x : V) : Type 0 where
    pub valid : IsValid T n
    pub used : n.used ≡ ht.used + 1
    pub finds :
        (q : K)
        → find T n q ≡ (
            if compare_hash_keys T q k
            then some (record { key = set_hash_key T k; val = set_hash_val T x })
            else find T ht q)

  same-set_hash_key : (q k : K) → compare_hash_keys T q (set_hash_key T k) ≡ compare_hash_keys T q k
  same-set_hash_key q k = ground (
    arith,
    L.same-dup k,
    L.same_symm q k,
    L.same_symm q (set_hash_key T k),
    same_congr L k (set_hash_key T k) q,
  )

  slot-set_hash_key : (k : K) (mask : ℕ) → slot_of T (set_hash_key T k) mask ≡ slot_of T k mask
  slot-set_hash_key k mask = sym (slot_of_congr L k (set_hash_key T k) mask (L.same-dup k))

  insert_at-eq_ok :
      (n : Dict K V) (k : K) (x : V) (i : ℕ)
      → some (insert_at T k x n (some i)) ≡ some ((insert_at T k x n (some i)).0, dict_ok)
  unfolding insert_at
  insert_at-eq_ok n k x i = refl

  pub find_congr :
      (ht : Dict K V) (a b : K) → compare_hash_keys T a b ≡ true → find T ht a ≡ find T ht b
  unfolding find
  find_congr ht a b h = ground (
    arith,
    slot_of_congr L a b ht.sizemask,
    find_entry_congr L a b (get_or ht.table (slot_of T a ht.sizemask) []),
  )

  insert_at-IsAdded :
      (ht n : Dict K V) (k : K) (x : V)
      → IsRoomy ht n
      → find T ht k ≡ none
      → IsAdded ht (insert_at T k x n (some (slot_of T k n.sizemask))).0 k x
  unfolding insert_at
  insert_at-IsAdded ht n k x r absent =
      let e : Entry K V = record { key = set_hash_key T k; val = set_hash_val T x } in
      let h : Holds T n.sizemask n.used (find T ht) n.table = record {
        width = omega (arith, r.valid.width, r.valid.mask, r.spare);
        homes = r.valid.homes;
        count = sym r.valid.counted;
        reads = λ q. sym (find-find_in L n r.valid q) ∙ r.finds q;
      } in
      let absent' : find T ht e.key ≡ none =
        find_congr ht (set_hash_key T k) k (L.same_symm _ _ ∙ L.same-dup k) ∙ absent in
      let pushed = rw (slot-set_hash_key k n.sizemask) at (push_head-Holds L e h absent') in
      record {
        valid = record {
          width = length-set n.table _ _ ∙ r.valid.width;
          mask = r.valid.mask;
          homes = pushed.homes;
          counted = omega (arith, pushed.count, r.spare, r.valid.bound);
          room = omega (arith, r.spare, r.valid.bound);
          bound = r.valid.bound;
        };
        used = omega (arith, r.used, r.spare, r.valid.bound);
        finds = λ q.
            find-slots T _ q (omega (arith, r.spare))
            ∙ pushed.reads q
            ∙ rw (same-set_hash_key q k) refl;
      }

  -- With lawful callbacks, a key that is new to a valid table with room is accepted: the map changes at that key alone, one entry
  -- is counted, and the table stays valid.
  pub add-IsAdded :
      (ht : Dict K V) (k : K) (x : V)
      → IsValid T ht
      → ht.used < max_size
      → find T ht k ≡ none
      → (n : Dict K V) × (add T ht k x ≡ some (n, dict_ok)) × IsAdded ht n k x
  unfolding add key_index free_slot
  add-IsAdded ht k x v lt absent =
      let (n, run, r) = expand_if_needed-IsRoomy ht v lt in
      let missing : find_entry T k (get_or n.table (slot_of T k n.sizemask) []) ≡ none =
        sym (find-find_in L n r.valid k) ∙ r.finds k ∙ absent in
      (
        (insert_at T k x n (some (slot_of T k n.sizemask))).0,
        rw (run, ◌>>=◌, missing) (insert_at-eq_ok n k x (slot_of T k n.sizemask)),
        insert_at-IsAdded ht n k x r absent,
      )

  -- With lawful callbacks, `dictAdd` refuses a key that a valid table with room holds; the table may have
  -- grown, and is valid with the same count and the same map.
  pub add-present :
      (ht : Dict K V) (k : K) (x : V) (e : Entry K V)
      → IsValid T ht
      → ht.used < max_size
      → find T ht k ≡ some e
      → (n : Dict K V) × (add T ht k x ≡ some (n, dict_err)) × IsRoomy ht n
  unfolding add key_index free_slot insert_at
  add-present ht k x e v lt present =
      let (n, run, r) = expand_if_needed-IsRoomy ht v lt in
      let there : find_entry T k (get_or n.table (slot_of T k n.sizemask) []) ≡ some e =
        sym (find-find_in L n r.valid k) ∙ r.finds k ∙ present in
      (n, rw (run, ◌>>=◌, there), r)
