-- ===== src/Dict/Slot.antt =====
-- Unlinking an entry from a bucket, writing a value in one, and what such a write does to the table.
use homemade.Prelude.{
  ℕ, ◌+◌, ◌≡◌, refl, Option, none, some, List, [], ◌∷◌, arith, if◌then◌else◌, length, get_or, set,
  Bool-cases, inl, inr,
}
use homemade.Dict.Types.{Entry, DictType, Chain, compare_hash_keys, slot_of}
use homemade.Dict.Chain.{find_entry, unlink, write_val, IsLawful}
use homemade.Dict.Placed.{
  HomeChain, find_in, find_entry_congr, same_congr, slot_of_congr, slot_of-le, get_or-set,
}

module _ {K V : Type 0} {T : DictType K V} (L : IsLawful T) where
  find_entry-unlink-none :
      (q k : K) (c : Chain K V) → find_entry T q c ≡ none → find_entry T q (unlink T k c) ≡ none
  unfolding find_entry unlink
  find_entry-unlink-none q k [] h = refl
  find_entry-unlink-none q k (e ∷ c) h = ground (arith, find_entry-unlink-none q k c)

  pub unlink-HomeChain :
      (mask i : ℕ) (k : K) (c : Chain K V)
      → HomeChain T mask i c
      → HomeChain T mask i (unlink T k c)
  unfolding unlink
  unlink-HomeChain mask i k [] h = tt
  unlink-HomeChain mask i k (e ∷ c) h = elim (Bool-cases (compare_hash_keys T k e.key)) [
    | inl hit ↦ rw hit h.2
    | inr miss ↦
        rw miss (h.0, find_entry-unlink-none e.key k c h.1, unlink-HomeChain mask i k c h.2)
  ]

  pub find_entry-unlink :
      (mask i : ℕ) (q k : K) (c : Chain K V)
      → HomeChain T mask i c
      → find_entry T q (unlink T k c) ≡ (if compare_hash_keys T q k then none else find_entry T q c)
  unfolding find_entry unlink
  find_entry-unlink mask i q k [] h = ground arith
  find_entry-unlink mask i q k (e ∷ c) h = ground (
    arith,
    find_entry-unlink mask i q k c,
    same_congr L q k e.key,
    same_congr L k q e.key,
    L.same_symm q k,
    L.same_symm q e.key,
    L.same_symm k e.key,
    L.same_trans q e.key k,
    find_entry_congr L q e.key c,
  )

  pub length-unlink :
      (k : K) (c : Chain K V) (e : Entry K V)
      → find_entry T k c ≡ some e
      → length (unlink T k c) + 1 ≡ length c
  unfolding find_entry unlink
  length-unlink k [] e h = cc
  length-unlink k (x ∷ c) e h = ground (arith, length-unlink k c e)

  find_entry-write_val-none :
      (q k : K) (v : V) (c : Chain K V)
      → find_entry T q c ≡ none
      → find_entry T q (write_val T k v c) ≡ none
  unfolding find_entry write_val
  find_entry-write_val-none q k v [] h = refl
  find_entry-write_val-none q k v (e ∷ c) h = ground (arith, find_entry-write_val-none q k v c)

  pub write_val-HomeChain :
      (mask i : ℕ) (k : K) (v : V) (c : Chain K V)
      → HomeChain T mask i c
      → HomeChain T mask i (write_val T k v c)
  unfolding write_val
  write_val-HomeChain mask i k v [] h = tt
  write_val-HomeChain mask i k v (e ∷ c) h = elim (Bool-cases (compare_hash_keys T k e.key)) [
    | inl hit ↦ rw hit h
    | inr miss ↦
        rw miss
          (h.0, find_entry-write_val-none e.key k v c h.1, write_val-HomeChain mask i k v c h.2)
  ]

  pub find_entry-write_val :
      (q k : K) (v : V) (c : Chain K V) (e : Entry K V)
      → find_entry T k c ≡ some e
      → find_entry T q (write_val T k v c)
        ≡ (if compare_hash_keys T q k then some (record e { val = v }) else find_entry T q c)
  unfolding find_entry write_val
  find_entry-write_val q k v [] e h = cc
  find_entry-write_val q k v (x ∷ c) e h = ground (
    arith,
    find_entry-write_val q k v c e,
    same_congr L q k x.key,
    L.same_symm q k,
    L.same_symm k x.key,
    L.same_trans q x.key k,
  )

  pub length-write_val : (k : K) (v : V) (c : Chain K V) → length (write_val T k v c) ≡ length c
  unfolding write_val
  length-write_val k v [] = refl
  length-write_val k v (e ∷ c) = ground (arith, length-write_val k v c)

  -- Another chain in the home slot of `k`, which answers otherwise at `k` alone.
  pub find_in-set :
      (mask : ℕ) (cs : List (Chain K V)) (k : K) (c : Chain K V) (r : Option (Entry K V))
      → length cs ≡ mask + 1
      → ((q : K)
          → find_entry T q c ≡ (
              if compare_hash_keys T q k
              then r
              else find_entry T q (get_or cs (slot_of T k mask) [])))
      → (q : K)
      → find_in T mask (set cs (slot_of T k mask) c) q
        ≡ (if compare_hash_keys T q k then r else find_in T mask cs q)
  find_in-set mask cs k c r width reads q =
      rw
        (get_or-set cs (slot_of T q mask) (slot_of T k mask) c []
          (omega (arith, slot_of-le T k mask)))
        (ground (arith, reads q, slot_of_congr L q k mask))
