-- ===== src/Dict/Chain.antt =====
-- The walks of redis/src/dict.c along one bucket, and their laws.
use homemade.Prelude.{◌≡◌, true, Option, none, some, [], ◌∷◌, if◌then◌else◌}
use homemade.Dict.Types.{Entry, DictType, Chain, compare_hash_keys, set_hash_key}

module _ {K V : Type 0} (T : DictType K V) where
  -- the loop of `dictFind`
  unfoldable pub find_entry : K → Chain K V → Option (Entry K V)
  find_entry k [] = none
  find_entry k (e ∷ c) = if compare_hash_keys T k e.key then some e else find_entry k c

  -- the loop of `dictGenericDelete`: the entry is unlinked from its predecessor or from the slot
  unfoldable pub unlink : K → Chain K V → Chain K V
  unlink k [] = []
  unlink k (e ∷ c) = if compare_hash_keys T k e.key then c else e ∷ unlink k c

  -- a write of `val` to the entry that `dictFind` returned
  unfoldable pub write_val : K → V → Chain K V → Chain K V
  write_val k v [] = []
  write_val k v (e ∷ c) =
      if compare_hash_keys T k e.key then record e { val = v } ∷ c else e ∷ write_val k v c

-- What the callbacks have to promise: keys compare by an equivalence that the hash respects, and a
-- duplicate of a key compares equal to it.
pub record IsLawful {K V : Type 0} (T : DictType K V) : Type 0 where
  pub same_refl : (a : K) → compare_hash_keys T a a ≡ true
  pub same_symm : (a b : K) → compare_hash_keys T a b ≡ compare_hash_keys T b a
  pub same_trans :
      (a b c : K)
      → compare_hash_keys T a b ≡ true
      → compare_hash_keys T b c ≡ true
      → compare_hash_keys T a c ≡ true
  pub same-dup : (a : K) → compare_hash_keys T a (set_hash_key T a) ≡ true
  pub hash-same : (a b : K) → compare_hash_keys T a b ≡ true → T.hash_function a ≡ T.hash_function b
