-- ===== src/Dict/Types.antt =====
-- `dictEntry`, `dictType` and the macros of redis/src/dict.h.
use homemade.Prelude.{ℕ, Bool, true, false, Option, none, some, List, [], ◌∷◌, bit_and}

pub record Entry (K V : Type 0) : Type 0 where
  pub key : K
  pub val : V

-- A NULL function pointer is `none`; `pointer_eq` is the comparison `(key1) == (key2)` that stands in
-- for a NULL `keyCompare`. Of a destructor only its presence matters here.
pub record DictType (K V : Type 0) : Type 0 where
  pub hash_function : K → ℕ
  pub key_dup : Option (K → K)
  pub val_dup : Option (V → V)
  pub key_compare : Option (K → K → Bool)
  pub pointer_eq : K → K → Bool
  pub key_destructor : Bool
  pub val_destructor : Bool

-- `DICT_OK` and `DICT_ERR`
pub data Status : Type 0 where
  dict_ok dict_err : Status

-- The value of an entry that was looked up.
abbrev pub value_of : {K V : Type 0} → Option (Entry K V) → Option V
value_of none = none
value_of (some e) = some e.val

-- A call of a destructor.
pub data Freed (K V : Type 0) : Type 0 where
  free_key : K → Freed K V
  free_val : V → Freed K V

abbrev pub Chain : Type 0 → Type 0 → Type 0
Chain K V = List (Entry K V)

-- `dict`, without `type` and `privdata`
pub record Dict (K V : Type 0) : Type 0 where
  pub table : List (Chain K V)
  pub size : ℕ
  pub sizemask : ℕ
  pub used : ℕ

abbrev pub initial_size : ℕ
initial_size = 16

-- The choice that the macros make between a callback and the plain value.
unfoldable pub dup_with : {A : Type 0} → Option (A → A) → A → A
dup_with none a = a
dup_with (some f) a = f a

unfoldable pub compare_with : {K : Type 0} → Option (K → K → Bool) → (K → K → Bool) → K → K → Bool
compare_with none pointers a b = pointers a b
compare_with (some f) pointers a b = f a b

module _ {K V : Type 0} (T : DictType K V) where
  unfoldable pub set_hash_key : K → K
  unfolding dup_with
  set_hash_key k = dup_with T.key_dup k

  unfoldable pub set_hash_val : V → V
  unfolding dup_with
  set_hash_val v = dup_with T.val_dup v

  unfoldable pub compare_hash_keys : K → K → Bool
  unfolding compare_with
  compare_hash_keys a b = compare_with T.key_compare T.pointer_eq a b

  unfoldable pub free_entry_key : Entry K V → List (Freed K V)
  free_entry_key e = elim T.key_destructor [ true ↦ free_key e.key ∷ [] | false ↦ [] ]

  unfoldable pub free_entry_val : Entry K V → List (Freed K V)
  free_entry_val e = elim T.val_destructor [ true ↦ free_val e.val ∷ [] | false ↦ [] ]

  -- the slot that `key` belongs to under a mask
  unfoldable pub slot_of : K → ℕ → ℕ
  slot_of k mask = bit_and (T.hash_function k) mask
