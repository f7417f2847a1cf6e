-- ===== src/Redis/Object.antt =====
-- `robj`, its types, and the two hash table types of redis/src/redis.c. A string object is its bytes, a
-- list object the values of its nodes in order, a set object a hash table whose values are NULL.
-- Reference counts are not part of an object: strings are never changed in place, so two owners of one
-- string object cannot tell it from two copies.
use Prim.Native.Char.{code}
use Prim.Native.String.{String}
use homemade.Prelude.{
  ℕ, ◌≡◌, refl, ◌↔◌, Bool, true, false, ◌&&◌, none, some, List, [], ◌∷◌, arith, ◌==◌, ==_iff,
  if◌then◌else◌, length, ap,
}
use homemade.Dict.Types.{DictType, Dict, compare_hash_keys, set_hash_key}
use homemade.Dict.Chain.{IsLawful}
use homemade.Dict.Hash.{gen_hash}

abbrev pub Bytes : Type 0
Bytes = List ℕ

-- the bytes of an ASCII literal
abbrev pub codes : String → Bytes
codes String.[] = []
codes (String.◌∷◌ c s) = code c ∷ codes s

-- `memcmp(a, b, len) == 0` for two strings of `len` bytes
unfoldable pub memcmp_eq : Bytes → Bytes → Bool
memcmp_eq [] [] = true
memcmp_eq (x ∷ a) (y ∷ b) = (x == y) && memcmp_eq a b
memcmp_eq a b = false

-- `sdsDictKeyCompare`, and `dictSdsKeyCompare`, which calls it on the strings of two objects
unfoldable pub sds_dict_key_compare : Bytes → Bytes → Bool
unfolding memcmp_eq
sds_dict_key_compare key1 key2 = if length key1 == length key2 then memcmp_eq key1 key2 else false

-- `dictSdsHash`
unfoldable pub dict_sds_hash : Bytes → ℕ
unfolding gen_hash
dict_sds_hash key = gen_hash key (length key)

-- `setDictType`; the values are NULL
unfoldable pub set_dict_type : DictType Bytes (Unit {0})
set_dict_type = record {
  hash_function = dict_sds_hash;
  key_dup = none;
  val_dup = none;
  key_compare = some sds_dict_key_compare;
  pointer_eq = memcmp_eq;
  key_destructor = true;
  val_destructor = false;
}

-- `REDIS_STRING`, `REDIS_LIST` and `REDIS_SET` objects
pub data Obj : Type 0 where
  string : Bytes → Obj
  list : List Bytes → Obj
  set_obj : Dict Bytes (Unit {0}) → Obj

-- `hashDictType`
unfoldable pub hash_dict_type : DictType Bytes Obj
hash_dict_type = record {
  hash_function = dict_sds_hash;
  key_dup = none;
  val_dup = none;
  key_compare = some sds_dict_key_compare;
  pointer_eq = memcmp_eq;
  key_destructor = true;
  val_destructor = true;
}

memcmp_eq_refl : (a : Bytes) → memcmp_eq a a ≡ true
unfolding memcmp_eq
memcmp_eq_refl [] = refl
memcmp_eq_refl (x ∷ a) = ground (arith, memcmp_eq_refl a)

memcmp_eq→eq : (a b : Bytes) → memcmp_eq a b ≡ true → a ≡ b
unfolding memcmp_eq
memcmp_eq→eq [] [] h = refl
memcmp_eq→eq [] (y ∷ b) h = cc
memcmp_eq→eq (x ∷ a) [] h = cc
memcmp_eq→eq (x ∷ a) (y ∷ b) h = ground (arith, memcmp_eq→eq a b, ==_iff x y)

pub memcmp_eq_iff : (a b : Bytes) → (memcmp_eq a b ≡ true) ↔ (a ≡ b)
memcmp_eq_iff a b = (memcmp_eq→eq a b, λ e. rw e (memcmp_eq_refl b))

-- Two keys compare equal exactly when they are the same bytes.
pub sds_dict_key_compare_iff : (a b : Bytes) → (sds_dict_key_compare a b ≡ true) ↔ (a ≡ b)
unfolding sds_dict_key_compare
sds_dict_key_compare_iff a b =
    (λ h. ground (arith, memcmp_eq→eq a b), λ e. rw e (ground (arith, memcmp_eq_refl b)))

pub same-hash_dict_type_iff :
    (a b : Bytes) → (compare_hash_keys hash_dict_type a b ≡ true) ↔ (a ≡ b)
unfolding compare_hash_keys hash_dict_type
same-hash_dict_type_iff a b = sds_dict_key_compare_iff a b

pub hash_dict_type-IsLawful : IsLawful hash_dict_type
unfolding set_hash_key hash_dict_type
hash_dict_type-IsLawful = record {
  same_refl = λ a. (same-hash_dict_type_iff a a).1 refl;
  same_symm = λ a b. ground (arith, same-hash_dict_type_iff a b, same-hash_dict_type_iff b a);
  same_trans = λ a b c p q. ground (
    arith,
    same-hash_dict_type_iff a b,
    same-hash_dict_type_iff b c,
    same-hash_dict_type_iff a c,
  );
  same-dup = λ a. (same-hash_dict_type_iff a a).1 refl;
  hash-same = λ a b p. ap dict_sds_hash ((same-hash_dict_type_iff a b).0 p);
}

pub same-set_dict_type_iff : (a b : Bytes) → (compare_hash_keys set_dict_type a b ≡ true) ↔ (a ≡ b)
unfolding compare_hash_keys set_dict_type
same-set_dict_type_iff a b = sds_dict_key_compare_iff a b

pub set_dict_type-IsLawful : IsLawful set_dict_type
unfolding set_hash_key set_dict_type
set_dict_type-IsLawful = record {
  same_refl = λ a. (same-set_dict_type_iff a a).1 refl;
  same_symm = λ a b. ground (arith, same-set_dict_type_iff a b, same-set_dict_type_iff b a);
  same_trans = λ a b c p q.
      ground
        (arith, same-set_dict_type_iff a b, same-set_dict_type_iff b c, same-set_dict_type_iff a c);
  same-dup = λ a. (same-set_dict_type_iff a a).1 refl;
  hash-same = λ a b p. ap dict_sds_hash ((same-set_dict_type_iff a b).0 p);
}
