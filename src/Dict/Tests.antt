-- ===== src/Dict/Tests.antt =====
-- Runs of the hash table, and its theorems at concrete tables with `unsigned int` keys.
use homemade.Prelude.{
  ℕ, ◌≡◌, refl, true, false, Option, none, some, List, [], ◌∷◌, ◌++◌, arith, ◌==◌, max,
  if◌then◌else◌, get_or,
}
use mathlib.Core.List.{flatten}
use homemade.Dict.Types.{
  Entry, DictType, Dict, Status, dict_ok, Freed, initial_size, compare_hash_keys, slot_of,
  set_hash_key, set_hash_val, free_entry_key, free_entry_val,
}
use homemade.Dict.Chain.{find_entry, unlink, write_val, IsLawful}
use homemade.Dict.Hash.{identity_hash}
use homemade.Dict.Table.{
  create, next_power, next_power_loop, expand, resize, rebuild, rehash, move_chain,
}
use homemade.Dict.Ops.{
  find, add, replace, generic_delete, delete, clear, get_random_key, expand_if_needed, key_index,
}
use homemade.Dict.Grow.{IsValid, IsGrown, expand-IsGrown, resize-IsGrown}
use homemade.Dict.Add.{IsAdded, add-IsAdded}
use homemade.Dict.Change.{IsDeleted, delete-IsDeleted, IsReplaced, replace-IsReplaced}
use homemade.Dict.Iterator.{next, visit, get_iterator, visit_all_but_last}

int_type : DictType ℕ ℕ
int_type = record {
  hash_function = identity_hash;
  key_dup = none;
  val_dup = none;
  key_compare = none;
  pointer_eq = ◌==◌;
  key_destructor = false;
  val_destructor = true;
}

int_type-IsLawful : IsLawful int_type
unfolding int_type compare_hash_keys set_hash_key identity_hash
int_type-IsLawful = record {
  same_refl = ground arith;
  same_symm = ground arith;
  same_trans = ground arith;
  same-dup = ground arith;
  hash-same = ground arith;
}

program : Unit {0}
unfolding int_type compare_hash_keys set_hash_key set_hash_val identity_hash free_entry_key
    free_entry_val slot_of find_entry unlink write_val create next_power next_power_loop expand
    resize rebuild rehash move_chain find expand_if_needed key_index add replace delete clear
    get_random_key next visit get_iterator
program = tt

abbrev entry : ℕ → ℕ → Entry ℕ ℕ
entry k v = record { key = k; val = v }

-- Two slots, with the keys 2 and 3.
abbrev sample : Dict ℕ ℕ
sample = record {
  table = (entry 2 20 ∷ []) ∷ (entry 3 30 ∷ []) ∷ [];
  size = 2;
  sizemask = 1;
  used = 2;
}

sample-IsValid : IsValid int_type sample
unfolding program
sample-IsValid = record {
  width = refl;
  mask = refl;
  homes = ((refl, refl, tt), ((refl, refl, tt), tt));
  counted = refl;
  room = omega arith;
  bound = omega arith;
}

-- A third key makes the table grow to sixteen slots.
abbrev grown : Option (Dict ℕ ℕ × Status) → Option (Entry ℕ ℕ)
grown none = none
grown (some (ht, status)) = if ht.size == 16 then find int_type ht 18 else none

grows : grown (add int_type sample 18 180) ≡ some (entry 18 180)
unfolding program
grows = refl

-- The key in the last slot is not visited.
visits : visit 5 5 sample get_iterator ≡ some (entry 2 20 ∷ [])
unfolding program
visits = refl

finds-two : find int_type sample 2 ≡ some (entry 2 20)
unfolding program
finds-two = refl

misses-seven : find int_type sample 7 ≡ none
unfolding program
misses-seven = refl

abbrev emptied : Dict ℕ ℕ
emptied = record { table = [] ∷ [] ∷ []; size = 2; sizemask = 1; used = 0 }

emptied-IsValid : IsValid int_type emptied
emptied-IsValid = record {
  width = refl;
  mask = refl;
  homes = (tt, (tt, tt));
  counted = refl;
  room = omega arith;
  bound = omega arith;
}

expand-IsGrown_example :
    (n : Dict ℕ ℕ) × (expand int_type sample 40 ≡ some (n, dict_ok))
    × IsGrown int_type-IsLawful sample sample-IsValid 40 n
expand-IsGrown_example =
    expand-IsGrown int_type-IsLawful sample sample-IsValid 40 (omega arith) (omega arith)

resize-IsGrown_example :
    (n : Dict ℕ ℕ) × (resize int_type sample ≡ some (n, dict_ok))
    × IsGrown int_type-IsLawful sample sample-IsValid (max 2 initial_size) n
resize-IsGrown_example = resize-IsGrown int_type-IsLawful sample sample-IsValid

add-IsAdded_example :
    (n : Dict ℕ ℕ) × (add int_type sample 7 70 ≡ some (n, dict_ok))
    × IsAdded int_type-IsLawful sample n 7 70
add-IsAdded_example =
    add-IsAdded int_type-IsLawful sample 7 70 sample-IsValid (omega arith) misses-seven

delete-IsDeleted_example :
    (n : Dict ℕ ℕ) × (generic_delete int_type sample 2 false ≡ (
      n,
      dict_ok,
      if false
          then []
          else free_entry_key int_type (entry 2 20) ++ free_entry_val int_type (entry 2 20),
    ))
    × IsDeleted int_type-IsLawful sample n 2
delete-IsDeleted_example =
    delete-IsDeleted int_type-IsLawful sample 2 false (entry 2 20) sample-IsValid finds-two

replace-IsReplaced_example :
    (n : Dict ℕ ℕ) × (freed : List (Freed ℕ ℕ)) × (replace int_type sample 2 22 ≡ some (n, freed))
    × IsReplaced int_type-IsLawful sample n 2 22 freed
replace-IsReplaced_example =
    replace-IsReplaced int_type-IsLawful sample 2 22 sample-IsValid (omega arith)

draws-three : get_random_key int_type (5 ∷ 6 ∷ []) sample ≡ some (some (entry 3 30))
unfolding program
draws-three = refl

visit_all_but_last_example :
    (es : List (Entry ℕ ℕ)) × (visit 3 3 sample get_iterator ≡ some es)
    × (flatten sample.table ≡ es ++ get_or sample.table 1 [])
visit_all_but_last_example = visit_all_but_last int_type sample sample-IsValid (omega arith)
