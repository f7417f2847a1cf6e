-- ===== src/Redis/Samples.antt =====
-- A server with one key of each type, for the tests.
use homemade.Prelude.{◌≡◌, refl, Option, none, some, [], ◌∷◌, arith}
use homemade.Prelude.Int.{negsuc}
use homemade.Dict.Types.{
  compare_hash_keys, slot_of, set_hash_key, set_hash_val, free_entry_key, free_entry_val,
}
use homemade.Dict.Hash.{gen_hash, gen_hash_loop}
use homemade.Dict.Chain.{find_entry, write_val, unlink}
use homemade.Dict.Table.{create, expand, rebuild, rehash, move_chain, next_power, next_power_loop}
use homemade.Dict.Ops.{find, add, replace, delete, generic_delete, expand_if_needed, key_index}
use homemade.Dict.Grow.{IsValid}
use homemade.Redis.Object.{
  codes, string, list, set_obj, memcmp_eq, sds_dict_key_compare, dict_sds_hash, hash_dict_type,
  set_dict_type,
}
use homemade.Redis.Decimal.{print_ℤ, print_ℕ, print_loop}
use homemade.Redis.State.{Db, State, db, holds, IsOpen, IsReady}
use homemade.Redis.Members.{Members}

program : Unit {0}
unfolding gen_hash gen_hash_loop memcmp_eq sds_dict_key_compare dict_sds_hash hash_dict_type
    set_dict_type compare_hash_keys set_hash_key set_hash_val free_entry_key free_entry_val slot_of
    find_entry write_val unlink create next_power next_power_loop expand rebuild rehash move_chain
    find expand_if_needed key_index add replace delete generic_delete
program = tt

abbrev pub members : Members
members = record {
  table = (record { key = codes "x"; val = tt } ∷ []) ∷ [];
  size = 1;
  sizemask = 0;
  used = 1;
}

-- A string, a list and a set, in three of four slots.
abbrev pub objects : Db
objects = record {
  table =
      (record { key = codes "s"; val = string (codes "-7") } ∷ [])
      ∷ (record { key = codes "l"; val = list (codes "a" ∷ codes "b" ∷ codes "c" ∷ []) } ∷ [])
      ∷ (record { key = codes "e"; val = set_obj members } ∷ [])
      ∷ []
      ∷ [];
  size = 4;
  sizemask = 3;
  used = 3;
}

abbrev pub server : State
server = record { dicts = create ∷ objects ∷ []; dbnum = 2; dirty = 0; dictid = 1; reply = [] }

pub members-IsValid : IsValid set_dict_type members
unfolding program
members-IsValid = record {
  width = refl;
  mask = refl;
  homes = ((refl, refl, tt), tt);
  counted = refl;
  room = omega arith;
  bound = omega arith;
}

pub objects-IsValid : IsValid hash_dict_type objects
unfolding program
objects-IsValid = record {
  width = refl;
  mask = refl;
  homes = ((refl, refl, tt), ((refl, refl, tt), ((refl, refl, tt), (tt, tt))));
  counted = refl;
  room = omega arith;
  bound = omega arith;
}

pub server-IsOpen : IsOpen server
server-IsOpen = record { valid = objects-IsValid; selected = omega arith }

pub server-IsReady : IsReady server
server-IsReady = record { opened = server-IsOpen; room = omega arith }

pub holds_s : holds server (codes "s") ≡ some (string (print_ℤ (negsuc 6)))
unfolding program print_ℤ print_ℕ print_loop
holds_s = refl

pub holds_l : holds server (codes "l") ≡ some (list (codes "a" ∷ codes "b" ∷ codes "c" ∷ []))
unfolding program
holds_l = refl

pub holds_e : holds server (codes "e") ≡ some (set_obj members)
unfolding program
holds_e = refl

pub missing_m : find hash_dict_type (db server) (codes "m") ≡ none
unfolding program
missing_m = refl

pub members_x : find set_dict_type members (codes "x") ≡ some (record { key = codes "x"; val = tt })
unfolding program
members_x = refl

-- The server after a command, which does not fail.
abbrev pub ran : Option State → State
ran none = server
ran (some t) = t
